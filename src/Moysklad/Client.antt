-- ===== src/Moysklad/Client.antt =====
-- chic/moysklad/client.py: the HTTP client.
pub mod Transport
pub mod Pages
pub mod Endpoints
