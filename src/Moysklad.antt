-- ===== src/Moysklad.antt =====
-- chic/moysklad: the MoySklad API client.
mod Tests
pub mod Errors
pub mod Dates
pub mod Options
pub mod Documents
pub mod Models
pub mod Client
