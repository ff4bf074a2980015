-- ===== src/Store.antt =====
-- chic/store: the durable store of conversations and preferences.
mod Tests
pub mod Chat
