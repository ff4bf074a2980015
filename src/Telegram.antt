-- ===== src/Telegram.antt =====
-- chic/telegram: the bot's side of the conversation.
pub mod Dedupe
pub mod Keyboards
pub mod Render
pub mod Photo
pub mod Bot
mod Tests
