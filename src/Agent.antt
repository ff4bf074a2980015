-- ===== src/Agent.antt =====
-- chic/agent: the chat agent around the model.
mod Tests
pub mod Rate
pub mod History
pub mod Memory
pub mod Summary
pub mod Turn
pub mod Guardrail
