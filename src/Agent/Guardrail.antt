-- ===== src/Agent/Guardrail.antt =====
-- The grounding check of chic/agent/guardrail.py. `digit_of` is the value of a decimal digit of
-- Unicode (`\d`), and `is_word` says what `\w` matches.
pub mod Spans
pub mod Scan
pub mod Check
pub mod Quoted
mod Tests
