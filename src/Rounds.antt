-- ===== src/Rounds.antt =====
-- services/tool_loop.py: one round of tool calls.
pub mod Transcript
pub mod Prepare
pub mod Round
pub mod Guarded
pub mod Vetted
pub mod Protocol
pub mod Answers
pub mod Complete
pub mod Batches
pub mod Scoped
pub mod Tests
