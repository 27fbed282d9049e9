-- ===== src/Quizzes.antt =====
-- models/session.py, services/session.py and services/quiz_sessions.py: a quiz, the rules of its
-- state machine, the answers that move it, and the durable table that keeps it.
pub mod Quiz
pub mod Valid
pub mod Answers
pub mod Progress
pub mod Keeps
pub mod Results
pub mod Row
pub mod Store
pub mod Create
pub mod Room
pub mod Ownership
pub mod Starts
pub mod Reading
pub mod Commits
pub mod History
pub mod Revisions
pub mod Tests
