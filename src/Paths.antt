-- ===== src/Paths.antt =====
-- services/learning_path_store.py: the creation of learning paths and the completion of their stages.
pub mod Row
pub mod Stages
pub mod Creation
pub mod Kept
pub mod Creates
pub mod Reading
pub mod Covers
pub mod Repeats
pub mod Next
pub mod Tests
