-- ===== src/Chunks.antt =====
-- services/chunker.py: the splitting of documents into chunks.
pub mod Chars
pub mod Splits
pub mod Chunker
pub mod Ink
pub mod Kept
pub mod Content
pub mod Documents
pub mod Bounds
pub mod Tests
