-- ===== src/Documents.antt =====
-- graph-rag/src/documents.js: a document's text is cut into sections (`blocks`, `splitLong`, `chunk`).
--
-- A text is its list of UTF-16 code units. The loop of `splitLong` is on fuel, the length of the block.
pub mod Blocks
pub mod Chunks
pub mod Spans
pub mod Ordered
pub mod Parts
pub mod Sections
pub mod Kept
pub mod Covered
mod Examples
