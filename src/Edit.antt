-- ===== src/Edit.antt =====
-- companion/internal/mcpserver/edit.go, patch.go and preserve.go: edits of the text of a file,
-- patches, and the form in which a file stores its text.
pub mod Splice
pub mod Unique
pub mod Range
pub mod Patch
pub mod Pieces
pub mod Traced
pub mod Applied
pub mod Hunk
pub mod Hunks
pub mod Encoding
pub mod Endings
pub mod Returns
pub mod Stored
mod Tests
