-- ===== src/Editing.antt =====
-- nontainer/editing.py: replacing one text by another in a file, with the fallbacks for texts that
-- differ from the file's in white space.
pub mod Matching
pub mod Indent
pub mod Edit
pub mod Nowhere
pub mod Line
pub mod Trailing
pub mod First
pub mod Absent
pub mod Moved
pub mod Lines
pub mod Blocks
pub mod Replaced
mod Examples
