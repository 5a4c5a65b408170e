-- ===== src/Compaction.antt =====
-- nontainer/compaction.py: folds of a conversation, when to fold, and the packing of a history
-- that is too large for one request.
pub mod Items
pub mod Reduced
pub mod Chunks
pub mod Cut
pub mod Packed
pub mod Folds
pub mod Padded
pub mod Sorted
pub mod Recorded
pub mod InForce
pub mod Due
pub mod Examples
