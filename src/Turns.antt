-- ===== src/Turns.antt =====
-- nontainer/turns.py: a turn on a workspace.
pub mod Delivery
pub mod Fresh
pub mod Loop
pub mod Collected
pub mod Delivered
pub mod State
pub mod Ending
pub mod Leaving
pub mod Ended
pub mod Stored
pub mod Landed
pub mod Examples
