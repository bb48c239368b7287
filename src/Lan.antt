-- ===== src/Lan.antt =====
-- qnsd/lan: frames, fragments, receipts, the service of a packet, and the choice of a route.
pub mod Fragments
pub mod Pieces
pub mod Whole
pub mod Counts
pub mod Frames
pub mod Receipts
pub mod Session
pub mod Serving
pub mod Agree
pub mod Routes
