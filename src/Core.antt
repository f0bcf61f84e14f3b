-- ===== src/Core.antt =====
-- The protocol state machine HotStuffCore: include/hotstuff/consensus.h, src/consensus.cpp.
pub mod State
pub mod Post
pub mod Invariant
pub mod Frame
pub mod Stable
pub mod Advance
pub mod Deliver
pub mod Update
pub mod Handlers
pub mod Reach
