-- ===== src/Archipelago.antt =====
-- The ordering phase and the batches of Archipelago: hotstuff/examples/archipelago_app.cpp, and the
-- stable point of hotstuff/src/hotstuff.cpp. The signatures of timestamps, which the code calls a
-- dummy, the clocks and the logs are left out.
pub mod State
pub mod Order
pub mod Execute
pub mod Check
pub mod Sort
pub mod Sorting
pub mod Batch
pub mod Leader
pub mod History
pub mod Follower
pub mod Requests
