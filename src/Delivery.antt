-- ===== src/Delivery.antt =====
-- HotStuffBase: hotstuff/src/hotstuff.cpp and hotstuff/include/hotstuff/hotstuff.h, how a block is
-- fetched from the replicas and delivered with its ancestors. A promise is a number with an entry in
-- `promises`; a callback on promises is an entry of `callbacks` until it runs, which is a later step
-- even where its promises are resolved already. Peers are numbers.
pub mod State
pub mod Fetch
pub mod Deliver
pub mod Handlers
pub mod Promises
pub mod Onward
pub mod Waiting
pub mod Parents
pub mod Ready
pub mod Steps
pub mod Serves
pub mod Pool
pub mod Turns
pub mod Requests
pub mod Asking
pub mod Calls
pub mod Runs
