-- ===== src/Core/Handlers.antt =====
-- HotStuffCore::on_receive_vote, on_receive_proposal, on_propose, the promises, and the start.
pub mod Votes
pub mod Voting
pub mod Proposing
pub mod Init
pub mod Opinion
pub mod Promise
pub mod Certificate
pub mod Counting
pub mod Start
pub mod Install
pub mod Publish
pub mod Propose
pub mod Reply
