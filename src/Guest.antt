-- ===== src/Guest.antt =====
-- The guest's side: the crate `strategies` and the two programs under methods/guest/src/bin.
pub mod VotingPower
pub mod Delegation
pub mod Majority
pub mod Context
pub mod Signature
pub mod Voting
pub mod Execution
