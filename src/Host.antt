-- ===== src/Host.antt =====
-- The host's side: the crate `apps` and its two binaries.
pub mod Preflight
pub mod VotingPower
pub mod Delegation
pub mod Majority
pub mod Context
pub mod Node
pub mod Publisher
pub mod ExecutionPublisher
