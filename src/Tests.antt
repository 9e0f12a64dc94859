-- ===== src/Tests.antt =====
-- Concrete inputs on which the theorems are applied.
mod World
mod Format
mod Prover
mod Publisher
mod Delegation
mod Voting
mod Execution
mod Signature
mod Chain
mod Plugin
mod Flags
mod Database
mod Server
mod Abi
mod Backed
mod Posted
mod Signing
mod PluginSetup
mod Token
mod Never
