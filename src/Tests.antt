-- ===== src/Tests.antt =====
-- Runs of the model on small inputs, and applications of the theorems to them.
mod Toy
mod Consensus
mod Agreement
mod Table
mod Chain
mod Commits
mod Locks
mod Timeouts
mod Gossip
mod Core
mod Mynode
mod Tree
mod Leader
mod Signing
mod Proposer
mod Services
mod Node
mod Tasks
