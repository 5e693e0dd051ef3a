-- ===== src/Consensus/Core/Safety.antt =====
-- What the log of a node of consensus/src/core.rs says of its votes, timeouts and commits.
pub mod Rules
pub mod Logged
pub mod Stored
pub mod Steps
pub mod Kept
