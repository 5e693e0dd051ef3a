-- ===== src/Mynode.antt =====
-- The crate mynode: the accountability gadget, its modules by the names of its source files.
pub mod LcBlocks
pub mod TreeManager
pub mod Config
pub mod Actions
pub mod F32
pub mod Extractor
pub mod Proposer
pub mod Node
pub mod Miner
pub mod Leader
