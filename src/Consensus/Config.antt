-- ===== src/Consensus/Config.antt =====
-- consensus/src/config.rs: the committee. A socket address is a number that nothing computes with.
mod Defs
mod Stakes
unfoldable pub use Defs.*
unfoldable pub use Stakes.*
