-- ===== src/Consensus/Core.antt =====
-- consensus/src/core.rs, with the parts of synchronizer.rs and mempool.rs that run in the same task.
mod Monad
pub mod Handlers
pub mod Keeps
pub mod Invariant
mod Ranked
mod Parents
pub mod Preserves
pub mod Dispatch
pub mod Voting
pub mod HighQc
pub mod Run
pub mod Safety
unfoldable pub use Monad.*
