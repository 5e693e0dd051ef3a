-- ===== src/Mempool.antt =====
-- mempool/src: the task that packs the transactions of clients into payloads, keeps the payloads, and
-- hands their digests to consensus. Without the feature `benchmark`.
pub mod Config
pub mod Payload
pub mod Core
pub mod Queue
pub mod Maker
pub mod Synchronizer
