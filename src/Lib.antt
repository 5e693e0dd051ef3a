-- ===== src/Lib.antt =====
-- The accountability gadget prototype: a longest chain protocol, whose blocks are checkpointed by
-- votes that a HotStuff blockchain orders.
--
-- The parts. A node of the crate consensus handles proposals, votes, timeouts and requests in one task
-- (consensus/src/core.rs); it checks them with consensus/src/messages.rs, collects votes and timeouts
-- in consensus/src/aggregator.rs, and commits blocks, whose payloads are the ledger. The crate mynode
-- reads checkpoint transactions off that ledger (mynode/src/cpextractor.rs) and sends each decision to
-- the task that keeps the tree of longest chain blocks (mynode/src/lcblocktreemanager.rs, lcblocks.rs),
-- which tells the miner (mynode/src/miner.rs) where to mine, and to the proposer
-- (mynode/src/cpproposer.rs), which asks the tree what to propose and what to accept, and hands its
-- votes to the mempool. The crate mempool packs such transactions into payloads, hands their digests to
-- consensus and fetches missing ones; a committed block goes with its ancestors to the ledger
-- (`analyze_block` of mynode/src/mynode.rs). The store (store/src/lib.rs) keeps blocks and payloads and
-- wakes those who wait for one. What goes over the network is published by gossip (gossip/src/lib.rs).
--
-- The files. Crypto is crypto/src/lib.rs. Consensus/Config, Error, Messages, Aggregator and Leader are
-- the files of those names in consensus/src, Consensus/Core is core.rs with the parts of synchronizer.rs
-- and mempool.rs that run in its task: Core/Monad has its state, Core/Handlers one definition for each
-- method, Core/Run the loop `run`, Core/Invariant what a predicate of the state has to withstand,
-- Core/Safety the rules for votes, timeouts and commits. Consensus/Agreement is about several nodes at
-- once, each with a run of its own: Log is what a run signs, Correct why a node signed what a
-- certificate shows.
-- Consensus/Synchronizer is the task of synchronizer.rs. Store is store/src/lib.rs. Mempool/Config,
-- Payload, Core and Synchronizer are config.rs with error.rs, messages.rs with payload.rs, core.rs with
-- the parts of synchronizer.rs that run in its task, and the task of synchronizer.rs in mempool/src.
-- Mynode/Proposer, Miner, Leader and Node are cpproposer.rs, miner.rs, cpleader.rs and the ledger output
-- of mynode.rs, which myadversarialnode.rs repeats.
-- Mynode/LcBlocks, TreeManager and Extractor are lcblocks.rs, lcblocktreemanager.rs and
-- cpextractor.rs, Mynode/Actions is cpactions.rs and cpevents.rs, Mynode/Config is config.rs, and
-- Mynode/F32 the floating point comparisons of cpextractor.rs. Gossip is gossip/src/lib.rs. Base has what
-- they share; Tests has
-- runs on small inputs. A module below one of these is named for what it proves of it.
--
-- How the parts interact. What a task is told is an event or an input, in the order in which it takes it
-- in; runs are over arbitrary lists of these, so every interleaving with the other tasks is among them.
-- Mynode/Proposer/Decisions joins the extractor to the proposer, Consensus/Core takes the mempool's
-- replies as they come, Mynode/Node reads what Consensus and Mempool store.
--
-- How it is modelled. A call returns an `Outcome`: a value, an error of the source's enum, or a panic
-- (`unwrap`, `expect`); a handler returns its state with it, since what was written before an error
-- stays written. What a task sends is a list of effects. Hash maps are association lists and hash sets
-- are lists; no theorem depends on their order. Digests and keys are
-- the numbers that their 32 bytes write. Sums of stakes wrap at 2^32 and rounds at 2^64, as in a
-- release build.
--
-- Parameters. SHA-512 and the signatures of ed25519_dalek are the record `Primitives`; bincode is
-- `encode`, `decode`, `serialize` and `deserialize`; the mempool's replies and the leader elector that
-- the core is given are fields of `Env`; the generator of rand is an argument of `get_leader`; RocksDB
-- is the record `Db`, and `IsLawful` says that `get` finds what was put last; the block tree's replies
-- to the proposer, the clock, the lottery, and which waiting future is ready next, are given with the
-- inputs. `BatchIsComplete` says that the batch check passes signatures that pass one by one. `Fits`
-- says that twice the whole stake is a u32. `IsCodec` says that what bincode reads back of a block that
-- it wrote is that block. The store is shared with the mempool: what a read in the core returns is the
-- parameter `store_read`, and `IsBlockStore` says that a block which it returns is one that the core wrote
-- there last. Of SHA-512 something is assumed in Consensus/Agreement only: `AreApart`, that
-- what a correct node signs collides with nothing else, and that the digests of two given certificates
-- fix the round and the parent of their blocks. `IsHonest` and `IsCorrect` say there that a signature
-- which passes under a node's name is on what the node has signed, in its core or, as the transactions
-- for checkpoints, in other tasks, where it is longer than a vote or a timeout, and that the node runs
-- the core.
--
-- Fuel. The walks `is_prefix_of` and `height_honest` to the root have the height of the block as fuel,
-- which is the number of their steps in a well-formed tree. `process_block`, `handle_vote` and
-- `generate_proposal` call one another in core.rs: `process_block` takes fuel, and the theorems about
-- runs are for every amount of it, those included that run out. The walk of `analyze_block` to the
-- genesis block has fuel too; where rounds fall from child to parent, its steps are at most one more than
-- the round of the block.
--
-- Not modelled: network (TCP), the set-up of libp2p and timers as I/O, the tasks that Mempool::run,
-- Consensus::run and Node::new start, the attacks of the adversarial node, the BLS variant of crypto,
-- which is not compiled, configuration files and the command line.
pub mod Base
pub mod Crypto
pub mod Consensus
pub mod Mynode
pub mod Gossip
pub mod Store
pub mod Mempool
mod Tests
