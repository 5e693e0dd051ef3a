-- ===== src/Consensus/Core/Handlers.antt =====
-- The handlers of consensus/src/core.rs. `process_block`, `handle_vote` and `generate_proposal` call
-- one another: the first takes fuel, the others take it as an argument.
use accountability_gadget_pr.Base.{
  ℕ, zero, suc, ◌+◌, ◌%◌, List, [], ◌∷◌, ◌++◌, Option, none, some, Bool, true, false, ◌&&◌, ◌||◌,
  ◌==◌, ltb, leb, max, ok, err, panic, out_of_fuel, ensure, ok_or, if◌then◌else◌,
}
use accountability_gadget_pr.Base.Dict.{lookup, insert}
use accountability_gadget_pr.Crypto.{Digest, PublicKey}
use accountability_gadget_pr.Consensus.Config.{address, broadcast_addresses}
use accountability_gadget_pr.Consensus.Error.{
  ConsensusResult, wrong_leader, invalid_payload, serialization_error,
}
use accountability_gadget_pr.Consensus.Messages.{
  Qc, Tc, Block, Vote, Timeout, u64_mod, qc_genesis, block_genesis, qc_eq, parent, high_qc_rounds,
  block_digest, new_block, new_vote, new_timeout, verify_block, verify_vote, verify_timeout,
}
use accountability_gadget_pr.Consensus.Aggregator.{add_vote, add_timeout, cleanup}
use accountability_gadget_pr.Consensus.Core.Monad.{
  ConsensusMessage, propose_message, loop_back, vote_message, timeout_message, tc_message,
  sync_request, PayloadStatus, accept, reject, wait, timer_reset, slept, transmitted, committed,
  sync_asked, payload_asked, payload_checked, mempool_cleaned, created_vote, Env, M, ◌>>=◌, ◌>>◌,
  pure, lift, gets, modify, emit,
}

unfoldable pub none_or : {A : Type 0} → Option A → (A → M (Unit {0})) → M (Unit {0})
none_or none f = pure tt
none_or (some a) f = f a

-- The greatest of a list; `none` for the empty list.
unfoldable pub max_of : List ℕ → Option ℕ
max_of [] = none
max_of (x ∷ xs) = elim (max_of xs) [ none ↦ some x | some y ↦ some (max x y) ]

-- `increase_last_voted_round`
unfoldable pub increase_last_voted_round : ℕ → M (Unit {0})
increase_last_voted_round target =
    modify (λ s. record s { last_voted_round = max s.last_voted_round target })

-- `update_high_qc`
unfoldable pub update_high_qc : Qc → M (Unit {0})
update_high_qc qc =
    modify (λ s. record s { high_qc = if ltb s.high_qc.round qc.round then qc else s.high_qc })

-- `advance_round`
unfoldable pub advance_round : ℕ → M (Unit {0})
advance_round round = do
  current ← gets (λ s. s.round)
  if ltb round current then pure tt else do
    emit timer_reset
    modify (λ s. record s { round = (round + 1) % u64_mod })
    modify (λ s. record s { aggregator = cleanup s.round s.aggregator })

-- `process_qc`
unfoldable pub process_qc : Qc → M (Unit {0})
unfolding advance_round update_high_qc
process_qc qc = do advance_round qc.round; update_high_qc qc

-- The test of `make_vote` for a TC in the block; it panics on a TC without entries.
unfoldable pub can_extend : Block → Option Tc → ConsensusResult Bool
unfolding max_of
can_extend block none = ok false
can_extend block (some tc) = elim (max_of (high_qc_rounds tc)) [
  | none ↦ panic
  | some high ↦ ok ((tc.round + 1) % u64_mod == block.round && leb high block.qc.round)
]

module _ (env : Env) where
  -- `Synchronizer::transmit`: to one authority, or to all others.
  unfoldable pub transmit : ConsensusMessage → Option PublicKey → M (Unit {0})
  transmit message (some to) = do
    a ← lift (address env.committee to)
    emit (transmitted message (a ∷ []))
  transmit message none = emit (transmitted message (broadcast_addresses env.committee env.name))

  -- `store_block`
  unfoldable pub store_block : Block → M (Unit {0})
  store_block block = modify (λ s. record s {
    store = insert (block_digest env.primitives block) (env.encode block) s.store;
  })

  -- `make_vote`: both safety rules, then the round is marked as voted.
  unfoldable pub make_vote : Block → M (Option Vote)
  unfolding increase_last_voted_round can_extend
  make_vote block = do
    last ← gets (λ s. s.last_voted_round)
    extend ← lift (can_extend block block.tc)
    if ltb last block.round && ((block.qc.round + 1) % u64_mod == block.round || extend)
        then (do
          increase_last_voted_round block.round
          pure (some (new_vote env.primitives block env.name)))
        else pure none

  -- `make_vote` and the log line "Created" for its vote, at the end of `process_block`.
  unfoldable pub create_vote : Block → M (Option Vote)
  unfolding make_vote
  create_vote block = do
    vote ← make_vote block
    none_or vote (λ v. emit (created_vote v))
    pure vote

  -- The `match` of `get_parent_block`: what the store holds, or a request to the synchronizer.
  unfoldable pub load_parent : Block → Option (List ℕ) → M (Option Block)
  load_parent block (some bytes) = do
    b ← lift (ok_or (env.decode bytes) serialization_error)
    pure (some b)
  load_parent block none = do emit (sync_asked block); pure none

  -- `store.read(..).await?`
  unfoldable pub read_store : Digest → M (Option (List ℕ))
  read_store key s = (env.store_read s.effects key (lookup key s.store), s)

  -- `Synchronizer::get_parent_block`
  unfoldable pub get_parent_block : Block → M (Option Block)
  unfolding load_parent read_store
  get_parent_block block =
      if qc_eq block.qc qc_genesis
      then pure (some block_genesis)
      else do found ← read_store (parent block); load_parent block found

  -- The end of `get_ancestors`: a parent that is stored must have its own parent stored.
  unfoldable pub with_grandparent : Block → Option Block → M (Option (Block × Block))
  with_grandparent b1 none = lift panic
  with_grandparent b1 (some b0) = pure (some (b0, b1))

  unfoldable pub with_parent : Option Block → M (Option (Block × Block))
  unfolding get_parent_block with_grandparent
  with_parent none = pure none
  with_parent (some b1) = do grandparent ← get_parent_block b1; with_grandparent b1 grandparent

  -- `Synchronizer::get_ancestors`
  unfoldable pub get_ancestors : Block → M (Option (Block × Block))
  unfolding get_parent_block with_parent
  get_ancestors block = do parent ← get_parent_block block; with_parent parent

  unfoldable pub status_result : PayloadStatus → M Bool
  status_result accept = pure true
  status_result reject = lift (err invalid_payload)
  status_result wait = pure false

  -- `MempoolDriver::verify`
  unfoldable pub driver_verify : Block → M Bool
  unfolding status_result
  driver_verify block = do
    status ← gets (λ s. env.mempool_verify s.effects block)
    emit (payload_checked block)
    status_result status

  -- The call of the aggregator, which changes it also if it refuses.
  unfoldable pub aggregate_vote : Vote → M (Option Qc)
  aggregate_vote vote s =
      let (a, r) = add_vote env.primitives vote s.aggregator in (r, record s { aggregator = a })

  unfoldable pub aggregate_timeout : Timeout → M (Option Tc)
  aggregate_timeout timeout s =
      let (a, r) = add_timeout timeout s.aggregator in (r, record s { aggregator = a })

  module _ (process : Block → M (Unit {0})) where
    -- `generate_proposal`
    unfoldable pub generate_proposal : Option Tc → M (Unit {0})
    unfolding transmit
    generate_proposal tc = if env.boycott_proposals then pure tt else do
      emit (slept env.parameters.min_block_delay)
      payload ← gets (λ s. env.mempool_get s.effects env.parameters.max_payload_size)
      emit (payload_asked env.parameters.max_payload_size)
      block ← gets (λ s. new_block env.primitives s.high_qc tc env.name s.round payload)
      transmit (propose_message block) none
      process block

    -- The end of `handle_vote`, `handle_timeout` and `handle_tc`: the leader of the round proposes.
    unfoldable pub propose_if_leader : Option Tc → M (Unit {0})
    unfolding generate_proposal
    propose_if_leader tc = do
      leader ← gets (λ s. env.get_leader s.round)
      if env.name == leader then generate_proposal tc else pure tt

    -- `handle_vote`
    unfoldable pub handle_vote : Vote → M (Unit {0})
    unfolding process_qc propose_if_leader aggregate_vote
    handle_vote vote = do
      round ← gets (λ s. s.round)
      if ltb vote.round round then pure tt else do
        lift (verify_vote env.primitives env.committee vote)
        made ← aggregate_vote vote
        none_or made (λ qc. do process_qc qc; propose_if_leader none)

  -- `vec![b0, b1, block]` payloads, in order
  abbrev pub payloads : Block → Block → Block → List Digest
  payloads b0 b1 block = b0.payload ++ (b1.payload ++ block.payload)

  -- The end of `process_block`: the vote goes to the next leader, which may be this node.
  unfoldable pub send_vote : (Block → M (Unit {0})) → Vote → M (Unit {0})
  unfolding handle_vote transmit
  send_vote process vote = do
    next_leader ← gets (λ s. env.get_leader ((s.round + 1) % u64_mod))
    if next_leader == env.name
        then handle_vote process vote
        else transmit (vote_message vote) (some next_leader)

  -- What follows once the ancestors are there.
  unfoldable pub process_with_ancestors :
      (Block → M (Unit {0})) → Block → Block × Block → M (Unit {0})
  unfolding store_block create_vote send_vote
  process_with_ancestors process block (b0, b1) = do
    store_block block
    if (b0.round + 1) % u64_mod == b1.round then emit (committed b0) else pure tt
    emit (mempool_cleaned (payloads b0 b1 block) block.round)
    round ← gets (λ s. s.round)
    if block.round == round
        then (do vote ← create_vote block; none_or vote (send_vote process))
        else pure tt

  -- `process_block`
  unfoldable pub process_block : ℕ → Block → M (Unit {0})
  unfolding get_ancestors process_with_ancestors
  process_block zero block = lift out_of_fuel
  process_block (suc fuel) block = do
    ancestors ← get_ancestors block
    none_or ancestors (process_with_ancestors (process_block fuel) block)

  module _ (fuel : ℕ) where
    -- `handle_timeout`
    unfoldable pub handle_timeout : Timeout → M (Unit {0})
    unfolding advance_round propose_if_leader aggregate_timeout
    handle_timeout timeout = do
      round ← gets (λ s. s.round)
      if ltb timeout.round round then pure tt else do
        lift (verify_timeout env.primitives env.committee timeout)
        made ← aggregate_timeout timeout
        none_or made
            (λ tc. do advance_round tc.round; propose_if_leader (process_block fuel) (some tc))

    -- `local_timeout_round`
    unfoldable pub local_timeout_round : M (Unit {0})
    unfolding increase_last_voted_round transmit handle_timeout
    local_timeout_round = do
      round ← gets (λ s. s.round)
      increase_last_voted_round round
      timeout ← gets (λ s. new_timeout env.primitives s.high_qc.round s.round env.name)
      emit timer_reset
      transmit (timeout_message timeout) none
      handle_timeout timeout

    -- `handle_proposal`
    unfoldable pub handle_proposal : Block → M (Unit {0})
    unfolding process_qc advance_round driver_verify process_block
    handle_proposal block = do
      lift (
          ensure (block.author == env.get_leader block.round)
            (wrong_leader (block_digest env.primitives block) block.author block.round))
      lift (verify_block env.primitives env.committee block)
      process_qc block.qc
      none_or block.tc (λ tc. advance_round tc.round)
      available ← driver_verify block
      if available then process_block fuel block else pure tt

    -- `handle_sync_request`
    unfoldable pub handle_sync_request : Digest → PublicKey → M (Unit {0})
    unfolding transmit read_store
    handle_sync_request digest sender = do
      found ← read_store digest
      none_or found (λ bytes. do
        block ← lift (ok_or (env.decode bytes) serialization_error)
        transmit (propose_message block) (some sender))

    -- `handle_tc`
    unfoldable pub handle_tc : Tc → M (Unit {0})
    unfolding advance_round propose_if_leader
    handle_tc tc = do advance_round tc.round; propose_if_leader (process_block fuel) (some tc)

    -- The arm of `run` for a message.
    unfoldable pub on_message : ConsensusMessage → M (Unit {0})
    unfolding handle_proposal handle_vote handle_timeout handle_tc process_block handle_sync_request
    on_message (propose_message block) = handle_proposal block
    on_message (vote_message vote) = handle_vote (process_block fuel) vote
    on_message (timeout_message timeout) = handle_timeout timeout
    on_message (tc_message tc) = handle_tc tc
    on_message (loop_back block) = process_block fuel block
    on_message (sync_request digest sender) = handle_sync_request digest sender

    -- The start of `run`.
    unfoldable pub boot : M (Unit {0})
    unfolding propose_if_leader
    boot = do emit timer_reset; propose_if_leader (process_block fuel) none
