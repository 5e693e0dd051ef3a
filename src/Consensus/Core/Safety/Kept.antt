-- ===== src/Consensus/Core/Safety/Kept.antt =====
-- The runs of consensus/src/core.rs against the rules for votes, timeouts and commits.
use accountability_gadget_pr.Base.{
  ℕ, ◌≤◌, ◌≡◌, refl, ◌⊎◌, inl, inr, List, Option, none, some, true, ok, arith,
}
use mathlib.Core.List.{Memᴰ}
use accountability_gadget_pr.Base.Dict.{Dict, lookup}
use accountability_gadget_pr.Crypto.{Digest}
use accountability_gadget_pr.Consensus.Config.{Fits}
use accountability_gadget_pr.Consensus.Messages.{
  Tc, Block, new_block, verify_tc, verify_tc?, verify_block, qc_eq, block_digest, block_genesis,
  qc_genesis,
}
use accountability_gadget_pr.Consensus.Aggregator.Sound.{BatchIsComplete}
use accountability_gadget_pr.Consensus.Aggregator.Timeouts.{new_aggregator-HasTcMakers}
use accountability_gadget_pr.Consensus.Core.{
  ConsensusMessage, loop_back, tc_message, sync_asked, payload_checked, Env, State, new_core,
}
use accountability_gadget_pr.Consensus.Core.Keeps.{Keeps}
use accountability_gadget_pr.Consensus.Core.Invariant.{Kinds, IsInvariant, IsGood}
use accountability_gadget_pr.Consensus.Core.HighQc.{
  IsGenuine, HasGenuine, verify_block-IsGenuine, new_core-HasGenuine,
}
use accountability_gadget_pr.Consensus.Core.Run.{Event, run, run-Keeps, AreTold, booted}
use accountability_gadget_pr.Consensus.Core.Safety.Rules.{IsChecked, HasParent}
use accountability_gadget_pr.Consensus.Core.Safety.Logged.{
  Logged, nothing-Logged, Logged-quiet, Logged-asks, Logged-sends, Logged-commits,
}
use accountability_gadget_pr.Consensus.Core.Safety.Stored.{IsCodec, IsBlockStore, Stored}
use accountability_gadget_pr.Consensus.Core.Safety.Steps.{
  IsSafe, emit-IsSafe, raise-IsSafe, advance-IsSafe, adopt-IsSafe, store-IsSafe, create-IsSafe,
  counts-IsSafe, times-IsSafe,
}

-- What is asked of the messages: a TC that comes in passes `TC::verify`, and only blocks come back that
-- the node handed to its synchronizer or to its mempool driver.
unfoldable pub IsTold : Env → ConsensusMessage → State → Type 0
IsTold env (tc_message tc) s = verify_tc env.primitives env.committee tc ≡ ok tt
IsTold env (loop_back b) s = Memᴰ (sync_asked b) s.effects ⊎ Memᴰ (payload_checked b) s.effects
IsTold env _ s = Unit {0}

module _ (env : Env) (complete : BatchIsComplete env.primitives) (fits : Fits env.committee)
    (codec : IsCodec env) (blocks : IsBlockStore env) where
  abbrev Safe : State → Type 0
  Safe = IsSafe env complete fits codec

  abbrev kinds : Kinds
  kinds = record {
    on_qc = IsGenuine env.primitives env.committee;
    on_tc = λ tc. verify_tc env.primitives env.committee tc ≡ ok tt;
    on_block = IsChecked env.primitives env.committee;
    on_loaded =
        λ d b. (block_digest env.primitives b ≡ d) × IsChecked env.primitives env.committee b;
    rank = λ b. b.qc.round;
    on_message = IsTold env;
  }

  verify_block-IsChecked :
      (b : Block)
      → verify_block env.primitives env.committee b ≡ ok tt
      → IsChecked env.primitives env.committee b
  verify_block-IsChecked b e =
      (verify_block-IsGenuine env complete fits b e, checked_tc b.tc (embedded b e))
    where
      embedded :
          (b : Block)
          → verify_block env.primitives env.committee b ≡ ok tt
          → verify_tc? env.primitives env.committee b.tc ≡ ok tt
      embedded b e = unfold verify_block in ground arith

      checked_tc :
          (o : Option Tc)
          → verify_tc? env.primitives env.committee o ≡ ok tt
          → IsGood (λ tc. verify_tc env.primitives env.committee tc ≡ ok tt) o
      checked_tc none e = tt
      checked_tc (some tc) e = unfold verify_tc? in e

  told_block :
      (b : Block) (s : State)
      → IsTold env (loop_back b) s
      → Safe s
      → IsChecked env.primitives env.committee b × (b.qc.round ≤ s.high_qc.round)
  unfolding IsTold
  told_block b s (inl m) i = i.logged.asked (sync_asked b) b m (inl refl)
  told_block b s (inr m) i = i.logged.asked (payload_checked b) b m (inr refl)

  told_tc :
      (tc : Tc) (s : State)
      → IsTold env (tc_message tc) s
      → verify_tc env.primitives env.committee tc ≡ ok tt
  unfolding IsTold
  told_tc tc s e = e

  parent_of :
      (b' b : Block)
      → ((qc_eq b.qc qc_genesis ≡ true) × (b' ≡ block_genesis))
        ⊎ ((block_digest env.primitives b' ≡ b.qc.hash) × IsChecked env.primitives env.committee b')
      → HasParent env.primitives env.committee b' b
  parent_of b' b h = h

  loaded :
      (s : State) (d : Digest) (bytes : List ℕ) (b : Block)
      → Safe s
      → env.store_read s.effects d (lookup d s.store) ≡ ok (some bytes)
      → env.decode bytes ≡ some b
      → (IsChecked env.primitives env.committee b × (b.qc.round ≤ s.high_qc.round))
        × ((block_digest env.primitives b ≡ d) × IsChecked env.primitives env.committee b)
  unfolding Stored
  loaded s d bytes b i e h =
      let (r, same) = i.stored d bytes b (blocks s.effects d (lookup d s.store) bytes b e h) h in
      (r, (same, r.0))

  proposed :
      (s : State) (tc : Option Tc) (payload : List Digest)
      → Safe s
      → IsGood (λ tc. verify_tc env.primitives env.committee tc ≡ ok tt) tc
      → IsChecked env.primitives env.committee
          (new_block env.primitives s.high_qc tc env.name s.round payload)
  unfolding new_block HasGenuine
  proposed s tc payload i g = (i.genuine.0, g)

  Safe-IsInvariant : IsInvariant env Safe kinds
  unfolding Keeps
  Safe-IsInvariant = record {
    emits =
        λ e q s i. emit-IsSafe env complete fits codec e s i (Logged-quiet _ _ _ _ _ i.logged e q);
    asks = λ e b s a r i.
        emit-IsSafe env complete fits codec e s i (Logged-asks _ _ _ _ _ i.logged e b a r.0 r.1);
    sends = λ t to s l h i.
        emit-IsSafe env complete fits codec _ s i (Logged-sends _ _ _ _ _ i.logged t to l h);
    commits = λ b0 b1 b k p1 p0 r s i. emit-IsSafe env complete fits codec _ s i (
        Logged-commits _ _ _ _ _ i.logged b0 (record {
          child = b1;
          grandchild = b;
          checked = k;
          extends = parent_of b1 b p1;
          follows = parent_of b0 b1 p0;
          consecutive = r;
        }));
    raises = raise-IsSafe env complete fits codec;
    advances = advance-IsSafe env complete fits codec;
    adopts = adopt-IsSafe env complete fits codec;
    stores = store-IsSafe env complete fits codec;
    creates = create-IsSafe env complete fits codec;
    loads = loaded;
    ranks = λ b. omega arith;
    starts = (inl (unfold qc_eq in refl), tt);
    checked = λ b e. (verify_block-IsGenuine env complete fits b e, verify_block-IsChecked b e);
    proposes = proposed;
    counts = counts-IsSafe env complete fits codec;
    times = times-IsSafe env complete fits codec;
    tells_tc = told_tc;
    tells_block = told_block;
  }

  new_core-Safe : (store : Dict (List ℕ)) → Stored env store 0 → Safe (new_core env store)
  unfolding new_core
  new_core-Safe store i = record {
    genuine = new_core-HasGenuine env complete fits store;
    timers = new_aggregator-HasTcMakers env.primitives env.committee;
    stored = i;
    logged = nothing-Logged env.primitives env.committee;
  }

  -- Where the committee's double stake is a `u32`, the batch check passes signatures that pass one by
  -- one, bincode never reads back another block than it wrote, the store holds nothing unchecked at the
  -- start, each block that a read of the store returns is what the core wrote there last, each TC message passes `TC::verify`, and only blocks come back that were handed out: after
  -- any run of the core, each vote was for a checked block that its own certificate or its TC allows,
  -- each timeout of the round of that block or a later one reports the round of its certificate or a
  -- later one, and each commit is of the grandparent of a checked block whose child is of the next
  -- round.
  pub run-Logged :
      (fuel : ℕ) (store : Dict (List ℕ)) (es : List Event)
      → Stored env store 0
      → AreTold env fuel (IsTold env) es (booted env fuel (new_core env store))
      → let s = (run env fuel es (new_core env store)).1 in
        Logged env.primitives env.committee s.effects s.high_qc.round s.last_voted_round
  run-Logged fuel store es i told =
      (run-Keeps env fuel Safe kinds Safe-IsInvariant es (new_core env store) told
        (new_core-Safe store i)).logged
