-- ===== src/Mynode/Extractor/Events.antt =====
-- The events that mynode/src/cpextractor.rs sends while it reads a ledger.
use accountability_gadget_pr.Base.{
  ℕ, suc, ◌<◌, ◌≡◌, refl, sym, subst, inl, inr, List, [], ◌∷◌, Option, none, some, All, true,
  Bool-cases, Option-cases, ◌==◌, ==_iff, if◌then◌else◌, contains, ok,
}
use mathlib.Core.List.{Memᴰ}
use accountability_gadget_pr.Base.Dict.{Dict, insert, keys, values, All-insert}
use accountability_gadget_pr.Crypto.{Digest, PublicKey, Primitives}
use accountability_gadget_pr.Mynode.Config.{CheckpointCommittee, size}
use accountability_gadget_pr.Mynode.Actions.{
  CheckpointAction, CheckpointTransaction, CheckpointEvent, new_checkpoint, new_proposal,
  verify_signature,
}
use accountability_gadget_pr.Mynode.Extractor.{
  Vote, reject, accept, Extractor, new_extractor, note_vote, conclude, decide_votes, on_ledger,
  run_ledger,
}
use accountability_gadget_pr.Mynode.Extractor.Decision.{IsAccepted, decide_votes-accept_iff}
use accountability_gadget_pr.Mynode.Extractor.Ledger.{
  IsExtractor, IsExtractor-size, note_vote-IsExtractor, verified-member, Treated, skipped, noted,
  on_ledger-Treated,
}

-- The events are decisions, numbered from `i` on without a gap.
abbrev pub AreNumbered : ℕ → List CheckpointEvent → Type 0
AreNumbered i [] = Unit {0}
AreNumbered i (new_checkpoint j d ∷ events) = (j ≡ i) × AreNumbered (suc i) events
AreNumbered i (new_proposal j d ∷ events) = ⊥

-- The action of a vote.
abbrev pub action_of : ℕ → Vote → CheckpointAction
action_of i reject = CheckpointAction.reject i
action_of i (accept b) = CheckpointAction.accept i b

module _ (c : Primitives) (serialize : CheckpointTransaction → List ℕ)
    (deserialize : List ℕ → Option CheckpointTransaction) (committee : CheckpointCommittee)
    (ledger : List (List ℕ)) where
  -- The ledger has a transaction whose signature holds, by which the author casts the vote.
  abbrev pub IsCast : ℕ → PublicKey × Vote → Type 0
  IsCast i (author, vote) =
      (entry : List ℕ) × (tx : CheckpointTransaction) × Memᴰ entry ledger
      × (deserialize entry ≡ some tx)
      × (verify_signature c serialize committee tx ≡ ok tt)
      × (tx.author ≡ author)
      × (tx.action ≡ action_of i vote)

  -- A checkpoint has votes of distinct members that the ledger has for its iteration, those for it of
  -- more than two thirds of the committee.
  abbrev pub IsJustified : CheckpointEvent → Type 0
  IsJustified (new_checkpoint i (some b)) =
      (votes : Dict Vote) × IsExtractor committee votes
      × All (IsCast i) votes
      × IsAccepted (size committee) (values votes) b
  IsJustified (new_checkpoint i none) = Unit {0}
  IsJustified (new_proposal i d) = Unit {0}

  -- The votes that the extractor keeps.
  record Tallied (i : ℕ) (votes : Dict Vote) : Type 0 where
    extractor : IsExtractor committee votes
    cast : All (IsCast i) votes

  noted-Tallied :
      (i j : ℕ) (vote : Vote) (author : PublicKey) (votes : Dict Vote)
      → contains author (keys committee.authorities) ≡ true
      → IsCast j (author, vote)
      → Tallied i votes
      → IsExtractor committee (if j == i then insert author vote votes else votes)
      → Tallied i (if j == i then insert author vote votes else votes)
  noted-Tallied i j vote author votes m now t e = elim (Bool-cases (j == i)) [
    | inl is ↦ rw is (record {
      extractor = rw is at e;
      cast =
          All-insert _ author vote votes t.cast
            (subst (λ i. IsCast i (author, vote)) ((==_iff j i).0 is) now);
    })
    | inr other ↦ rw other t
  ]

  note_vote-Tallied :
      (i : ℕ) (entry : List ℕ) (tx : CheckpointTransaction) (action : CheckpointAction)
      (votes : Dict Vote)
      → Memᴰ entry ledger
      → deserialize entry ≡ some tx
      → verify_signature c serialize committee tx ≡ ok tt
      → tx.action ≡ action
      → Tallied i votes
      → Tallied i (note_vote i tx.author action votes)
  unfolding note_vote
  note_vote-Tallied i entry tx action votes m e v a t =
      noted action a (note_vote-IsExtractor committee i tx.author action votes member t.extractor)
    where
      member : contains tx.author (keys committee.authorities) ≡ true
      member = verified-member c serialize deserialize committee tx v

      noted :
          (action : CheckpointAction)
          → tx.action ≡ action
          → IsExtractor committee (note_vote i tx.author action votes)
          → Tallied i (note_vote i tx.author action votes)
      noted (CheckpointAction.accept j b) a x =
          noted-Tallied i j (accept b) tx.author votes member (entry, tx, m, e, v, refl, a) t x
      noted (CheckpointAction.reject j) a x =
          noted-Tallied i j reject tx.author votes member (entry, tx, m, e, v, refl, a) t x
      noted (CheckpointAction.propose j b) a x = t

  -- What an entry of the ledger leads to: no event, or the decision of the current iteration.
  data Next (i : ℕ) : Extractor × Option CheckpointEvent → Type 0 where
    quiet : (x : Extractor) → x.current_iteration ≡ i → Tallied i x.current_votes → Next i (x, none)
    decided :
        (d : Option Digest)
        → IsJustified (new_checkpoint i d)
        → Next i
            (record { current_iteration = suc i; current_votes = [] }, some (new_checkpoint i d))

  module _ (small : size committee < 1024) where
    justified :
        (i : ℕ) (votes : Dict Vote) (d : Option Digest)
        → Tallied i votes
        → decide_votes (size committee) (values votes) ≡ some d
        → IsJustified (new_checkpoint i d)
    justified i votes none t e = tt
    justified i votes (some b) t e = (
      votes,
      t.extractor,
      t.cast,
      (decide_votes-accept_iff (size committee) (values votes) small
            (IsExtractor-size committee votes t.extractor) b).0
          e,
    )

    conclude-Next :
        (x : Extractor)
        → Tallied x.current_iteration x.current_votes
        → Next x.current_iteration (conclude (size committee) x)
    unfolding conclude
    conclude-Next x t =
        elim (Option-cases (decide_votes (size committee) (values x.current_votes))) [
          | inl e ↦ rw (e, conclude) (quiet x refl t)
          | inr (d, e) ↦
              rw (e, conclude) (decided d (justified x.current_iteration x.current_votes d t e))
        ]

    Treated-Next :
        (entry : List ℕ) (x : Extractor) {r : Extractor × Option CheckpointEvent}
        → Memᴰ entry ledger
        → Tallied x.current_iteration x.current_votes
        → Treated c serialize deserialize committee entry x r
        → Next x.current_iteration r
    Treated-Next entry x m t skipped = quiet x refl t
    Treated-Next entry x m t (noted tx e v) =
        conclude-Next _
          (note_vote-Tallied x.current_iteration entry tx tx.action x.current_votes m e v refl t)

    run_step :
        (entry : List ℕ) (entries : List (List ℕ)) (x : Extractor)
        (r : Extractor × Option CheckpointEvent)
        → Next x.current_iteration r
        → ((x' : Extractor)
            → Tallied x'.current_iteration x'.current_votes
            → let es = (run_ledger c serialize deserialize committee entries x').1 in
              AreNumbered x'.current_iteration es × All IsJustified es)
        → let rest = (run_ledger c serialize deserialize committee entries r.0).1 in
          let es = elim r.1 as (λ _. List CheckpointEvent) [ none ↦ rest | some e ↦ e ∷ rest ] in
          AreNumbered x.current_iteration es × All IsJustified es
    run_step entry entries x r (quiet x' same t) ih =
        let (a, b) = ih x' (subst (λ i. Tallied i x'.current_votes) (sym same) t) in
        (
          subst (λ i. AreNumbered i (run_ledger c serialize deserialize committee entries x').1)
              same a,
          b,
        )
    run_step entry entries x r (decided d j) ih =
        let (a, b) =
          ih (record { current_iteration = suc x.current_iteration; current_votes = [] })
            (record { extractor = record { distinct = tt; members = tt }; cast = tt }) in
        ((refl, a), (j, b))

    run_ledger-events :
        (entries : List (List ℕ)) (x : Extractor)
        → ((entry : List ℕ) → Memᴰ entry entries → Memᴰ entry ledger)
        → Tallied x.current_iteration x.current_votes
        → let es = (run_ledger c serialize deserialize committee entries x).1 in
          AreNumbered x.current_iteration es × All IsJustified es
    unfolding run_ledger
    run_ledger-events [] x within t = (tt, tt)
    run_ledger-events (entry ∷ entries) x within t =
        run_step entry entries x (on_ledger c serialize deserialize committee entry x)
          (Treated-Next entry x (within entry (Memᴰ.head refl)) t
            (on_ledger-Treated c serialize deserialize committee entry x))
          (λ x' t'. run_ledger-events entries x' (λ e m. within e (Memᴰ.tail m)) t')

    -- For a committee of fewer than 1024: whatever the ledger holds, the events sent from the start are
    -- decisions of the iterations 0, 1, 2, … in turn, and for each checkpoint among them there are votes
    -- of distinct members, each cast for that iteration by a transaction on the ledger whose signature
    -- holds, those for the checkpoint of more than two thirds of the committee.
    pub run_ledger-AreNumbered :
        let es = (run_ledger c serialize deserialize committee ledger new_extractor).1 in
        AreNumbered 0 es × All IsJustified es
    run_ledger-AreNumbered =
        run_ledger-events ledger new_extractor (λ e m. m)
          (record { extractor = record { distinct = tt; members = tt }; cast = tt })
