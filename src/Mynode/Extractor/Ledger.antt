-- ===== src/Mynode/Extractor/Ledger.antt =====
-- What mynode/src/cpextractor.rs keeps over the ledger, and the events that it sends.
use accountability_gadget_pr.Base.{
  ℕ, ◌≤◌, ◌≡◌, refl, inl, inr, List, Option, none, some, true, ◌==◌, contains, Distinct, All,
  length, length-Distinct-le, Outcome, ok, err, arith, Bool-cases, Option-cases,
}
use accountability_gadget_pr.Base.Dict.{
  Dict, lookup, keys, values, insert-Distinct, contains-keys-lookup, length-keys, length-values,
  All-keys-insert,
}
use accountability_gadget_pr.Crypto.{PublicKey, Primitives}
use accountability_gadget_pr.Mynode.Config.{CheckpointCommittee, stake, size}
use accountability_gadget_pr.Mynode.Actions.{
  CheckpointAction, CheckpointTransaction, CheckpointEvent, CheckpointError, verify_signature,
}
use accountability_gadget_pr.Mynode.Extractor.{
  Vote, Extractor, reject, accept, note_vote, conclude, on_transaction, on_ledger,
}

-- The votes are of distinct members of the committee.
pub record IsExtractor (committee : CheckpointCommittee) (votes : Dict Vote) : Type 0 where
  pub distinct : Distinct (keys votes)
  pub members : All (λ k. contains k (keys committee.authorities) ≡ true) (keys votes)

-- So there are no more votes than members.
pub IsExtractor-size :
    (committee : CheckpointCommittee) (votes : Dict Vote)
    → IsExtractor committee votes
    → length (values votes) ≤ size committee
unfolding size
IsExtractor-size committee votes i = omega (
  arith,
  length-Distinct-le (keys votes) (keys committee.authorities) i.distinct i.members,
  length-keys votes,
  length-values votes,
  length-keys committee.authorities,
)

pub note_vote-IsExtractor :
    (committee : CheckpointCommittee) (i : ℕ) (author : PublicKey) (a : CheckpointAction)
    (votes : Dict Vote)
    → contains author (keys committee.authorities) ≡ true
    → IsExtractor committee votes
    → IsExtractor committee (note_vote i author a votes)
unfolding note_vote
note_vote-IsExtractor committee i author (CheckpointAction.accept j b) votes m v =
    elim (Bool-cases (j == i)) [
      | inl e ↦
          rw (e, note_vote)
            (record {
              distinct = insert-Distinct author (accept b) votes v.distinct;
              members = All-keys-insert _ author (accept b) votes v.members m;
            })
      | inr e ↦ rw (e, note_vote) v
    ]
note_vote-IsExtractor committee i author (CheckpointAction.reject j) votes m v =
    elim (Bool-cases (j == i)) [
      | inl e ↦
          rw (e, note_vote)
            (record {
              distinct = insert-Distinct author reject votes v.distinct;
              members = All-keys-insert _ author reject votes v.members m;
            })
      | inr e ↦ rw (e, note_vote) v
    ]
note_vote-IsExtractor committee i author (CheckpointAction.propose j b) votes m v = v

module _ (c : Primitives) (serialize : CheckpointTransaction → List ℕ)
    (deserialize : List ℕ → Option CheckpointTransaction) (committee : CheckpointCommittee) where
  -- A transaction whose signature holds is a member's.
  pub verified-member :
      (tx : CheckpointTransaction)
      → verify_signature c serialize committee tx ≡ ok tt
      → contains tx.author (keys committee.authorities) ≡ true
  unfolding verify_signature stake
  verified-member tx e = elim (Option-cases (lookup tx.author committee.authorities)) [
    | inl absent ↦ ground (arith, absent)
    | inr (a, there) ↦ contains-keys-lookup tx.author a committee.authorities there
  ]

  -- How one entry of the ledger is treated: skipped, or a verified vote is noted and the iteration
  -- checked.
  pub data Treated (entry : List ℕ) (x : Extractor)
      : Extractor × Option CheckpointEvent → Type 0 where
    skipped : Treated entry x (x, none)
    noted :
        (tx : CheckpointTransaction)
        → deserialize entry ≡ some tx
        → verify_signature c serialize committee tx ≡ ok tt
        → Treated entry x (
            conclude (size committee) (record x {
              current_votes = note_vote x.current_iteration tx.author tx.action x.current_votes;
            }))

  on_transaction-Treated :
      (entry : List ℕ) (tx : CheckpointTransaction) (x : Extractor)
      → deserialize entry ≡ some tx
      → (r : Outcome CheckpointError (Unit {0})) → verify_signature c serialize committee tx ≡ r
      → Treated entry x (on_transaction c serialize deserialize committee tx x)
  unfolding on_transaction
  on_transaction-Treated entry tx x e (ok tt) v = rw (v, on_transaction) (noted tx e v)
  on_transaction-Treated entry tx x e (err z) v = rw (v, on_transaction) skipped
  on_transaction-Treated entry tx x e Outcome.panic v = rw (v, on_transaction) skipped
  on_transaction-Treated entry tx x e Outcome.out_of_fuel v = rw (v, on_transaction) skipped

  pub on_ledger-Treated :
      (entry : List ℕ) (x : Extractor)
      → Treated entry x (on_ledger c serialize deserialize committee entry x)
  unfolding on_ledger
  on_ledger-Treated entry x = elim (Option-cases (deserialize entry)) [
    | inl e ↦ rw (e, on_ledger) skipped
    | inr (tx, e) ↦
        rw (e, on_ledger)
          (on_transaction-Treated entry tx x e (verify_signature c serialize committee tx) refl)
  ]
