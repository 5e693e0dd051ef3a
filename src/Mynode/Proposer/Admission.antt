-- ===== src/Mynode/Proposer/Admission.antt =====
-- Which messages of other nodes mynode/src/cpproposer.rs takes for proposals.
use accountability_gadget_pr.Base.{
  ℕ, ◌≡◌, refl, sym, ap, ◌↔◌, ◌==◌, ==_iff, ==_refl, List, Option, some, Outcome, ok, err, panic,
  out_of_fuel, Bool-cases, inl, inr,
}
use accountability_gadget_pr.Crypto.{Digest, PublicKey, Primitives}
use accountability_gadget_pr.Mynode.Config.{CheckpointCommittee}
use accountability_gadget_pr.Mynode.Actions.{
  CheckpointAction, CheckpointTransaction, CheckpointEvent, CheckpointError, new_proposal,
  verify_signature,
}
use accountability_gadget_pr.Mynode.Proposer.{offer, if_signed, admit}

offer-proposal :
    (get_leader : ℕ → PublicKey) (author : PublicKey) (a : CheckpointAction) (e : CheckpointEvent)
    → offer get_leader author a ≡ some e
    → (i : ℕ) × (b : Digest) × (e ≡ new_proposal i b)
      × (a ≡ CheckpointAction.propose i b)
      × (author ≡ get_leader i)
unfolding offer
offer-proposal get_leader author (CheckpointAction.propose i b) e h =
    elim (Bool-cases (author == get_leader i)) [
      | inl t ↦ let h' = rw t at h in (i, b, sym cc, refl, (==_iff author (get_leader i)).0 t)
      | inr n ↦ let h' = rw n at h in cc
    ]
offer-proposal get_leader author (CheckpointAction.accept i b) e h = cc
offer-proposal get_leader author (CheckpointAction.reject i) e h = cc

if_signed-ok :
    (r : Outcome CheckpointError (Unit {0})) (o : Option CheckpointEvent) (e : CheckpointEvent)
    → if_signed r o ≡ some e
    → (r ≡ ok tt) × (o ≡ some e)
if_signed-ok (ok tt) o e h = (refl, h)
if_signed-ok (err x) o e h = cc
if_signed-ok panic o e h = cc
if_signed-ok out_of_fuel o e h = cc

-- A message is taken for an event exactly if it is a proposal, its signature holds for a member of
-- the committee, and its author leads the iteration; the event is then that proposal.
pub admit_iff :
    (c : Primitives) (serialize : CheckpointTransaction → List ℕ) (committee : CheckpointCommittee)
    (get_leader : ℕ → PublicKey) (tx : CheckpointTransaction) (e : CheckpointEvent)
    → (admit c serialize committee get_leader tx ≡ some e) ↔ (
        (i : ℕ) × (b : Digest) × (e ≡ new_proposal i b)
        × (tx.action ≡ CheckpointAction.propose i b)
        × (tx.author ≡ get_leader i)
        × (verify_signature c serialize committee tx ≡ ok tt))
unfolding admit
admit_iff c serialize committee get_leader tx e = (
  λ h.
      let (signed, offered) = if_signed-ok (verify_signature c serialize committee tx) _ e h in
      let (i, b, q, a, l) = offer-proposal get_leader tx.author tx.action e offered in
      (i, b, q, a, l, signed),
  λ h.
      let (i, b, q, a, l, signed) = h in
      rw (signed, a, offer, l, ==_refl (get_leader i)) (ap some (sym q)),
)
