-- ===== src/Mynode/Actions/Signing.antt =====
-- What a node signs passes the check of mynode/src/cpactions.rs.
use accountability_gadget_pr.Base.{◌<◌, ◌≡◌, refl, List, ℕ, ok, lt→ltb}
use accountability_gadget_pr.Crypto.{PublicKey, Primitives}
use accountability_gadget_pr.Consensus.Messages.Signing.{Signs}
use accountability_gadget_pr.Mynode.Config.{CheckpointCommittee, stake}
use accountability_gadget_pr.Mynode.Actions.{
  CheckpointAction, CheckpointTransaction, new_transaction, verify_signature,
}

-- A transaction that a member with a positive stake makes passes `verify_signature`, which takes the
-- digest with the default signature in the place of the signature.
pub new_transaction-verify_signature :
    (c : Primitives) (serialize : CheckpointTransaction → List ℕ) (committee : CheckpointCommittee)
    (name : PublicKey) (action : CheckpointAction)
    → Signs c name
    → 0 < stake committee name
    → verify_signature c serialize committee (new_transaction c serialize name action) ≡ ok tt
unfolding verify_signature new_transaction
new_transaction-verify_signature c serialize committee name action signs voting =
    rw (lt→ltb _ _ voting, signs _) refl
