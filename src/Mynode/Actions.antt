-- ===== src/Mynode/Actions.antt =====
-- mynode/src/cpactions.rs and cpevents.rs: the transactions of the checkpoint protocol and its events.
-- bincode, which is not part of the repository, is `serialize`.
pub mod Signing
use accountability_gadget_pr.Base.{
  ℕ, List, Option, ltb, Outcome, ok, err, panic, out_of_fuel, ensure, ◌>>◌,
}
use accountability_gadget_pr.Crypto.{
  Digest, PublicKey, Signature, Primitives, CryptoError, default_signature, verify,
}
use accountability_gadget_pr.Mynode.Config.{CheckpointCommittee, stake}

pub data CheckpointAction : Type 0 where
  propose accept : ℕ → Digest → CheckpointAction
  reject : ℕ → CheckpointAction

pub record CheckpointTransaction : Type 0 where
  pub author : PublicKey
  pub action : CheckpointAction
  pub signature : Signature

pub data CheckpointEvent : Type 0 where
  new_proposal : ℕ → Digest → CheckpointEvent
  new_checkpoint : ℕ → Option Digest → CheckpointEvent

-- mynode/src/error.rs, as far as these calls raise it
pub data CheckpointError : Type 0 where
  unknown_authority : PublicKey → CheckpointError
  invalid_signature : CryptoError → CheckpointError

abbrev pub from_crypto {ℓ} : {A : Type ℓ} → Outcome CryptoError A → Outcome CheckpointError A
from_crypto (ok a) = ok a
from_crypto (err e) = err (invalid_signature e)
from_crypto panic = panic
from_crypto out_of_fuel = out_of_fuel

module _ (c : Primitives) (serialize : CheckpointTransaction → List ℕ) where
  unfoldable pub transaction_digest : CheckpointTransaction → Digest
  transaction_digest tx = c.sha512 (serialize tx)

  -- `CheckpointTransaction::new`
  unfoldable pub new_transaction : PublicKey → CheckpointAction → CheckpointTransaction
  unfolding transaction_digest
  new_transaction author action =
      let tx : CheckpointTransaction = record {
        author = author;
        action = action;
        signature = default_signature;
      } in
      record tx { signature = c.sign (transaction_digest tx) }

  -- `CheckpointTransaction::verify_signature`: the digest is taken of the transaction with the default
  -- signature in it.
  unfoldable pub verify_signature :
      CheckpointCommittee → CheckpointTransaction → Outcome CheckpointError (Unit {0})
  unfolding transaction_digest
  verify_signature committee tx = do
    ensure (ltb 0 (stake committee tx.author)) (unknown_authority tx.author)
    from_crypto (
        verify c tx.signature (transaction_digest (record tx { signature = default_signature }))
          tx.author)
