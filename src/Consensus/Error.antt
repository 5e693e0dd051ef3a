-- ===== src/Consensus/Error.antt =====
-- consensus/src/error.rs. What the errors of other crates carry is left out.
use accountability_gadget_pr.Base.{ℕ, Outcome, ok, err, panic, out_of_fuel}
use accountability_gadget_pr.Crypto.{Digest, PublicKey, CryptoError}

pub data ConsensusError : Type 0 where
  network_error serialization_error store_error : ConsensusError
  not_in_committee : PublicKey → ConsensusError
  invalid_signature : CryptoError → ConsensusError
  authority_reuse : PublicKey → ConsensusError
  unknown_authority : PublicKey → ConsensusError
  qc_requires_quorum tc_requires_quorum : ConsensusError
  malformed_block : Digest → ConsensusError
  wrong_leader : Digest → PublicKey → ℕ → ConsensusError
  invalid_payload : ConsensusError

abbrev pub ConsensusResult {ℓ} : Type ℓ → Type ℓ
ConsensusResult A = Outcome ConsensusError A

-- `?` on a result of the crate crypto.
abbrev pub from_crypto {ℓ} : {A : Type ℓ} → Outcome CryptoError A → ConsensusResult A
from_crypto (ok a) = ok a
from_crypto (err e) = err (invalid_signature e)
from_crypto panic = panic
from_crypto out_of_fuel = out_of_fuel
