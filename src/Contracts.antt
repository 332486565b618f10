-- ===== src/Contracts.antt =====
-- The rest of front-end/src/lib/contracts.ts: the statuses, the cash-out request, and the contract
-- calls that the pages make, with the ABI that each names. The deployed addresses come from the
-- build's environment, so they are a parameter.
pub mod Calls
use Prim.Native.Nat.{zero, suc}
use masjid_protocol.Prelude.{ℕ, Bool, String, Option, none, some}

pub record Addresses : Type 0 where
  pub masjid_protocol_address : String
  pub verifier_registry_address : String
  pub idrx : String

pub data MasjidStatus : Type 0 where
  none_status pending rejected verified flagged revoked : MasjidStatus

pub data InstanceVerificationStatus : Type 0 where
  unverified verified flagged revoked : InstanceVerificationStatus

-- The numbers of the enumeration, by which `status()` answers.
abbrev pub instance_status : ℕ → Option InstanceVerificationStatus
instance_status zero = some unverified
instance_status (suc zero) = some verified
instance_status (suc (suc zero)) = some flagged
instance_status (suc (suc (suc zero))) = some revoked
instance_status _ = none

pub record CashOutRequest : Type 0 where
  pub to : String
  pub amount : ℕ
  pub note_hash : String
  pub proposer : String
  pub created_at : ℕ
  pub expires_at : ℕ
  pub approvals : ℕ
  pub executed : Bool
  pub canceled : Bool
