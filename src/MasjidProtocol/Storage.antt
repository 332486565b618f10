-- ===== src/MasjidProtocol/Storage.antt =====
-- What the contract of smart-contract/src/protocol/MasjidProtocol.sol stores, and the interfaces of
-- what it calls: the registry of verifiers, and the factory with the contracts that it deploys.
use masjid_protocol.Contracts as Contracts
use masjid_protocol.Contracts.{pending, rejected, MasjidStatus, InstanceVerificationStatus}
use text.Mathlib.Text.{◌==◌ as str_eq}
use masjid_protocol.Prelude.{
  ◌∷◌, ◌||◌, ◌&&◌, ℕ, true, thrown, some, ok, none, false, [], String, Result, Option, List, Bool,
}

pub data Revert : Type 0 where
  not_admin not_masjid_admin zero_address empty_name not_authorized_verifier : Revert
  invalid_status already_registered_name masjid_not_found already_attested : Revert
  call_reverted overflow : Revert

pub record Masjid : Type 0 where
  pub proposer : String
  pub masjid_admin : String
  pub instance_addr : String
  pub stablecoin : String
  pub name_hash : String
  pub cash_out_threshold : ℕ
  pub attest_yes : ℕ
  pub attest_no : ℕ
  pub status : MasjidStatus
  pub created_at : ℕ
  pub updated_at : ℕ
  pub masjid_name : String
  pub metadata_uri : String

pub record Registry : Type 0 where
  pub is_verifier : String → Bool
  pub quorum : ℕ

-- The factory and the contracts that it has deployed; `I` is what they store.
pub record Instances (I : Type 0) : Type 0 where
  pub deploy :
      (masjid_id masjid_name metadata_uri masjid_admin stablecoin : String)
      → List String
      → (threshold : ℕ) → I
      → Option (String × I)
  pub set_status : String → InstanceVerificationStatus → I → Option I
  pub set_admin : String → String → I → Option I

pub record State (I : Type 0) : Type 0 where
  pub admin : String
  pub masjid_nonce : ℕ
  pub masjid_by_id : String → Masjid
  pub id_by_name_hash : String → String
  pub board_members : String → List String
  pub attesters : String → List String
  pub has_attested : List (String × String)
  pub instances : I

abbrev pub zero_hash : String
zero_hash = "0x0000000000000000000000000000000000000000000000000000000000000000"

abbrev pub attested : String → String → List (String × String) → Bool
attested id account [] = false
attested id account ((i, a) ∷ pairs) =
    (str_eq i id && str_eq a account) || attested id account pairs

-- A call of another contract.
abbrev pub called : {A B : Type 0} → Option A → (A → B) → Result Revert B
called none f = thrown call_reverted
called (some a) f = ok (f a)

abbrev pub is_pending : MasjidStatus → Bool
is_pending pending = true
is_pending _ = false

abbrev pub is_rejected : MasjidStatus → Bool
is_rejected rejected = true
is_rejected _ = false

abbrev pub is_verified : MasjidStatus → Bool
is_verified Contracts.MasjidStatus.verified = true
is_verified _ = false

abbrev pub is_flagged : MasjidStatus → Bool
is_flagged Contracts.MasjidStatus.flagged = true
is_flagged _ = false
