-- ===== src/MasjidInstance/Storage.antt =====
-- What the contract of smart-contract/src/protocol/MasjidInstance.sol stores, and the interfaces of
-- what it calls: OpenZeppelin's `AccessControl`, with its documented behaviour, and an ERC-20 token.
use text.Mathlib.Text.{◌==◌ as str_eq}
use masjid_protocol.CashOut.Instance.{Revert, zero_address_text}
use masjid_protocol.Contracts.{CashOutRequest, InstanceVerificationStatus}
use masjid_protocol.Prelude.{
  ℕ, ◌≡◌, ◌≢◌, ◌⊎◌, String, Bool, true, false, ◌&&◌, ◌||◌, List, [], ◌∷◌, Result, ok, thrown, ◌==◌,
  if◌then◌else◌,
}

pub data Role : Type 0 where
  protocol_role admin_role board_role : Role

-- `R` is what the library stores of the roles.
pub record AccessControl (R : Type 0) : Type 0 where
  pub no_roles : R
  pub has_role : Role → String → R → Bool
  pub grant_role : Role → String → R → R
  pub revoke_role : Role → String → R → R
  pub grant-has :
      (role : Role) (account : String) (roles : R)
      → has_role role account (grant_role role account roles) ≡ true
  pub none-has : (role : Role) (account : String) → has_role role account no_roles ≡ false
  pub grant-other :
      (role r : Role) (account a : String) (roles : R)
      → (role ≢ r) ⊎ (account ≢ a)
      → has_role role account (grant_role r a roles) ≡ has_role role account roles
  pub revoke-other :
      (role r : Role) (account a : String) (roles : R)
      → (role ≢ r) ⊎ (account ≢ a)
      → has_role role account (revoke_role r a roles) ≡ has_role role account roles
  pub revoke-missing :
      (role : Role) (account : String) (roles : R)
      → has_role role account roles ≡ false
      → revoke_role role account roles ≡ roles

-- `T` is what the token stores; `transfer` has the sender as its first argument.
pub record Token (T : Type 0) : Type 0 where
  pub transfer : String → String → ℕ → T → Bool × T
  pub transfer_from : String → String → ℕ → T → Bool × T

pub record Message : Type 0 where
  pub sender : String
  pub timestamp : ℕ

-- `roles` and `token` are the states of the library and of the token; `has_approved` holds the
-- pairs of a request's number and an account that are mapped to true.
pub record State (R T : Type 0) : Type 0 where
  pub this : String
  pub masjid_name : String
  pub metadata_uri : String
  pub masjid_admin : String
  pub status : InstanceVerificationStatus
  pub verified_at : ℕ
  pub board_member_count : ℕ
  pub cash_out_threshold : ℕ
  pub cash_out_nonce : ℕ
  pub cash_out_by_id : ℕ → CashOutRequest
  pub has_approved : List (ℕ × String)
  pub roles : R
  pub token : T

-- What a mapping holds where nothing was stored.
abbrev pub no_request : CashOutRequest
no_request = record {
  to = zero_address_text;
  amount = 0;
  note_hash = "0x0000000000000000000000000000000000000000000000000000000000000000";
  proposer = zero_address_text;
  created_at = 0;
  expires_at = 0;
  approvals = 0;
  executed = false;
  canceled = false;
}

abbrev pub put : ℕ → CashOutRequest → (ℕ → CashOutRequest) → ℕ → CashOutRequest
put id request by_id i = if i == id then request else by_id i

abbrev pub approved : ℕ → String → List (ℕ × String) → Bool
approved id account [] = false
approved id account ((i, a) ∷ pairs) = (i == id && str_eq a account) || approved id account pairs

abbrev pub then_ok : {A B : Type 0} → Result Revert A → (A → B) → Result Revert B
then_ok (ok a) f = ok (f a)
then_ok (thrown e) f = thrown e
