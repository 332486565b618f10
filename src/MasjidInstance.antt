-- ===== src/MasjidInstance.antt =====
-- smart-contract/src/protocol/MasjidInstance.sol: the contract of one masjid, its state and its
-- functions. A function that reverts leaves the state as it was. The roles are OpenZeppelin's
-- `AccessControl` and the money is an ERC-20 token: both are interfaces here, of what the contract
-- calls. A call of the token that reverts counts as one that answers false. Events are left out, and
-- so are the immutables that no function but their own view reads.
mod Storage
pub mod Calls
pub mod Deployed
pub use Storage.*
use text.Mathlib.Text.{◌==◌ as str_eq}
use masjid_protocol.CashOut.Instance.{
  Revert, ◌>>◌, revert_if, is_verified, zero_address_text, missing_role, invalid_status,
  cash_out_not_found, cash_out_is_canceled, cash_out_already_executed, cash_out_expired,
  transfer_failed, zero_address, amount_zero, cash_out_already_approved, duplicate_verifier,
  invalid_threshold, panic,
}
use masjid_protocol.Contracts.{CashOutRequest, InstanceVerificationStatus, unverified}
use masjid_protocol.Prelude.{
  ℕ, suc, ◌-◌, ◌%◌, ◌^◌, ◌≡◌, ◌≢◌, ◌⊎◌, String, Bool, true, false, not, ◌&&◌, ◌||◌, List, [], ◌∷◌,
  Result, ok, thrown, ltb, ◌==◌, length, if◌then◌else◌,
}
use masjid_protocol.Contracts.Calls.{ProposeCashOutArgs}
use masjid_protocol.CashOut.Instance as Checks

module _ {R T : Type 0} (access : AccessControl R) (token : Token T) where
  -- The loop of the constructor: the roles and the count that it leaves.
  unfoldable pub add_members : List String → R → ℕ → Result Revert (R × ℕ)
  add_members [] roles count = ok (roles, count)
  add_members (member ∷ members) roles count =
      let rest = add_members members (access.grant_role board_role member roles) (suc count) in
      do
        revert_if (str_eq member zero_address_text) zero_address
        revert_if (access.has_role board_role member roles) duplicate_verifier
        rest

  unfoldable pub constructor' :
      (this protocol masjid_name metadata_uri masjid_admin stablecoin : String)
      → List String
      → (threshold : ℕ) → T
      → Result Revert (State R T)
  constructor' this protocol masjid_name metadata_uri masjid_admin stablecoin members threshold t =
      do
        revert_if
            (str_eq protocol zero_address_text
              || str_eq masjid_admin zero_address_text
              || str_eq stablecoin zero_address_text)
            zero_address
        revert_if (threshold == 0) invalid_threshold
        revert_if (ltb (length members) threshold) invalid_threshold
        let granted =
            access.grant_role admin_role masjid_admin
              (access.grant_role protocol_role protocol access.no_roles)
        then_ok (add_members members granted 0) (λ added. record {
          this = this;
          masjid_name = masjid_name;
          metadata_uri = metadata_uri;
          masjid_admin = masjid_admin;
          status = unverified;
          verified_at = 0;
          board_member_count = added.1;
          cash_out_threshold = threshold;
          cash_out_nonce = 0;
          cash_out_by_id = λ id. no_request;
          has_approved = [];
          roles = added.0;
          token = t;
        })

  module _ (msg : Message) (s : State R T) where
    -- The modifier `onlyRole(role)`.
    abbrev only_role : Role → Result Revert (Unit {0})
    only_role role = revert_if (not (access.has_role role msg.sender s.roles)) missing_role

    unfoldable pub cash_in : (amount : ℕ) → Result Revert (State R T)
    cash_in amount = do
      revert_if (amount == 0) amount_zero
      let (transferred, t) = token.transfer_from msg.sender s.this amount s.token
      revert_if (not transferred) transfer_failed
      ok (record s { token = t })

    unfoldable pub propose_cash_out : ProposeCashOutArgs → Result Revert (State R T)
    propose_cash_out p =
        then_ok
          (Checks.propose_cash_out (access.has_role board_role msg.sender s.roles) s.status
            msg.sender s.cash_out_nonce msg.timestamp p)
          (λ made. record s {
            cash_out_nonce = made.0;
            cash_out_by_id = put made.0 made.1 s.cash_out_by_id;
          })

    unfoldable pub approve_cash_out : (id : ℕ) → Result Revert (State R T)
    approve_cash_out id = do
      only_role board_role
      revert_if (not (is_verified s.status)) invalid_status
      let request = s.cash_out_by_id id
      revert_if (request.created_at == 0) cash_out_not_found
      revert_if request.canceled cash_out_is_canceled
      revert_if request.executed cash_out_already_executed
      revert_if (ltb request.expires_at msg.timestamp) cash_out_expired
      revert_if (approved id msg.sender s.has_approved) cash_out_already_approved
      revert_if (not (ltb (suc request.approvals) (2 ^ 32))) panic
      ok (record s {
        has_approved = (id, msg.sender) ∷ s.has_approved;
        cash_out_by_id =
            put id (record request { approvals = suc request.approvals }) s.cash_out_by_id;
      })

    unfoldable pub execute_cash_out : (id : ℕ) → Result Revert (State R T)
    execute_cash_out id =
        let request = s.cash_out_by_id id in
        let (transferred, t) = token.transfer s.this request.to request.amount s.token in
        then_ok
          (Checks.execute_cash_out (access.has_role admin_role msg.sender s.roles) s.status request
            s.cash_out_threshold msg.timestamp transferred)
          (λ executed. record s { cash_out_by_id = put id executed s.cash_out_by_id; token = t })

    unfoldable pub cancel_cash_out : (id : ℕ) → Result Revert (State R T)
    cancel_cash_out id =
        then_ok
          (Checks.cancel_cash_out (access.has_role admin_role msg.sender s.roles)
            (s.cash_out_by_id id))
          (λ canceled. record s { cash_out_by_id = put id canceled s.cash_out_by_id })

    unfoldable pub set_board_member : String → (allowed : Bool) → Result Revert (State R T)
    set_board_member member true = do
      only_role admin_role
      revert_if (str_eq member zero_address_text) zero_address
      revert_if (access.has_role board_role member s.roles) duplicate_verifier
      ok (record s {
        roles = access.grant_role board_role member s.roles;
        board_member_count = suc s.board_member_count;
      })
    set_board_member member false = do
      only_role admin_role
      revert_if (str_eq member zero_address_text) zero_address
      revert_if (s.board_member_count == 0) panic
      revert_if (ltb (s.board_member_count - 1) s.cash_out_threshold) invalid_threshold
      ok (record s {
        roles = access.revoke_role board_role member s.roles;
        board_member_count = s.board_member_count - 1;
      })

    unfoldable pub set_cash_out_threshold : (new_threshold : ℕ) → Result Revert (State R T)
    set_cash_out_threshold new_threshold = do
      only_role admin_role
      revert_if (new_threshold == 0) invalid_threshold
      revert_if (ltb s.board_member_count new_threshold) invalid_threshold
      ok (record s { cash_out_threshold = new_threshold })

    unfoldable pub set_admin : (new_admin : String) → Result Revert (State R T)
    set_admin new_admin = do
      only_role protocol_role
      revert_if (str_eq new_admin zero_address_text) zero_address
      ok (record s {
        roles =
            access.grant_role admin_role new_admin
              (access.revoke_role admin_role s.masjid_admin s.roles);
        masjid_admin = new_admin;
      })

    -- The time of the first verification is kept.
    unfoldable pub set_status : InstanceVerificationStatus → Result Revert (State R T)
    set_status new_status = do
      only_role protocol_role
      ok (record s {
        status = new_status;
        verified_at =
            if is_verified new_status && (s.verified_at == 0)
            then msg.timestamp % 2 ^ 64
            else s.verified_at;
      })

    unfoldable pub set_metadata_uri : String → Result Revert (State R T)
    set_metadata_uri new_metadata_uri = do
      only_role protocol_role
      ok (record s { metadata_uri = new_metadata_uri })
