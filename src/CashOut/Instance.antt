-- ===== src/CashOut/Instance.antt =====
-- smart-contract/src/protocol/MasjidInstance.sol: `proposeCashOut` and the checks of
-- `executeCashOut` and `cancelCashOut`, against which the dashboard's form and buttons are
-- compared. The caller's role and the answer of the token are arguments; a request that was never
-- made has `createdAt` 0.
use text.Mathlib.Text.{◌==◌ as str_eq}
use masjid_protocol.Contracts.Calls.{ProposeCashOutArgs}
use masjid_protocol.Prelude.{
  ℕ, suc, ◌+◌, ◌%◌, ◌^◌, ◌||◌, String, Bool, true, false, not, Result, ok, leb, ltb, ◌==◌,
}
pub use masjid_protocol.Prelude.Reverts.{◌>>◌, revert_if}
use masjid_protocol.Contracts.{CashOutRequest, InstanceVerificationStatus, verified}

pub data Revert : Type 0 where
  missing_role invalid_status cash_out_not_found cash_out_is_canceled : Revert
  cash_out_already_executed cash_out_expired cash_out_threshold_not_reached : Revert
  transfer_failed zero_address amount_zero invalid_expiry : Revert
  cash_out_already_approved duplicate_verifier invalid_threshold panic undecodable : Revert

abbrev pub is_verified : InstanceVerificationStatus → Bool
is_verified verified = true
is_verified _ = false

unfoldable pub execute_cash_out :
    (is_admin : Bool)
    → InstanceVerificationStatus
    → CashOutRequest
    → (cash_out_threshold timestamp : ℕ) → (transferred : Bool) → Result Revert CashOutRequest
execute_cash_out is_admin status request cash_out_threshold timestamp transferred = do
  revert_if (not is_admin) missing_role
  revert_if (not (is_verified status)) invalid_status
  revert_if (request.created_at == 0) cash_out_not_found
  revert_if request.canceled cash_out_is_canceled
  revert_if request.executed cash_out_already_executed
  revert_if (ltb request.expires_at timestamp) cash_out_expired
  revert_if (ltb request.approvals cash_out_threshold) cash_out_threshold_not_reached
  revert_if (not transferred) transfer_failed
  ok (record request { executed = true })

unfoldable pub cancel_cash_out : (is_admin : Bool) → CashOutRequest → Result Revert CashOutRequest
cancel_cash_out is_admin request = do
  revert_if (not is_admin) missing_role
  revert_if (request.created_at == 0) cash_out_not_found
  revert_if request.executed cash_out_already_executed
  revert_if request.canceled cash_out_is_canceled
  ok (record request { canceled = true })

abbrev pub zero_address_text : String
zero_address_text = "0x0000000000000000000000000000000000000000"

-- The number of the new request, which becomes `cashOutNonce`, and the request that is stored
-- there. The arguments are of `uint256` and `uint64`: a call with others is not decoded. The sum of
-- the times is one of `uint256`, cut to `uint64`.
unfoldable pub propose_cash_out :
    (is_board : Bool)
    → InstanceVerificationStatus
    → (sender : String) → (cash_out_nonce timestamp : ℕ) → ProposeCashOutArgs
    → Result Revert (ℕ × CashOutRequest)
propose_cash_out is_board status sender cash_out_nonce timestamp p = do
  revert_if (leb (2 ^ 256) p.amount || leb (2 ^ 64) p.ttl) undecodable
  revert_if (not is_board) missing_role
  revert_if (not (is_verified status)) invalid_status
  revert_if (str_eq p.to zero_address_text) zero_address
  revert_if (p.amount == 0) amount_zero
  revert_if (p.ttl == 0) invalid_expiry
  ok (
    suc cash_out_nonce,
    record {
      to = p.to;
      amount = p.amount;
      note_hash = p.note_hash;
      proposer = sender;
      created_at = timestamp % 2 ^ 64;
      expires_at = (timestamp + p.ttl) % 2 ^ 64;
      approvals = 0;
      executed = false;
      canceled = false;
    },
  )
