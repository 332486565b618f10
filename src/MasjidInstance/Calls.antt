-- ===== src/MasjidInstance/Calls.antt =====
-- The functions of smart-contract/src/protocol/MasjidInstance.sol as calls, and any sequence of
-- transactions: a call that reverts leaves the state as it was, and between the calls the token may
-- change in any way, and so may the roles, by the functions that `AccessControl` itself offers.
pub mod Guards
pub mod Unchanged
pub mod Sound
pub mod Final
pub mod Progress
pub mod Miscount
pub mod Protected
pub mod ByProtocol
use masjid_protocol.Contracts.Calls.{ProposeCashOutArgs}
use masjid_protocol.Contracts.{InstanceVerificationStatus}
use masjid_protocol.CashOut.Instance.{Revert}
use masjid_protocol.Prelude.{ℕ, Bool, String, List, [], ◌∷◌, Result, ok, thrown}
use masjid_protocol.MasjidInstance.{
  AccessControl, Token, Message, State, cash_in, propose_cash_out, approve_cash_out,
  execute_cash_out, cancel_cash_out, set_board_member, set_cash_out_threshold, set_admin,
  set_status, set_metadata_uri,
}

pub data Call : Type 0 where
  cashing_in : ℕ → Call
  proposing : ProposeCashOutArgs → Call
  approving : ℕ → Call
  executing : ℕ → Call
  canceling : ℕ → Call
  setting_member : String → Bool → Call
  setting_threshold : ℕ → Call
  setting_admin : String → Call
  setting_status : InstanceVerificationStatus → Call
  setting_uri : String → Call

pub data Transaction (R T : Type 0) : Type 0 where
  calling : Message → Call → Transaction R T
  elsewhere : R → T → Transaction R T

module _ {R T : Type 0} (access : AccessControl R) (token : Token T) where
  unfoldable pub perform : Message → Call → State R T → Result Revert (State R T)
  perform msg (cashing_in amount) s = cash_in access token msg s amount
  perform msg (proposing p) s = propose_cash_out access token msg s p
  perform msg (approving id) s = approve_cash_out access token msg s id
  perform msg (executing id) s = execute_cash_out access token msg s id
  perform msg (canceling id) s = cancel_cash_out access token msg s id
  perform msg (setting_member member allowed) s = set_board_member access token msg s member allowed
  perform msg (setting_threshold threshold) s = set_cash_out_threshold access token msg s threshold
  perform msg (setting_admin admin) s = set_admin access token msg s admin
  perform msg (setting_status status) s = set_status access token msg s status
  perform msg (setting_uri uri) s = set_metadata_uri access token msg s uri

  abbrev pub settle : Result Revert (State R T) → State R T → State R T
  settle (ok s') s = s'
  settle (thrown e) s = s

  unfoldable pub transact : Transaction R T → State R T → State R T
  unfolding perform
  transact (calling msg call) s = settle (perform msg call s) s
  transact (elsewhere roles t) s = record s { roles = roles; token = t }

  unfoldable pub transact_all : List (Transaction R T) → State R T → State R T
  transact_all [] s = s
  transact_all (tx ∷ txs) s = transact_all txs (transact tx s)
