-- ===== src/Tests/Contract.antt =====
-- A masjid's contract at work: two members who must both approve.
use masjid_protocol.MasjidInstance.Calls.Sound.Refused.{RefusesSettled}
use masjid_protocol.MasjidInstance.Calls.Sound.Settled.{settlements, transact_all-Sound}
use masjid_protocol.Prelude.{
  ◌++◌, ◌≤◌, ◌↔◌, some, none, ℕ, true, false, ◌≡◌, ◌≢◌, ◌<◌, refl, sym, subst, List, [], ◌∷◌,
  String, ok, arith,
}
use masjid_protocol.Tests.Ledger.{Holders, list_access, Transfers, willing_token}
use masjid_protocol.CashOut.Instance as Checks
use masjid_protocol.CashOut.Instance.{zero_address_text}
use masjid_protocol.Contracts.{unverified, verified}
use masjid_protocol.Contracts.Calls.{ProposeCashOutArgs}
use masjid_protocol.Register.Laws.{differs_iff}
use masjid_protocol.MasjidInstance.Deployed.{
  Deploys, AreNonzero, accounts, constructor'-accepted_iff,
}
use masjid_protocol.Register.{Values, validate, no_errors}
use masjid_protocol.Tests.{itself}
use masjid_protocol.MasjidInstance.{
  protocol_role, admin_role, board_role, Message, State, no_request, put, add_members, constructor',
  cash_in, propose_cash_out, approve_cash_out, set_board_member, set_status,
}
use masjid_protocol.MasjidInstance.Calls.{
  Transaction, calling, cashing_in, proposing, approving, executing, canceling, setting_status,
  perform, transact, transact_all,
}
use masjid_protocol.MasjidInstance.Calls.Guards.{made_of}
use masjid_protocol.MasjidInstance.Calls.Sound.{Sound}
use masjid_protocol.MasjidInstance.Calls.Final.{Grown, transact_all-Grown}
use masjid_protocol.MasjidInstance.Calls.Progress.{Payable, Paid, transact_all-Paid}
use masjid_protocol.MasjidInstance.Calls.Miscount.{set_board_member-miscounts}
use text.Mathlib.Text.{◌==◌ as str_eq}

abbrev deployed : State Holders Transfers
deployed = record {
  this = "0xm";
  masjid_name = "Al-Falah";
  metadata_uri = "ipfs://bafy";
  masjid_admin = "0xadmin";
  status = unverified;
  verified_at = 0;
  board_member_count = 2;
  cash_out_threshold = 2;
  cash_out_nonce = 0;
  cash_out_by_id = λ id. no_request;
  has_approved = [];
  roles =
      (board_role, "0xb")
      ∷ (board_role, "0xa")
      ∷ (admin_role, "0xadmin")
      ∷ (protocol_role, "0xp")
      ∷ [];
  token = [];
}

constructor-deployed :
    constructor' list_access willing_token "0xm" "0xp" "Al-Falah" "ipfs://bafy" "0xadmin" "0xidrx"
      ("0xa" ∷ "0xb" ∷ [])
      2
      []
    ≡ ok deployed
unfolding constructor' add_members
constructor-deployed = refl

abbrev message : String → ℕ → Message
message sender timestamp = record { sender = sender; timestamp = timestamp }

abbrev repair : ProposeCashOutArgs
repair = record {
  instance_address = "0xm";
  to = "0xshop";
  amount = 250;
  note_hash = "0x00";
  ttl = 86400;
}

abbrev opening : List (Transaction Holders Transfers)
opening =
    calling (message "0xp" 1000) (setting_status verified)
    ∷ calling (message "0xdonor" 1010) (cashing_in 900)
    ∷ calling (message "0xa" 1020) (proposing repair)
    ∷ calling (message "0xa" 1030) (approving 1)
    ∷ []

abbrev closing : List (Transaction Holders Transfers)
closing =
    calling (message "0xadmin" 1040) (executing 1)
    ∷ calling (message "0xb" 1050) (approving 1)
    ∷ calling (message "0xadmin" 1060) (executing 1)
    ∷ calling (message "0xadmin" 1070) (canceling 1)
    ∷ []

abbrev proposed : State Holders Transfers
proposed = record deployed {
  status = verified;
  verified_at = 1000;
  cash_out_nonce = 1;
  cash_out_by_id =
      put 1 (record (made_of (message "0xa" 1020) 0 repair) { approvals = 1 })
        (put 1 (made_of (message "0xa" 1020) 0 repair) (λ id. no_request));
  has_approved = (1, "0xa") ∷ [];
  token = ("0xdonor", "0xm", 900) ∷ [];
}

transact_all-proposed : transact_all list_access willing_token opening deployed ≡ proposed
unfolding transact_all transact perform set_status cash_in propose_cash_out approve_cash_out
    Checks.propose_cash_out
transact_all-proposed = refl

-- The request is proposed, approved and executed, and then called for three times more.
abbrev whole : List (Transaction Holders Transfers)
whole = opening ++ closing

transact_all-Sound_example :
    Sound (transact_all list_access willing_token whole deployed)
    × RefusesSettled list_access willing_token
        (transact_all list_access willing_token whole deployed)
    × ((id : ℕ) → settlements list_access willing_token id whole deployed ≤ 1)
transact_all-Sound_example =
    transact_all-Sound list_access willing_token "0xm" "0xp" "Al-Falah" "ipfs://bafy" "0xadmin"
      "0xidrx" ("0xa" ∷ "0xb" ∷ []) 2 [] constructor-deployed whole

transact_all-Grown_example :
    Grown ((transact_all list_access willing_token opening deployed).cash_out_by_id 1) (
      (transact_all list_access willing_token closing
          (transact_all list_access willing_token opening deployed)).cash_out_by_id
        1)
transact_all-Grown_example =
    transact_all-Grown list_access willing_token "0xm" "0xp" "Al-Falah" "ipfs://bafy" "0xadmin"
      "0xidrx" ("0xa" ∷ "0xb" ∷ []) 2 [] constructor-deployed opening closing 1
      (subst (λ s. (s.cash_out_by_id 1).created_at ≢ 0) (sym transact_all-proposed) (omega arith))

proposed-Payable : Payable list_access willing_token 1050 1 proposed (proposed.cash_out_by_id 1)
proposed-Payable = record {
  there = refl;
  is_open = refl;
  exists = omega arith;
  open_still = refl;
  unpaid = refl;
  in_time = omega arith;
  transferable = refl;
}

transact_all-Paid_example :
    Paid list_access willing_token 1050 1 proposed
      (transact_all list_access willing_token
        (calling (message "0xb" 1050) (approving 1)
          ∷ calling (message "0xadmin" 1050) (executing 1)
          ∷ [])
        proposed)
      (proposed.cash_out_by_id 1)
transact_all-Paid_example =
    transact_all-Paid list_access willing_token 1050 1 ("0xb" ∷ []) "0xadmin" proposed
      proposed-Payable refl (refl, tt) (refl, tt) (omega arith) (omega arith)

abbrev crowded : State Holders Transfers
crowded = record deployed { board_member_count = 3; roles = (board_role, "0xc") ∷ deployed.roles }

set_board_member-miscounts_example :
    (s' : State Holders Transfers) × (set_board_member list_access willing_token
        (message "0xadmin" 1000)
        crowded
        "0xd"
        false
      ≡ ok s')
    × (s'.roles ≡ crowded.roles)
    × (s'.board_member_count < 3)
set_board_member-miscounts_example =
    set_board_member-miscounts list_access willing_token (message "0xadmin" 1000) crowded "0xd" refl
      refl (omega arith) refl

abbrev board : Values
board = record {
  name = "Al-Falah";
  alamat = "Jalan Raya 1";
  board_members =
      record { address = "0x1"; member_name = some "Umar" }
      ∷ record { address = "0x0000000000000000000000000000000000000000"; member_name = none }
      ∷ [];
}

board_valid : no_errors (validate (λ text. true) itself board) ≡ true
unfolding validate
board_valid = refl

different_from_zero : (x : String) → str_eq x zero_address_text ≡ false → x ≢ zero_address_text
different_from_zero x h = (differs_iff zero_address_text x).0 h

constructor'-accepted_iff_example :
    Deploys list_access willing_token "0xm" "0xp" "Al-Falah" "ipfs://bafy" "0xadmin" "0xidrx"
      (accounts itself board.board_members)
      []
    ↔ AreNonzero (accounts itself board.board_members)
constructor'-accepted_iff_example =
    constructor'-accepted_iff list_access willing_token (λ text. true) itself board "0xm" "0xp"
      "ipfs://bafy" "0xadmin" "0xidrx" [] board_valid (different_from_zero "0xp" refl)
      (different_from_zero "0xadmin" refl) (different_from_zero "0xidrx" refl)
