-- ===== src/Tests.antt =====
-- Concrete data, and the theorems at it: the cash-outs in `Cash`, what the pages send in
-- `Calls`, the session in `Session`, the donation form and the sign-in page in `Pages`,
-- the registration and the dashboard in `Forms`, the public pages in `Public`, the contract of a
-- masjid in `Contract` and a vote on it in `Votes`, the contracts together in `Protocol`,
-- `Contracts` and `Ties`, with the roles and the token of `Ledger`.
mod Cash
mod Calls
mod Contract
mod Ledger
mod Public
mod Session
mod Pages
mod Forms
mod Votes
mod Unary
mod Protocol
mod Contracts
mod Ties
use masjid_protocol.Prelude.{
  ℕ, Bool, true, false, List, [], ◌∷◌, Option, none, some, String, Result, ok, thrown,
}
use masjid_protocol.Abi.{Call}
use masjid_protocol.ContractErrors.{Failure, js_error}
use masjid_protocol.Contracts.{Addresses, CashOutRequest}
use masjid_protocol.Contracts.Calls.{ProposeCashOutArgs, RegisterMasjidArgs, ApproveArgs}
use masjid_protocol.Wallet.{Wallet}
use masjid_protocol.CashOut.{Progress, Row}
use masjid_protocol.Auth.{Claims}

abbrev pub addresses : Addresses
addresses = record {
  masjid_protocol_address = "0xa";
  verifier_registry_address = "0xb";
  idrx = "0xc";
}

-- A wallet that signs everything, and one at which every simulation fails.
abbrev pub willing : Wallet
willing = record {
  simulate = λ call. ok call;
  write = λ request. ok "0xhash";
  receipt = λ hash. ok "0xblock";
}

abbrev pub failing : Wallet
failing = record willing { simulate = λ call. thrown (js_error "offline") }

abbrev pub rest : Progress
rest = record { is_pending = false; is_confirming = false }

abbrev pub ready : CashOutRequest
ready = record {
  to = "0xd";
  amount = 5000;
  note_hash = "0x0";
  proposer = "0xe";
  created_at = 10;
  expires_at = 2000;
  approvals = 2;
  executed = false;
  canceled = false;
}

abbrev pub proposal : ProposeCashOutArgs
proposal = record {
  instance_address = "0xf";
  to = "0xd";
  amount = 5000;
  note_hash = "0x0";
  ttl = 86400;
}

abbrev pub registration : RegisterMasjidArgs
registration = record {
  name = "Al-Ikhlas";
  metadata_uri = "ipfs://q";
  stablecoin = "0xc";
  board_members = "0x1" ∷ "0x2" ∷ [];
}

abbrev pub approval : ApproveArgs
approval = record { stablecoin = "0xc"; spender = "0xf"; amount = 700 }

abbrev pub itself : String → String
itself text = text

abbrev pub member : Claims
member = record { address = "0x1"; name = "Umar"; role = "board"; exp = 5000 }

-- Every payload of a token has the claims of `member` here.
abbrev pub parse_member : String → Option Claims
parse_member text = some member
