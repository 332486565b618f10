-- ===== src/Propose/Laws.antt =====
-- What the form sends, and what the contract says to it.
use masjid_protocol.Prelude.{ℕ, suc, ◌+◌, ◌%◌, ◌^◌, ◌≡◌, Bool, true, false, Option, some, String}
use masjid_protocol.Contracts.{CashOutRequest}
use masjid_protocol.Contracts.Calls.{ProposeCashOutArgs}
use masjid_protocol.Propose.{Decimal, is_positive, is_int, is_at_least_one, Values, args_of}

-- The request that a proposal opens, with its number.
abbrev pub opened :
    (sender : String) → (nonce timestamp : ℕ) → ProposeCashOutArgs → ℕ × CashOutRequest
opened sender nonce timestamp p = (
  suc nonce,
  record {
    to = p.to;
    amount = p.amount;
    note_hash = p.note_hash;
    proposer = sender;
    created_at = timestamp % 2 ^ 64;
    expires_at = (timestamp + p.ttl) % 2 ^ 64;
    approvals = 0;
    executed = false;
    canceled = false;
  },
)

module _ (is_address : String → Bool) (to_number : String → Option Decimal)
    (trim keccak : String → String) where
  -- The form's values and what is sent for them.
  pub record Sent (instance_address : String) (v : Values) (p : ProposeCashOutArgs) : Type 0 where
    pub amount : Decimal
    pub days : Decimal
    pub amount_read : to_number v.amount ≡ some amount
    pub days_read : to_number v.expiry_days ≡ some days
    pub address_valid : is_address v.to ≡ true
    pub amount_positive : is_positive amount ≡ true
    pub days_whole : is_int days ≡ true
    pub days_at_least : is_at_least_one days ≡ true
    pub arguments : p ≡ args_of is_address to_number trim keccak instance_address v amount days
