-- ===== src/Propose.antt =====
-- Proposing a cash-out: `proposeSchema` and the submission of `ProposeCashOutForm` in
-- front-end/src/app/board/ui.tsx. viem's `isAddress` and `keccak256(toHex(…))`, `trim`, and the
-- reading of a text as a number (`z.coerce.number()`) are parameters. A number is an exact
-- decimal: the rounding of floating point is not modelled.
pub mod Laws
pub mod Page
use masjid_protocol.Prelude.{
  ℕ, zero, suc, ◌+◌, ◌*◌, ◌/◌, ◌%◌, ◌^◌, Bool, true, false, Option, none, some, String, Result, ok,
  thrown, leb, ltb, ◌==◌, if◌then◌else◌, ◌&&◌,
}
use masjid_protocol.Prelude.Int.{ℤ, pos, negsuc}
use masjid_protocol.Prelude.Rounding.{nearest}
use masjid_protocol.Contracts.Calls.{ProposeCashOutArgs}
use masjid_protocol.Register.{is_none}
use masjid_protocol.Wallet.{note_hash_of}

-- The number `mantissa / 10 ^ places`.
pub record Decimal : Type 0 where
  pub mantissa : ℤ
  pub places : ℕ

-- `.positive()`, `.int()` and `.min(1)`.
abbrev pub is_positive : Decimal → Bool
is_positive d = elim d.mantissa [ pos n ↦ ltb 0 n | negsuc n ↦ false ]

abbrev pub magnitude : Decimal → ℕ
magnitude d = elim d.mantissa [ pos n ↦ n | negsuc n ↦ suc n ]

abbrev pub is_int : Decimal → Bool
is_int d = magnitude d % 10 ^ d.places == 0

abbrev pub is_at_least_one : Decimal → Bool
is_at_least_one d = is_positive d && leb (10 ^ d.places) (magnitude d)

-- The texts of the form's fields.
pub record Values : Type 0 where
  pub to : String
  pub amount : String
  pub note : String
  pub expiry_days : String

-- The first message of each field.
pub record Errors : Type 0 where
  pub to : Option String
  pub amount : Option String
  pub expiry_days : Option String

abbrev pub amount_error : Option Decimal → Option String
amount_error none = some "Jumlah harus berupa angka."
amount_error (some d) = if is_positive d then none else some "Jumlah harus lebih dari 0."

abbrev pub days_error : Option Decimal → Option String
days_error none = some "Batas waktu harus berupa angka."
days_error (some d) =
    if is_int d
    then (if is_at_least_one d then none else some "Minimal 1 hari.")
    else some "Harus bilangan bulat."

-- `Math.round(x * 100)` for a number that is not negative.
abbrev pub to_cents : Decimal → ℕ
to_cents d = nearest (100 * magnitude d) (10 ^ d.places)

-- `x * 86400` for a natural number `x`.
abbrev pub to_seconds : Decimal → ℕ
to_seconds d = magnitude d / 10 ^ d.places * 86400

module _ (is_address : String → Bool) (to_number : String → Option Decimal)
    (trim keccak : String → String) where
  unfoldable pub validate : Values → Errors
  validate v = record {
    to = if is_address v.to then none else some "Alamat tujuan tidak valid.";
    amount = amount_error (to_number v.amount);
    expiry_days = days_error (to_number v.expiry_days);
  }

  -- What `onSubmit` gives to the mutation, for values that the schema parsed.
  abbrev pub args_of : String → Values → Decimal → Decimal → ProposeCashOutArgs
  args_of instance_address v amount expiry_days = record {
    instance_address = instance_address;
    to = v.to;
    amount = to_cents amount;
    note_hash = note_hash_of trim keccak v.note;
    ttl = to_seconds expiry_days;
  }

  abbrev is_valid : Errors → Bool
  is_valid e = is_none e.to && is_none e.amount && is_none e.expiry_days

  abbrev parsed :
      String → Values → Errors → Option Decimal → Option Decimal → Result Errors ProposeCashOutArgs
  parsed instance_address v e (some amount) (some expiry_days) =
      if is_valid e then ok (args_of instance_address v amount expiry_days) else thrown e
  parsed instance_address v e _ _ = thrown e

  -- `handleSubmit(onSubmit)`: the messages, or the arguments that are sent.
  unfoldable pub submit : String → Values → Result Errors ProposeCashOutArgs
  unfolding validate
  submit instance_address v =
      parsed instance_address v (validate v) (to_number v.amount) (to_number v.expiry_days)
