-- ===== src/ContractErrors/Laws.antt =====
-- What the message shown for a failed contract call says.
use text.Mathlib.Text.{◌==◌ as str_eq}
use text.Mathlib.TextEquality.{eq_iff}
use masjid_protocol.Prelude.{
  Bool, true, false, ◌≡◌, refl, List, [], ◌∷◌, ◌++◌, Option, some, String, inl, inr, arith, is_some,
  Bool-cases, Option-cases, all, any, not, ◌&&◌, ◌||◌,
}
use mathlib.Core.Bool.{and-eq-true_iff}
use masjid_protocol.Prelude.Text.{is_empty}
use masjid_protocol.Abi.{error_names}
use masjid_protocol.Abi.Protocol.{masjid_protocol_abi}
use masjid_protocol.Abi.Instance.{masjid_instance_abi}
use masjid_protocol.Abi.Registry.{verifier_registry_abi}
use masjid_protocol.ContractErrors.{
  Revert, base_error, message_of, revert_message, is_rejection, map_contract_error,
}

-- The errors that the ABIs of the protocol's three contracts declare.
abbrev pub declared_errors : List String
declared_errors =
    error_names masjid_protocol_abi
    ++ (error_names masjid_instance_abi ++ error_names verifier_registry_abi)

-- Not empty, and in the message table unless it is `NotAdmin`.
abbrev is_covered : String → Bool
is_covered name = not (is_empty name) && (str_eq name "NotAdmin" || is_some (message_of name))

covered_table : all is_covered declared_errors ≡ true
unfolding message_of
covered_table = refl

all-of-any :
    (p : String → Bool) (name : String) (ns : List String)
    → all p ns ≡ true
    → any (λ n. str_eq n name) ns ≡ true
    → p name ≡ true
all-of-any p name [] h m = cc
all-of-any p name (n ∷ ns) h m = elim (Bool-cases (str_eq n name)) [
  | inl same ↦ rw (← (eq_iff n name).0 same) ((and-eq-true_iff _ _).0 h).0
  | inr other ↦ all-of-any p name ns (ground arith) (rw other at m)
]

abbrev pub revert_named : String → Option String → Revert
revert_named name reason = record { error_name = some name; reason = reason }

-- A revert by an error that the protocol's ABIs declare, other than `NotAdmin`, is shown by the
-- text that the message table has for it, whatever viem's own messages are, unless the user
-- rejected the transaction.
declared_error_shown :
    (name message : String) (short reason : Option String)
    → any (λ n. str_eq n name) declared_errors ≡ true
    → str_eq name "NotAdmin" ≡ false
    → is_rejection message ≡ false
    → (text : String) × (message_of name ≡ some text)
      × (map_contract_error (base_error message short (some (revert_named name reason))) ≡ text)
unfolding map_contract_error revert_message
declared_error_shown name message short reason m h r =
    let covered : is_covered name ≡ true =
      all-of-any is_covered name declared_errors covered_table m in
    elim (Option-cases (message_of name)) [
      | inl missing ↦ absurd (ground arith)
      | inr (text, found) ↦ (text, found, ground arith)
    ]

-- The error `NotAdmin` of the protocol's ABI has no text of its own: a revert by it is shown with
-- the error's name.
not_admin_shown :
    (message : String) (short reason : Option String)
    → is_rejection message ≡ false
    → map_contract_error (base_error message short (some (revert_named "NotAdmin" reason)))
      ≡ "Kontrak menolak transaksi: NotAdmin"
unfolding map_contract_error revert_message message_of
not_admin_shown message short reason r = rw r
