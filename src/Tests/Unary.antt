-- ===== src/Tests/Unary.antt =====
-- Texts of any length, as numbers of masjids and as addresses.
use Prim.Native.Char.{code}
use masjid_protocol.Prelude.{
  ◌∙◌, ◌==◌, true, sym, false, Bool, ◌≢◌, ◌≡◌, ℕ, zero, suc, refl, ap, String,
}
use masjid_protocol.MasjidProtocol.{zero_hash}
use masjid_protocol.MasjidProtocol.Calls.{Hashes}
use masjid_protocol.System.Linked.{CreatedAddresses}
use masjid_protocol.CashOut.Instance.{zero_address_text}

abbrev pub unary : ℕ → String
unary zero = ""
unary (suc n) = String.◌∷◌ "x" (unary n)

pub unary-injective : (m n : ℕ) → unary m ≡ unary n → m ≡ n
unary-injective zero zero h = refl
unary-injective zero (suc n) h = cc
unary-injective (suc m) zero h = cc
unary-injective (suc m) (suc n) h = ap suc (unary-injective m n (cc))

false-ne-true : ◌≡◌ {A = Bool} false true → ⊥
false-ne-true h = cc

abbrev starts_with_zero : String → Bool
starts_with_zero String.[] = false
starts_with_zero (String.◌∷◌ c text) = code c == b'0'

unary-starts : (n : ℕ) → starts_with_zero (unary n) ≡ false
unary-starts zero = refl
unary-starts (suc n) = refl

-- Such a text is none that starts with a zero.
pub unary-nonzero : (n : ℕ) (text : String) → starts_with_zero text ≡ true → unary n ≢ text
unary-nonzero n text z h = absurd (false-ne-true (sym (unary-starts n) ∙ ap starts_with_zero h ∙ z))

abbrev pub hashes : Hashes
hashes = record {
  hash_name = λ name. name;
  hash_id = λ n account name_hash. unary n;
  hash_id-differs = λ m n a b h k e. unary-injective m n e;
  hash_id-nonzero = λ n a h. unary-nonzero n zero_hash refl;
}

pub addresses : CreatedAddresses unary
addresses = record {
  differs = unary-injective;
  nonzero = λ n. unary-nonzero n zero_address_text refl;
}
