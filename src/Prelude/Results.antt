-- ===== src/Prelude/Results.antt =====
-- The two ways in which a call ends.

-- A value, or a thrown value of type `E`.
pub data Result {ℓ} (E : Type ℓ) (A : Type ℓ) : Type ℓ where
  ok : A → Result E A
  thrown : E → Result E A

infixl 5 ◌>>=◌
abbrev pub ◌>>=◌ {ℓ} : {E A B : Type ℓ} → Result E A → (A → Result E B) → Result E B
ok a >>= f = f a
thrown e >>= f = thrown e

abbrev pub or_default {ℓ} : {E A : Type ℓ} → A → Result E A → A
or_default d (ok a) = a
or_default d (thrown e) = d
