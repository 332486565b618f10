-- ===== src/Prelude/Reverts.antt =====
-- Calls of a contract, which end with a new state or revert with an error of type `E`.
use masjid_protocol.Prelude.{◌∙◌}
use package.masjid_protocol.Prelude.Results.{Result, ok, thrown}
use package.masjid_protocol.Prelude.Tests.{if◌then◌else◌, Bool-cases}
use Prim.Native.String.{String}
use mathlib.Core.Path.{◌≡◌, refl}
use mathlib.Core.Logic.{◌≢◌, ◌⊎◌, inl, inr}
use mathlib.Core.Bool.{Bool, true, false, not}
use text.Mathlib.Text.{◌==◌ as str_eq}
use text.Mathlib.TextEquality.{eq_iff}

infixl 5 ◌>>◌
abbrev pub ◌>>◌ : {E A : Type 0} → Result E (Unit {0}) → Result E A → Result E A
ok u >> k = k
thrown e >> k = thrown e

-- `if (condition) revert e()`.
abbrev pub revert_if : {E : Type 0} → Bool → E → Result E (Unit {0})
revert_if true e = thrown e
revert_if false e = ok tt

pub passed :
    {E A : Type 0} (condition : Bool) (e : E) (k : Result E A) {x : A}
    → (revert_if condition e >> k) ≡ ok x
    → (condition ≡ false) × (k ≡ ok x)
passed true e k h = cc
passed false e k h = (refl, h)

pub returned : {E A : Type 0} {a x : A} → (h : ◌≡◌ {A = Result E A} (ok a) (ok x)) → a ≡ x
returned h = cc

pub really : (b : Bool) → not b ≡ false → b ≡ true
really true h = refl
really false h = cc

-- The mapping `f` with `a` under the key.
abbrev pub put : {A : Type 0} → String → A → (String → A) → String → A
put key a f k = if str_eq k key then a else f k

pub put-same : {A : Type 0} (key : String) (a : A) (f : String → A) → put key a f key ≡ a
put-same key a f = rw ((eq_iff key key).1 refl) refl

pub put-other :
    {A : Type 0} (key k : String) (a : A) (f : String → A) → k ≢ key → put key a f k ≡ f k
put-other key k a f ne = elim (Bool-cases (str_eq k key)) [
  | inl b ↦ absurd (ne ((eq_iff k key).0 b))
  | inr b ↦ rw b refl
]

-- What is under any key afterwards.
pub put-cases :
    {A : Type 0} (key k : String) (a : A) (f : String → A)
    → ((k ≡ key) × (put key a f k ≡ a)) ⊎ ((k ≢ key) × (put key a f k ≡ f k))
put-cases key k a f =
    elim (str_eq k key)
        as (λ b.
          str_eq k key ≡ b
          → ((k ≡ key) × ((if b then a else f k) ≡ a))
            ⊎ ((k ≢ key) × ((if b then a else f k) ≡ f k))) [
              | true ↦ λ h. inl ((eq_iff k key).0 h, refl)
              | false ↦ λ h. inr (λ e. cc ((eq_iff k key).1 e), refl)
            ]
      refl

pub put_twice-cases :
    {A : Type 0} (key k : String) (a b : A) (f : String → A)
    → ((k ≡ key) × (put key a (put key b f) k ≡ a))
      ⊎ ((k ≢ key) × (put key a (put key b f) k ≡ f k))
put_twice-cases key k a b f = elim (put-cases key k a (put key b f)) [
  | inl same ↦ inl same
  | inr (ne, at) ↦ elim (put-cases key k b f) [
    | inl (e, at') ↦ absurd (ne e)
    | inr (ne', at') ↦ inr (ne, at ∙ at')
  ]
]
