-- ===== src/VerifierRegistry/Accounts.antt =====
-- Lists with no account twice, as sets of accounts, and a mapping of accounts to Booleans.
-- Membership in a list, and a list with no account twice.
use masjid_protocol.Prelude.{
  ◌≤◌, Bool-cases, ◌++◌, ap, ◌-◌, if◌then◌else◌, ◌≢◌, ◌≡◌, ◌∷◌, ◌∙◌, ◌||◌, ◌==◌, true, sym, suc,
  subst, refl, length, inr, inl, false, arith, [], String, List, Bool,
}
use masjid_protocol.Prelude.Reverts.{put-cases, put}
use text.Mathlib.TextEquality.{eq_iff}
use text.Mathlib.Text.{◌==◌ as str_eq}

abbrev pub holds : String → List String → Bool
holds account [] = false
holds account (a ∷ as') = str_eq a account || holds account as'

abbrev pub AreDistinct : List String → Type 0
AreDistinct [] = Unit {0}
AreDistinct (a ∷ as') = (holds a as' ≡ false) × AreDistinct as'

abbrev pub without : String → List String → List String
without account [] = []
without account (a ∷ as') =
    let rest = without account as' in if str_eq a account then rest else a ∷ rest

pub holds-without_self :
    (account : String) (as' : List String) → holds account (without account as') ≡ false
holds-without_self account [] = refl
holds-without_self account (a ∷ as') = ground (arith, holds-without_self account as')

pub holds-without_other :
    (account b : String) (as' : List String)
    → b ≢ account
    → holds b (without account as') ≡ holds b as'
holds-without_other account b [] ne = refl
holds-without_other account b (a ∷ as') ne =
    ground (arith, holds-without_other account b as', eq_iff a account, eq_iff a b)

pub without_missing :
    (account : String) (as' : List String) → holds account as' ≡ false → without account as' ≡ as'
without_missing account [] h = refl
without_missing account (a ∷ as') h = ground (arith, without_missing account as')

pub without-AreDistinct :
    (account : String) (as' : List String) → AreDistinct as' → AreDistinct (without account as')
without-AreDistinct account [] d = tt
without-AreDistinct account (a ∷ as') d =
    ground
      (arith, without-AreDistinct account as', holds-without_other account a as', eq_iff a account)

pub length-without :
    (account : String) (as' : List String)
    → AreDistinct as'
    → holds account as' ≡ true
    → suc (length (without account as')) ≡ length as'
length-without account [] d h = cc
length-without account (a ∷ as') d h =
    ground (arith, length-without account as', without_missing account as', eq_iff a account)

pub put-holds :
    (verifier account : String) (is_verifier : String → Bool) (as' : List String)
    → is_verifier account ≡ holds account as'
    → put verifier true is_verifier account ≡ holds account (verifier ∷ as')
put-holds verifier account is_verifier as' h =
    ground (arith, eq_iff verifier account, eq_iff account verifier)

pub put-without :
    (verifier account : String) (is_verifier : String → Bool) (as' : List String)
    → is_verifier account ≡ holds account as'
    → put verifier false is_verifier account ≡ holds account (without verifier as')
put-without verifier account is_verifier as' h =
    elim (put-cases verifier account false is_verifier) [
      | inl (e, at) ↦
          at
          ∙ sym (
              subst (λ x. holds x (without verifier as') ≡ false) (sym e)
                (holds-without_self verifier as'))
      | inr (ne, at) ↦ at ∙ h ∙ sym (holds-without_other verifier account as' ne)
    ]

pub not_empty :
    (account : String) (as' : List String) → holds account as' ≡ true → (length as' == 0) ≡ false
not_empty account [] h = cc
not_empty account (a ∷ as') h = ground arith

pub one_less :
    (account : String) (as' : List String)
    → AreDistinct as'
    → holds account as' ≡ true
    → length as' - 1 ≡ length (without account as')
one_less account as' d h = omega (arith, length-without account as' d h)

pub holds-append :
    (account : String) (as' bs : List String)
    → holds account (as' ++ bs) ≡ (holds account as' || holds account bs)
holds-append account [] bs = refl
holds-append account (a ∷ as') bs = ground (arith, holds-append account as' bs)

pub append-AreDistinct :
    (as' : List String) (b : String)
    → AreDistinct as'
    → holds b as' ≡ false
    → AreDistinct (as' ++ b ∷ [])
append-AreDistinct [] b d h = (refl, tt)
append-AreDistinct (a ∷ as') b d h =
    ground
      (arith, append-AreDistinct as' b d.1, holds-append a as' (b ∷ []), eq_iff a b, eq_iff b a)

pub length-append : (as' : List String) (b : String) → length (as' ++ b ∷ []) ≡ suc (length as')
length-append [] b = refl
length-append (a ∷ as') b = ap suc (length-append as' b)

differ : {b : Bool} → b ≡ false → b ≡ true → ⊥
differ f t = cc

-- A set of accounts that is within another of no greater size is all of it.
pub holds_all :
    (as' bs : List String)
    → AreDistinct as'
    → AreDistinct bs
    → ((a : String) → holds a as' ≡ true → holds a bs ≡ true)
    → length bs ≤ length as'
    → (a : String) → holds a bs ≡ true
    → holds a as' ≡ true
holds_all [] [] d e within le a h = h
holds_all [] (b ∷ bs) d e within le a h = absurd (omega arith)
holds_all (x ∷ as') bs d e within le a h = elim (Bool-cases (str_eq x a)) [
  | inl same ↦ rw same refl
  | inr other ↦
      let ne = λ (q : a ≡ x). absurd (differ other ((eq_iff x a).1 (sym q))) in
      let shorter = length-without x bs e (within x (rw ((eq_iff x x).1 refl) refl)) in
      rw other (
        holds_all as' (without x bs) d.1 (without-AreDistinct x bs e)
          (λ b k.
            let apart = λ (q : b ≡ x). absurd (differ d.0 (subst (λ y. holds y as' ≡ true) q k)) in
            holds-without_other x b bs apart ∙ within b (ground (arith, k)))
          (omega arith) a (holds-without_other x a bs ne ∙ h))
]
