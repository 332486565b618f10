-- ===== src/Register/Laws.antt =====
-- What a registration that is sent guarantees.
use text.Mathlib.Text.{◌==◌ as str_eq}
use text.Mathlib.TextEquality.{eq_iff}
use masjid_protocol.Prelude.{
  ℕ, zero, suc, ◌≤◌, Bool, true, false, ◌≡◌, ◌≢◌, ◌↔◌, refl, List, [], ◌∷◌, map, ap, sym, ◌++◌,
  String, All, arith, any, all, length, Bool-cases, inl, inr,
}
use masjid_protocol.Prelude.Text.{size}
use masjid_protocol.Register.{
  Member, Values, set_of, addrs, all_distinct, validate, is_none, no_errors, default_members, check,
  append_member, remove_at, remove_member,
}

-- No text of the list stands in it twice.
abbrev pub Distinct : List String → Type 0
Distinct [] = Unit
Distinct (x ∷ xs) = All (λ y. y ≢ x) xs × Distinct xs

length-set_of-le : (xs : List String) → length (set_of xs) ≤ length xs
unfolding set_of
length-set_of-le [] = omega arith
length-set_of-le (x ∷ xs) = ground (arith, length-set_of-le xs)

pub differs_iff : (x y : String) → (str_eq y x ≡ false) ↔ (y ≢ x)
differs_iff x y = elim (Bool-cases (str_eq y x)) [
  | inl a ↦ ((λ b. ground (arith, a)), λ n. elim (n ((eq_iff y x).0 a)) [ ])
  | inr b ↦ ((λ h e. ground (arith, b, (eq_iff y x).1 e)), λ n. b)
]

not_any_iff :
    (x : String) (xs : List String) → (any (λ y. str_eq y x) xs ≡ false) ↔ All (λ y. y ≢ x) xs
not_any_iff x [] = ((λ h. tt), λ h. refl)
not_any_iff x (y ∷ ys) =
    let ih = not_any_iff x ys in
    let head = differs_iff x y in
    elim (Bool-cases (str_eq y x)) [
      | inl a ↦ ((λ h. ground (arith, a)), λ h. ground (arith, a, head.1 h.0))
      | inr b ↦ ((λ h. (head.0 b, ih.0 (ground (arith, b)))), λ h. ground (arith, b, ih.1 h.1))
    ]

any-set_of :
    (x : String) (xs : List String) → any (λ y. str_eq y x) (set_of xs) ≡ any (λ y. str_eq y x) xs
unfolding set_of
any-set_of x [] = refl
any-set_of x (y ∷ ys) = elim (Bool-cases (str_eq y x)) [
  | inl a ↦
      let there : any (λ z. str_eq z x) ys ≡ any (λ z. str_eq z y) ys =
        ap (λ u. any (λ z. str_eq z u) ys) (sym ((eq_iff y x).0 a)) in
      ground (arith, a, there, any-set_of x ys, any-set_of y ys)
  | inr b ↦ ground (arith, b, any-set_of x ys)
]

length-set_of_iff : (xs : List String) → (length (set_of xs) ≡ length xs) ↔ Distinct xs
unfolding set_of
length-set_of_iff [] = ((λ h. tt), λ h. refl)
length-set_of_iff (x ∷ xs) =
    let ih = length-set_of_iff xs in
    let head = not_any_iff x xs in
    elim (Bool-cases (any (λ y. str_eq y x) xs)) [
      | inl a ↦ (
        (λ h. ground (arith, a, any-set_of x xs, length-set_of-le xs)),
        λ h. ground (arith, a, head.1 h.0),
      )
      | inr b ↦ (
        (λ h. (head.0 b, ih.0 (ground (arith, b, any-set_of x xs)))),
        λ h. ground (arith, b, any-set_of x xs, ih.1 h.1),
      )
    ]

-- The edits of the list of fields.
pub data Edit : Type 0 where
  append : Edit
  remove : (busy : Bool) → ℕ → Edit

abbrev pub edited : List Member → List Edit → List Member
edited fields [] = fields
edited fields (append ∷ es) = edited (append_member fields) es
edited fields (remove busy i ∷ es) = edited (remove_member busy i fields) es

length-remove_at-le : (i : ℕ) (ms : List Member) → length ms ≤ suc (length (remove_at i ms))
unfolding remove_at
length-remove_at-le i [] = omega arith
length-remove_at-le zero (m ∷ ms) = omega arith
length-remove_at-le (suc i) (m ∷ ms) = ground (arith, length-remove_at-le i ms)

length-append-le : (ms ns : List Member) → 1 ≤ length ns → 1 ≤ length (ms ++ ns)
length-append-le [] ns h = h
length-append-le (m ∷ ms) ns h = omega arith

edited-nonempty : (es : List Edit) (ms : List Member) → 1 ≤ length ms → 1 ≤ length (edited ms es)
unfolding append_member remove_member
edited-nonempty [] ms h = h
edited-nonempty (append ∷ es) ms h = edited-nonempty es _ (length-append-le ms _ (omega arith))
edited-nonempty (remove busy i ∷ es) ms h =
    edited-nonempty es _ (ground (arith, h, length-remove_at-le i ms))

-- However the fields are edited from the three that the form starts with, one at least is left.
edited-default_members : (es : List Edit) → 1 ≤ length (edited default_members es)
edited-default_members es = edited-nonempty es default_members (omega arith)

module _ (is_address : String → Bool) (to_lower : String → String) where
  abbrev pub IsComplete : Values → Type 0
  IsComplete v =
      3 ≤ size v.name
      × 5 ≤ size v.alamat
      × 1 ≤ length v.board_members
      × All (λ (m : Member). is_address m.address ≡ true) v.board_members
      × Distinct (map (λ (m : Member). to_lower m.address) v.board_members)

  members_iff :
      (ms : List Member)
      → (all is_none
            (map (λ (m : Member). check (is_address m.address) "Alamat wallet tidak valid.") ms)
          ≡ true)
        ↔ All (λ (m : Member). is_address m.address ≡ true) ms
  members_iff [] = ((λ h. tt), λ h. refl)
  members_iff (m ∷ ms) =
      let ih = members_iff ms in
      elim (Bool-cases (is_address m.address)) [
        | inl a ↦ ((λ h. (a, ih.0 (ground (arith, a)))), λ h. ground (arith, a, ih.1 h.1))
        | inr b ↦ ((λ h. ground (arith, b)), λ h. ground (arith, b, h.0))
      ]

  -- The form has no error exactly when the name has three characters and the address five, there
  -- is a board member, every member's address is one, and no two are equal up to case.
  pub no_errors_iff :
      (v : Values) → (no_errors (validate is_address to_lower v) ≡ true) ↔ IsComplete v
  unfolding validate all_distinct
  no_errors_iff v =
      let ms = members_iff v.board_members in
      let ds = length-set_of_iff (addrs is_address to_lower v.board_members) in
      (
        (λ h. (
          ground (arith, h),
          ground (arith, h),
          ground (arith, h),
          ms.0 (ground (arith, h)),
          ds.0 (ground (arith, h)),
        )),
        λ h. let (n, l, m, k, d) = h in ground (arith, n, l, m, ms.1 k, ds.1 d),
      )
