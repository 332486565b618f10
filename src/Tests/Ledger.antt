-- ===== src/Tests/Ledger.antt =====
-- Roles in a list, and a token that keeps its transfers.
use masjid_protocol.Prelude.{
  ◌∙◌, ap, Bool-cases, ◌⊎◌, inl, inr, ℕ, Bool, true, false, ◌&&◌, ◌||◌, ◌≡◌, ◌≢◌, refl, sym, List,
  [], ◌∷◌, String, if◌then◌else◌, arith,
}
use text.Mathlib.TextEquality.{eq_iff}
use masjid_protocol.Register.Laws.{differs_iff}
use masjid_protocol.MasjidInstance.{
  Role, protocol_role, admin_role, board_role, AccessControl, Token,
}
use text.Mathlib.Text.{◌==◌ as str_eq}

abbrev same_role : Role → Role → Bool
same_role protocol_role protocol_role = true
same_role admin_role admin_role = true
same_role board_role board_role = true
same_role _ _ = false

abbrev pub Holders : Type 0
Holders = List (Role × String)

abbrev holds : Role → String → Holders → Bool
holds role account [] = false
holds role account ((r, a) ∷ holders) =
    (same_role r role && str_eq a account) || holds role account holders

abbrev without_holder : Role → String → Holders → Holders
without_holder role account [] = []
without_holder role account ((r, a) ∷ holders) =
    let rest = without_holder role account holders in
    if same_role r role && str_eq a account then rest else (r, a) ∷ rest

same_role_refl : (role : Role) → same_role role role ≡ true
same_role_refl protocol_role = refl
same_role_refl admin_role = refl
same_role_refl board_role = refl

same_role_other : (r role : Role) → role ≢ r → same_role r role ≡ false
same_role_other protocol_role protocol_role h = elim (h refl) [ ]
same_role_other admin_role admin_role h = elim (h refl) [ ]
same_role_other board_role board_role h = elim (h refl) [ ]
same_role_other protocol_role admin_role h = refl
same_role_other protocol_role board_role h = refl
same_role_other admin_role protocol_role h = refl
same_role_other admin_role board_role h = refl
same_role_other board_role protocol_role h = refl
same_role_other board_role admin_role h = refl

pub holds_other :
    (role r : Role) (account a : String) (holders : Holders)
    → (role ≢ r) ⊎ (account ≢ a)
    → holds role account ((r, a) ∷ holders) ≡ holds role account holders
holds_other role r account a holders h = elim h [
  | inl ne ↦ rw (same_role_other r role ne) refl
  | inr ne ↦ ground (arith, (differs_iff account a).1 (λ e. ne (sym e)))
]

same_role_iff : (r role : Role) → same_role r role ≡ true → r ≡ role
same_role_iff protocol_role protocol_role h = refl
same_role_iff admin_role admin_role h = refl
same_role_iff board_role board_role h = refl
same_role_iff protocol_role admin_role h = cc
same_role_iff protocol_role board_role h = cc
same_role_iff admin_role protocol_role h = cc
same_role_iff admin_role board_role h = cc
same_role_iff board_role protocol_role h = cc
same_role_iff board_role admin_role h = cc

-- A pair that is the revoked one is not the one asked for.
unlike :
    (role r : Role) (account a : String) (q : Role) (b : String)
    → (role ≢ r) ⊎ (account ≢ a)
    → (same_role q r && str_eq b a) ≡ true
    → (same_role q role && str_eq b account) ≡ false
unlike role r account a q b h gone = elim (Bool-cases (same_role q role && str_eq b account)) [
  | inr apart ↦ apart
  | inl same ↦
      let e1 = same_role_iff q r (ground arith) in
      let e2 = same_role_iff q role (ground arith) in
      let e3 = (eq_iff b a).0 (ground arith) in
      let e4 = (eq_iff b account).0 (ground arith) in
      absurd (elim h [ inl ne ↦ ne (sym e2 ∙ e1) | inr ne ↦ ne (sym e4 ∙ e3) ])
]

pub holds-without :
    (role r : Role) (account a : String) (holders : Holders)
    → (role ≢ r) ⊎ (account ≢ a)
    → holds role account (without_holder r a holders) ≡ holds role account holders
holds-without role r account a [] h = refl
holds-without role r account a ((q, b) ∷ holders) h =
    let ih = holds-without role r account a holders h in
    elim (Bool-cases (same_role q r && str_eq b a)) [
      | inl gone ↦ rw gone (
          ih ∙ sym (ap (λ x. x || holds role account holders) (unlike role r account a q b h gone)))
      | inr stays ↦ rw stays (ap (λ x. (same_role q role && str_eq b account) || x) ih)
    ]

pub without_missing :
    (role : Role) (account : String) (holders : Holders)
    → holds role account holders ≡ false
    → without_holder role account holders ≡ holders
without_missing role account [] h = refl
without_missing role account ((r, a) ∷ holders) h =
    let ih = without_missing role account holders in ground arith

pub holds_granted :
    (role : Role) (account : String) (holders : Holders)
    → holds role account ((role, account) ∷ holders) ≡ true
holds_granted role account holders = rw (same_role_refl role, (eq_iff account account).1 refl) refl

abbrev pub list_access : AccessControl Holders
list_access = record {
  no_roles = [];
  has_role = holds;
  grant_role = λ role account holders. (role, account) ∷ holders;
  revoke_role = without_holder;
  grant-has = holds_granted;
  none-has = λ role account. refl;
  grant-other = holds_other;
  revoke-other = holds-without;
  revoke-missing = without_missing;
}

-- The transfers that were made, the last one first.
abbrev pub Transfers : Type 0
Transfers = List (String × String × ℕ)

abbrev pub willing_token : Token Transfers
willing_token = record {
  transfer = λ sender to amount transfers. (true, (sender, to, amount) ∷ transfers);
  transfer_from = λ sender to amount transfers. (true, (sender, to, amount) ∷ transfers);
}
