-- ===== src/Access/Laws.antt =====
-- The guards, the redirects and the links agree.
use text.Mathlib.Text.{◌==◌ as str_eq}
use text.Mathlib.TextEquality.{eq_iff}
use masjid_protocol.Prelude.{
  ◌∙◌, Option-cases, ◌≡◌, refl, List, [], ◌∷◌, none, some, String, true, false, ◌↔◌, ◌⊎◌, inl, inr,
  arith, All, Bool-cases,
}
use masjid_protocol.Auth.{Claims, AuthState}
use masjid_protocol.Access.{
  includes_role, guard_redirect, guard_shows, page_guard, role_redirect, NavLink, get_nav_links,
}

shown_claims :
    (allowed : List String) (auth : AuthState)
    → guard_shows allowed auth ≡ true
    → (claims : Claims) × (auth.claims ≡ some claims) × (includes_role allowed claims.role ≡ true)
unfolding guard_shows
shown_claims allowed auth h = elim (Option-cases auth.claims) [
  | inl missing ↦ absurd (ground arith)
  | inr (claims, e) ↦ (claims, e, ground arith)
]

-- A guard shows its page exactly when the session is known and its role is among those that the
-- page names; once the session is known it sends the user away exactly when it shows nothing, to
-- the sign-in page if there is no session.
pub guard_lem :
    (allowed : List String) (auth : AuthState)
    → ((guard_shows allowed auth ≡ true) ↔ (
        (auth.ready ≡ true)
        × ((claims : Claims) × (auth.claims ≡ some claims)
            × (includes_role allowed claims.role ≡ true))))
      × ((guard_redirect allowed auth ≡ none)
          ↔ ((auth.ready ≡ false) ⊎ (guard_shows allowed auth ≡ true)))
      × ((guard_redirect allowed auth ≡ some "/connect")
          ↔ ((auth.ready ≡ true) × (auth.claims ≡ none)))
unfolding guard_shows guard_redirect
guard_lem allowed auth = (
  (λ h. (ground arith, shown_claims allowed auth h), λ h. ground arith),
  (λ h. ground arith, λ h. ground arith),
  (
    λ h. (ground (arith, eq_iff "/" "/connect"), ground (arith, eq_iff "/" "/connect")),
    λ h. ground arith,
  ),
)

-- The page is open to the role: it has no guard, or its guard lets a session of that role in and
-- sends it nowhere else.
abbrev pub IsOpen : String → Claims → Type 0
IsOpen path claims =
    (page_guard path ≡ none)
    ⊎ ((allowed : List String) × (page_guard path ≡ some allowed)
        × (guard_shows allowed (record { claims = some claims; ready = true }) ≡ true)
        × (guard_redirect allowed (record { claims = some claims; ready = true }) ≡ none))

data RoleCase (role : String) : Type 0 where
  is_admin : role ≡ "admin" → RoleCase role
  is_verifier : role ≡ "verifier" → RoleCase role
  is_board : role ≡ "board" → RoleCase role
  is_other :
      str_eq role "admin" ≡ false
      → str_eq role "verifier" ≡ false
      → str_eq role "board" ≡ false
      → RoleCase role

role_case : (role : String) → RoleCase role
role_case role = elim (Bool-cases (str_eq role "admin")) [
  | inl a ↦ is_admin ((eq_iff role "admin").0 a)
  | inr a ↦ elim (Bool-cases (str_eq role "verifier")) [
    | inl v ↦ is_verifier ((eq_iff role "verifier").0 v)
    | inr v ↦ elim (Bool-cases (str_eq role "board")) [
      | inl b ↦ is_board ((eq_iff role "board").0 b)
      | inr b ↦ is_other a v b
    ]
  ]
]

-- A page whose guard names the role alone.
only-IsOpen :
    (path role : String) (claims : Claims)
    → page_guard path ≡ some (role ∷ [])
    → claims.role ≡ role
    → IsOpen path claims
unfolding guard_shows guard_redirect
only-IsOpen path role claims e h =
    inr (
      role ∷ [],
      e,
      ground (arith, eq_iff role claims.role),
      ground (arith, eq_iff role claims.role),
    )

role-IsOpen :
    (role : String) (claims : Claims)
    → claims.role ≡ role
    → IsOpen (role_redirect role) claims
      × All (λ (l : NavLink). IsOpen l.href claims) (get_nav_links (some role))
unfolding page_guard role_redirect get_nav_links
role-IsOpen role claims h = elim (role_case role) [
  | is_admin e ↦
      let here : IsOpen "/admin" claims = only-IsOpen "/admin" "admin" claims refl (h ∙ e) in
      rw e (here, (here, tt))
  | is_verifier e ↦
      let here : IsOpen "/verifier" claims =
        only-IsOpen "/verifier" "verifier" claims refl (h ∙ e) in
      rw e (here, (here, tt))
  | is_board e ↦
      let here : IsOpen "/board" claims = only-IsOpen "/board" "board" claims refl (h ∙ e) in
      let board : IsOpen "/board/dashboard" claims =
        only-IsOpen "/board/dashboard" "board" claims refl (h ∙ e) in
      rw e (here, (here, (board, tt)))
  | is_other a v b ↦ rw (a, v, b) (inl refl, (inl refl, tt))
]

-- After a sign-in the user is sent to a page that is open to the session's role, whatever that is,
-- and every link of the header leads to such a page.
pub role_redirect-IsOpen :
    (claims : Claims)
    → IsOpen (role_redirect claims.role) claims
      × All (λ (l : NavLink). IsOpen l.href claims) (get_nav_links (some claims.role))
role_redirect-IsOpen claims = role-IsOpen claims.role claims refl
