-- ===== src/Access.antt =====
-- Who may see which page: front-end/src/components/AuthGuard.tsx, the guards of the pages,
-- `roleRedirect` of front-end/src/lib/auth.ts, and front-end/src/components/Layout.tsx.
pub mod Laws
use text.Mathlib.Text.{◌==◌ as str_eq}
use masjid_protocol.Prelude.Text.{◌+++◌, is_empty, slice_to}
use masjid_protocol.Prelude.{
  ℕ, Bool, true, false, not, List, [], ◌∷◌, map, Option, none, some, String, any, if◌then◌else◌,
}
use masjid_protocol.Auth.{Claims, AuthState, Browser, logout}

abbrev pub includes_role : List String → String → Bool
includes_role allowed role = any (λ r. str_eq r role) allowed

-- The effect of `AuthGuard`: the page that `router.replace` goes to, if any. The prop `role` is a
-- list here; a single role is a list of one.
unfoldable pub guard_redirect : List String → AuthState → Option String
guard_redirect allowed auth = if not auth.ready then none else elim auth.claims [
  | none ↦ some "/connect"
  | some claims ↦ if includes_role allowed claims.role then none else some "/"
]

-- Whether `AuthGuard` renders its children.
unfoldable pub guard_shows : List String → AuthState → Bool
guard_shows allowed auth =
    if not auth.ready
    then false
    else elim auth.claims [ none ↦ false | some claims ↦ includes_role allowed claims.role ]

-- The roles that the guard of a page names; `none` for a page with no guard.
unfoldable pub page_guard : String → Option (List String)
page_guard path =
    if str_eq path "/admin"
    then some ("admin" ∷ [])
    else if str_eq path "/verifier"
    then some ("verifier" ∷ [])
    else if str_eq path "/board"
    then some ("board" ∷ [])
    else if str_eq path "/board/dashboard"
    then some ("board" ∷ [])
    else if str_eq path "/board/register"
    then some ("board" ∷ "guest" ∷ [])
    else none

unfoldable pub role_redirect : String → String
role_redirect role =
    if str_eq role "admin"
    then "/admin"
    else if str_eq role "verifier"
    then "/verifier"
    else if str_eq role "board"
    then "/board"
    else "/"

pub record NavLink : Type 0 where
  pub href : String
  pub label : String

unfoldable pub get_nav_links : Option String → List NavLink
get_nav_links none = record { href = "/"; label = "Eksplorasi" } ∷ []
get_nav_links (some role) =
    if str_eq role "board"
    then record { href = "/board"; label = "Daftar Masjid" }
      ∷ record { href = "/board/dashboard"; label = "Dashboard" }
      ∷ []
    else if str_eq role "verifier"
    then record { href = "/verifier"; label = "Dashboard Verifikasi" } ∷ []
    else if str_eq role "admin"
    then record { href = "/admin"; label = "Admin Panel" } ∷ []
    else record { href = "/"; label = "Eksplorasi" } ∷ []

-- What the header shows of the session: nothing before it is known, a link to sign in, or the
-- user's name (or the start of the address), role and a button to sign out.
pub data Account : Type 0 where
  unknown : Account
  connect_link : Account
  signed_in : (shown_name role : String) → Account

-- A link as it is drawn: whether it is the current page's.
pub record NavItem : Type 0 where
  pub link : NavLink
  pub active : Bool

-- The header: the links, the account, and, if the menu is open, the same once more.
pub record Header : Type 0 where
  pub links : List NavItem
  pub account : Account
  pub menu : Option (List NavItem × Account)

abbrev account_of : AuthState → Account
account_of auth = if not auth.ready then unknown else elim auth.claims [
  | none ↦ connect_link
  | some claims ↦
      signed_in (if is_empty claims.name then slice_to 8 claims.address +++ "…" else claims.name)
        claims.role
]

abbrev role_of : Option Claims → Option String
role_of none = none
role_of (some claims) = some claims.role

abbrev nav_items : String → AuthState → List NavItem
nav_items pathname auth =
    map (λ (l : NavLink). record { link = l; active = str_eq pathname l.href })
      (get_nav_links (role_of auth.claims))

unfoldable pub layout : String → AuthState → Bool → Header
unfolding get_nav_links slice_to
layout pathname auth mobile_open = record {
  links = nav_items pathname auth;
  account = account_of auth;
  menu = if mobile_open then some (nav_items pathname auth, account_of auth) else none;
}

-- `handleLogout`: the session ends, and the router goes home.
unfoldable pub handle_logout : (String → Option Claims) → ℕ → Browser → Browser × String
unfolding logout
handle_logout parse now b = (logout parse now b, "/")
