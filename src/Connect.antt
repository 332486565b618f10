-- ===== src/Connect.antt =====
-- The sign-in page: front-end/src/app/connect/ui.tsx. The page is a state with a handler for each
-- event; the requests of `Auth.Requests` settle as events, with the claims or the message that
-- they end with. A promise's `then` or `catch` and its `finally` are one event. `existing` is what
-- `getClaims()` answers at that moment; `toLowerCase` and `trim` are parameters.
pub mod Laws
use text.Mathlib.Text.{◌==◌ as str_eq}
use masjid_protocol.Prelude.{
  ◌≡◌, ℕ, suc, ◌-◌, ◌+◌, Bool, true, false, not, ◌&&◌, ◌||◌, List, [], ◌∷◌, Option, none, some,
  String, ltb, is_some, or_else, if◌then◌else◌,
}
use masjid_protocol.Prelude.Text.{is_empty, size}
use masjid_protocol.Auth.{Claims}
use masjid_protocol.Access.{role_redirect}

pub data Step : Type 0 where
  connect signing name role redirecting : Step

-- `signing_ref` is `signingRef.current`; `login_flights` and `name_flights` are the sign-ins and the
-- name updates that have not settled; `redirects` are the targets of `router.replace`, the newest first.
pub record Page : Type 0 where
  pub step : Step
  pub error : Option String
  pub name_text : String
  pub name_error : Option String
  pub role_error : Option String
  pub claims : Option Claims
  pub claiming_board : Bool
  pub signing_ref : Bool
  pub login_flights : ℕ
  pub name_flights : ℕ
  pub redirects : List String

pub data Event : Type 0 where
  mounted : (existing : Option Claims) → Event
  account_effect : (address : Option String) → (existing : Option Claims) → Event
  login_succeeded name_updated board_claimed : Claims → Event
  login_failed name_failed claim_failed : (message : String) → Event
  name_changed : String → Event
  name_submitted select_guest select_board retry : Event

abbrev pub init : Page
init = record {
  step = connect;
  error = none;
  name_text = "";
  name_error = none;
  role_error = none;
  claims = none;
  claiming_board = false;
  signing_ref = false;
  login_flights = 0;
  name_flights = 0;
  redirects = [];
}

-- A message that is null or empty is falsy.
abbrev pub is_shown : Option String → Bool
is_shown none = false
is_shown (some message) = not (is_empty message)

abbrev pub is_connect : Step → Bool
is_connect connect = true
is_connect _ = false

abbrev pub is_role : Step → Bool
is_role role = true
is_role _ = false

abbrev pub is_name : Step → Bool
is_name name = true
is_name _ = false

-- `setStep("redirecting"); router.replace(roleRedirect(claims.role))`.
abbrev pub redirect : Claims → Page → Page
redirect c p = record p { step = redirecting; redirects = role_redirect c.role ∷ p.redirects }

-- The user goes on to choose a role if they have no name, and else to their page.
abbrev pub welcome : Claims → Page → Page
welcome c p = if is_empty c.name then record p { step = role } else redirect c p

module _ (to_lower trim : String → String) where
  abbrev same_address : String → Option Claims → Bool
  same_address address none = false
  same_address address (some c) = str_eq (to_lower c.address) (to_lower address)

  -- The session that is there already; its claims are kept only if it has no name.
  resume : Claims → Page → Page
  resume c p = if is_empty c.name then record p { claims = some c; step = role } else redirect c p

  abbrev resume_or_sign : Bool → Option Claims → Page → Page
  resume_or_sign true (some c) p = resume c p
  resume_or_sign _ _ p = record p {
    signing_ref = true;
    login_flights = suc p.login_flights;
    step = signing;
    error = none;
  }

  -- The effect that reacts to the wallet's account: it resumes a session of that address, or starts
  -- a sign-in.
  unfoldable pub on_account : Option String → Option Claims → Page → Page
  unfolding resume
  on_account none existing p = p
  on_account (some address) existing p =
      if not (is_connect p.step) || p.signing_ref || is_shown p.error
      then p
      else resume_or_sign (same_address address existing) existing p

  -- `handleNameSubmit`, up to its request.
  unfoldable pub on_name_submitted : Page → Page
  unfolding size
  on_name_submitted p =
      let trimmed = trim p.name_text in
      if is_empty trimmed
      then record p { name_error = some "Nama tidak boleh kosong" }
      else if ltb (size trimmed) 3
      then record p { name_error = some "Nama minimal 3 karakter" }
      else record p { name_error = none; name_flights = suc p.name_flights }

  unfoldable pub handle : Page → Event → Page
  unfolding on_account on_name_submitted
  handle p (mounted none) = p
  handle p (mounted (some c)) = record p { redirects = role_redirect c.role ∷ p.redirects }
  handle p (account_effect address existing) = on_account address existing p
  handle p (login_succeeded c) =
      welcome c
        (record p { claims = some c; signing_ref = false; login_flights = p.login_flights - 1 })
  handle p (login_failed message) = record p {
    error = some message;
    step = connect;
    signing_ref = false;
    login_flights = p.login_flights - 1;
  }
  handle p (name_changed text) = record p { name_text = text }
  handle p name_submitted = on_name_submitted p
  handle p (name_updated c) =
      redirect c (record p { claims = some c; name_flights = p.name_flights - 1 })
  handle p (name_failed message) = record p {
    name_error = some message;
    name_flights = p.name_flights - 1;
  }
  handle p select_guest = record p { step = name }
  handle p select_board = record p { role_error = none; claiming_board = true }
  handle p (board_claimed c) = record p { claims = some c; step = name; claiming_board = false }
  handle p (claim_failed message) = record p { role_error = some message; claiming_board = false }
  handle p retry = record p { error = none }

  -- The events that can happen: a request settles only while it is in flight, and a control is used
  -- only where it is shown and enabled.
  unfoldable pub can_happen : Page → Event → Bool
  can_happen p (mounted existing) = true
  can_happen p (account_effect address existing) = true
  can_happen p (login_succeeded c) = ltb 0 p.login_flights
  can_happen p (login_failed message) = ltb 0 p.login_flights
  can_happen p (name_changed text) = is_name p.step
  can_happen p name_submitted = is_name p.step
  can_happen p (name_updated c) = ltb 0 p.name_flights
  can_happen p (name_failed message) = ltb 0 p.name_flights
  can_happen p select_guest = is_role p.step && is_some p.claims && not p.claiming_board
  can_happen p select_board = is_role p.step && is_some p.claims && not p.claiming_board
  can_happen p (board_claimed c) = p.claiming_board
  can_happen p (claim_failed message) = p.claiming_board
  can_happen p retry = is_connect p.step && is_shown p.error

  pub data Reachable : Page → Type 0 where
    start : Reachable init
    next : (p : Page) (e : Event) → Reachable p → can_happen p e ≡ true → Reachable (handle p e)

-- What the page shows at each step; the greeting is of the name in the claims.
pub data Panel : Type 0 where
  connect_panel : (error : Option String) → Panel
  signing_panel : Panel
  name_panel : (text : String) → (error : Option String) → Panel
  role_panel : (greeting : String) → (error : Option String) → (disabled : Bool) → Panel
  redirecting_panel : Panel
  empty_panel : Panel

abbrev role_panel_of : Option Claims → Option String → Bool → Panel
role_panel_of none error disabled = empty_panel
role_panel_of (some c) error disabled = role_panel c.name error disabled

unfoldable pub panel_at : Step → Page → Panel
panel_at connect p = connect_panel p.error
panel_at signing p = signing_panel
panel_at name p = name_panel p.name_text p.name_error
panel_at role p = role_panel_of p.claims p.role_error p.claiming_board
panel_at redirecting p = redirecting_panel
