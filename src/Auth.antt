-- ===== src/Auth.antt =====
-- front-end/src/lib/auth.ts and front-end/src/hooks/useAuth.ts: the session token in the browser's
-- local storage, its claims, and the state that each mounted `useAuth` keeps of it. The model is of
-- the browser, where `window` exists. `JSON.parse(atob(…))` is a parameter, `parse`, which is `none`
-- where it throws or answers null; the clock, `Date.now()`, is the parameter `now`.
pub mod Settle
pub mod Laws
pub mod Requests
pub mod Session
use Prim.Native.Char.{Char}
use masjid_protocol.Prelude.Text.{split, replace_all, is_empty}
use masjid_protocol.Prelude.{
  ℕ, zero, suc, ◌+◌, ◌*◌, Bool, true, false, List, [], ◌∷◌, ◌++◌, map, Option, none, some, String,
  length, get_elem?, ltb, is_some, or_else, if◌then◌else◌,
}

pub record Claims : Type 0 where
  pub address : String
  pub name : String
  pub role : String
  pub exp : ℕ

-- The state of one `useAuth`.
pub record AuthState : Type 0 where
  pub claims : Option Claims
  pub ready : Bool

-- A request, as `fetch` receives it. A field of the body is `none` where it is undefined.
pub record Request : Type 0 where
  pub method : String
  pub path : String
  pub authorization : Option String
  pub body : List (String × Option String)

-- `token` is `localStorage["mp_jwt"]`; `hooks` are the mounted `useAuth`s, in the order in which
-- they listen to `mp_auth_change`; `requests` are those made, the oldest first.
pub record Browser : Type 0 where
  pub token : Option String
  pub hooks : List AuthState
  pub wallet_connected : Bool
  pub requests : List Request

-- `getToken()`, where it is truthy: an empty token is no session.
abbrev pub session_of : Option String → Option String
session_of none = none
session_of (some token) = if is_empty token then none else some token

-- `setClaims(c)` of the hook number `i`.
abbrev set_claims : ℕ → Option Claims → List AuthState → List AuthState
set_claims i c [] = []
set_claims zero c (h ∷ hs) = record h { claims = c } ∷ hs
set_claims (suc i) c (h ∷ hs) = h ∷ set_claims i c hs

abbrev pub without : ℕ → List AuthState → List AuthState
without i [] = []
without zero (h ∷ hs) = hs
without (suc i) (h ∷ hs) = h ∷ without i hs

module _ (parse : String → Option Claims) where
  unfoldable pub decode_token : String → Option Claims
  unfolding split replace_all
  decode_token token = elim (get_elem? (split "." token) 1) [
    | none ↦ none
    | some payload ↦ parse (replace_all "_" "/" (replace_all "-" "+" payload))
  ]

  abbrev valid_until : ℕ → Option Claims → Bool
  valid_until now none = false
  valid_until now (some claims) = ltb now (claims.exp * 1000)

  unfoldable pub is_token_valid : ℕ → String → Bool
  is_token_valid now token = valid_until now (decode_token token)

  -- `getClaims`, with the dispatch of the event that `clearToken` makes as an argument; `none`
  -- where that does not return.
  unfoldable pub get_claims_with :
      (Browser → Option Browser) → ℕ → Browser → Option (Option Claims × Browser)
  get_claims_with dispatch now b = elim (session_of b.token) [
    | none ↦ some (none, b)
    | some token ↦
        if is_token_valid now token
        then some (decode_token token, b)
        else elim (dispatch (record b { token = none })) [ none ↦ none | some b' ↦ some (none, b') ]
  ]

  -- The listeners number `i` to `i + k - 1`, one after the other: `setClaims(getClaims())`.
  unfoldable pub run_handlers : (Browser → Option Browser) → ℕ → ℕ → ℕ → Browser → Option Browser
  run_handlers dispatch now i zero b = some b
  run_handlers dispatch now i (suc k) b = elim (get_claims_with dispatch now b) [
    | none ↦ none
    | some (c, b') ↦
        run_handlers dispatch now (suc i) k (record b' { hooks = set_claims i c b'.hooks })
  ]

  -- `window.dispatchEvent(new Event("mp_auth_change"))`: the listeners run before it returns, and
  -- may dispatch the event again. The fuel is the depth of that nesting.
  unfoldable pub dispatch : ℕ → ℕ → Browser → Option Browser
  dispatch zero now b = none
  dispatch (suc fuel) now b = run_handlers (dispatch fuel now) now 0 (length b.hooks) b

  -- The event at the depth that is enough: see `Auth.Settle`.
  unfoldable pub notify : ℕ → Browser → Browser
  notify now b = or_else (dispatch 2 now b) b

  unfoldable pub set_token : ℕ → String → Browser → Browser
  unfolding notify
  set_token now token b = notify now (record b { token = some token })

  unfoldable pub clear_token : ℕ → Browser → Browser
  unfolding notify
  clear_token now b = notify now (record b { token = none })

  unfoldable pub get_claims : ℕ → Browser → Option Claims × Browser
  unfolding notify is_token_valid
  get_claims now b = or_else (get_claims_with (λ b'. some (notify now b')) now b) (none, b)

  -- The effect of a `useAuth` that is mounted.
  unfoldable pub mount : ℕ → Browser → Browser
  unfolding get_claims
  mount now b =
      let (c, b') = get_claims now b in
      record b' { hooks = b'.hooks ++ record { claims = c; ready = true } ∷ [] }

  -- The cleanup of the `useAuth` number `i`, which is unmounted: it no longer listens.
  unfoldable pub unmount : ℕ → Browser → Browser
  unmount i b = record b { hooks = without i b.hooks }

  unfoldable pub logout : ℕ → Browser → Browser
  unfolding clear_token
  logout now b = record (clear_token now b) { wallet_connected = false }

abbrev pub is_logged_in : AuthState → Bool
is_logged_in h = is_some h.claims
