-- ===== src/Tests/Session.antt =====
-- The theorems on the session and on access at concrete data.
use masjid_protocol.Prelude.{
  ℕ, ◌≡◌, ◌↔◌, ◌⊎◌, refl, true, false, [], ◌∷◌, Option, none, some, String, Result, ok, All, List,
}
use masjid_protocol.Tests.{member, parse_member}
use masjid_protocol.Auth.{Claims, AuthState, Browser, decode_token, dispatch}
use masjid_protocol.Auth.Session.{Agrees}
use masjid_protocol.Auth.Requests.Session.{
  Op, setting, mounting, unmounting, reading, claiming, leaving, perform_all, perform_all-Agrees,
}
use masjid_protocol.Auth.Settle.{all_see, live, kept, dispatch-settles}
use masjid_protocol.Auth.Requests.{Wire, Server, siwe_login}
use masjid_protocol.Auth.Requests.Laws.{
  Adopted, Challenged, sent, nonce_request, verify_request, siwe_login-eq-ok,
}
use masjid_protocol.Access.{
  includes_role, guard_shows, guard_redirect, role_redirect, get_nav_links, NavLink,
}
use masjid_protocol.Access.Laws.{IsOpen, guard_lem, role_redirect-IsOpen}

abbrev hook : AuthState
hook = record { claims = some member; ready = true }

abbrev browser : Browser
browser = record {
  token = some "a.b";
  hooks = hook ∷ hook ∷ [];
  wallet_connected = true;
  requests = [];
}

-- At this time the claims of `member` have expired.
abbrev late : ℕ
late = 6000000

dispatch-settles_example :
    dispatch parse_member 2 late (record browser { hooks = hook ∷ hook ∷ [] })
    ≡ some (
        all_see (live parse_member late browser.token) (record browser {
          token = kept parse_member late browser.token;
          hooks = hook ∷ hook ∷ [];
        }))
dispatch-settles_example = dispatch-settles parse_member late browser hook (hook ∷ [])

-- A server that takes everything, and a wallet that signs everything.
abbrev accepting : Server
accepting request = ok (record {
  is_ok = true;
  json = ok (record { message = some "nonce"; token = some "a.b"; error = none });
})

abbrev sign : Option String → Result String String
sign message = ok "signature"

abbrev quiet : Browser
quiet = record browser { hooks = [] }

signed_in :
    siwe_login accepting parse_member 0 "0x1" sign quiet
    ≡ (ok member, (siwe_login accepting parse_member 0 "0x1" sign quiet).1)
unfolding siwe_login decode_token
signed_in = refl

siwe_login-eq-ok_example :
    (nonce : Wire) × (signature : String) × Challenged accepting parse_member 0 "0x1" sign signature
      nonce
    × Adopted accepting parse_member 0
        (verify_request "0x1" nonce.message signature)
        member
        (sent
          (sent quiet (nonce_request "0x1" ∷ []))
          (verify_request "0x1" nonce.message signature ∷ []))
        (siwe_login accepting parse_member 0 "0x1" sign quiet).1
siwe_login-eq-ok_example = siwe_login-eq-ok accepting parse_member 0 "0x1" sign quiet signed_in

guard_lem_example :
    ((guard_shows ("board" ∷ []) hook ≡ true) ↔ (
      (hook.ready ≡ true)
      × ((claims : Claims) × (hook.claims ≡ some claims)
          × (includes_role ("board" ∷ []) claims.role ≡ true))))
    × ((guard_redirect ("board" ∷ []) hook ≡ none)
        ↔ ((hook.ready ≡ false) ⊎ (guard_shows ("board" ∷ []) hook ≡ true)))
    × ((guard_redirect ("board" ∷ []) hook ≡ some "/connect")
        ↔ ((hook.ready ≡ true) × (hook.claims ≡ none)))
guard_lem_example = guard_lem ("board" ∷ []) hook

role_redirect-IsOpen_example :
    IsOpen (role_redirect member.role) member
    × All (λ (l : NavLink). IsOpen l.href member) (get_nav_links (some member.role))
role_redirect-IsOpen_example = role_redirect-IsOpen member

abbrev server : Server
server request = ok (record {
  is_ok = true;
  json = ok (record { message = none; token = some "c.d"; error = none });
})

-- The token has expired at the time of the second read.
abbrev ops : List Op
ops =
    mounting 10
    ∷ mounting 20
    ∷ claiming server 30
    ∷ reading 6000000
    ∷ unmounting 0
    ∷ setting 40 "e.f"
    ∷ leaving 50
    ∷ []

perform_all-Agrees_example : Agrees parse_member (
    perform_all parse_member ops
      (record { token = some "a.b"; hooks = []; wallet_connected = true; requests = [] }))
perform_all-Agrees_example = perform_all-Agrees parse_member ops (some "a.b") true []
