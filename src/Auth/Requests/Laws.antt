-- ===== src/Auth/Requests/Laws.antt =====
-- What the requests of a session establish.
use masjid_protocol.Prelude.Text.{◌+++◌}
use masjid_protocol.Prelude.{
  ℕ, Bool, ◌≡◌, refl, List, [], ◌∷◌, ◌++◌, Option, none, some, String, Result, ok, thrown, true,
  false, inl, inr, arith, or_else, Option-cases, Bool-cases,
}
use masjid_protocol.Auth.{Claims, Request, Browser, session_of, decode_token, set_token}
use masjid_protocol.Auth.Requests.{
  Wire, Response, Server, M, ◌>>=◌, ◌>>◌, lift, or_throw, check, check_error, fetch, store_token,
  adopt, siwe_login, read_session, update_name, claim_board_role, bearer,
}

abbrev pub sent : Browser → List Request → Browser
sent b reqs = record b { requests = b.requests ++ reqs }

abbrev pub nonce_request : String → Request
nonce_request address = record {
  method = "GET";
  path = "/auth/nonce?address=" +++ address;
  authorization = none;
  body = [];
}

abbrev pub verify_request : String → Option String → String → Request
verify_request address message signature = record {
  method = "POST";
  path = "/auth/verify";
  authorization = none;
  body = ("address", some address) ∷ ("message", message) ∷ ("signature", some signature) ∷ [];
}

abbrev pub name_request : String → String → Request
name_request token name = record {
  method = "PUT";
  path = "/auth/me/name";
  authorization = some (bearer token);
  body = ("name", some name) ∷ [];
}

abbrev pub role_request : String → Request
role_request token = record {
  method = "POST";
  path = "/auth/me/role";
  authorization = some (bearer token);
  body = [];
}

-- The server accepted the request, and its answer's token is stored and decodes to `claims`.
pub record Adopted (server : Server) (parse : String → Option Claims) (now : ℕ) (req : Request)
    (claims : Claims) (before after : Browser) : Type 0 where
  pub response : Response
  pub wire : Wire
  pub answered : server req ≡ ok response
  pub accepted : response.is_ok ≡ true
  pub read : response.json ≡ ok wire
  pub decoded : decode_token parse (or_else wire.token "undefined") ≡ some claims
  pub stored : after ≡ set_token parse now (or_else wire.token "undefined") before

-- A step of a request that succeeds as a whole has succeeded: one lemma for each kind of step.
lift-eq-ok :
    {A B : Type 0} (r : Result String A) (f : A → M B) (b : Browser) {x : B} {after : Browser}
    → (lift r >>= f) b ≡ (ok x, after)
    → (a : A) × (r ≡ ok a) × (f a b ≡ (ok x, after))
lift-eq-ok (ok a) f b h = (a, refl, h)
lift-eq-ok (thrown e) f b h = cc

check-eq-ok :
    {B : Type 0} (is_ok : Bool) (message : String) (k : M B) (b : Browser) {x : B} {after : Browser}
    → (check is_ok message >> k) b ≡ (ok x, after)
    → (is_ok ≡ true) × (k b ≡ (ok x, after))
check-eq-ok true message k b h = (refl, h)
check-eq-ok false message k b h = cc

throws :
    {A B : Type 0} (r : Result String A) (e : A → String) (k : M B) (b : Browser) {x : B}
    {after : Browser}
    → ((lift r >>= λ a. lift (thrown (e a))) >> k) b ≡ (ok x, after)
    → ⊥
throws (ok a) e k b h = cc
throws (thrown t) e k b h = cc

check_error-eq-ok :
    {B : Type 0} (res : Response) (message : String) (k : M B) (b : Browser) {x : B}
    {after : Browser}
    → (check_error res message >> k) b ≡ (ok x, after)
    → (res.is_ok ≡ true) × (k b ≡ (ok x, after))
check_error-eq-ok res message k b h = elim (Bool-cases res.is_ok) [
  | inl yes' ↦ (yes', rw (yes', check_error) at h)
  | inr no' ↦
      absurd (throws res.json (λ err. or_else err.error message) k b (rw (no', check_error) at h))
]

module _ (server : Server) (parse : String → Option Claims) (now : ℕ) where
  fetch-eq-ok :
      {B : Type 0} (req : Request) (f : Response → M B) (b : Browser) {x : B} {after : Browser}
      → (fetch server req >>= f) b ≡ (ok x, after)
      → (res : Response) × (server req ≡ ok res) × (f res (sent b (req ∷ [])) ≡ (ok x, after))
  unfolding fetch
  fetch-eq-ok req f b h = lift-eq-ok (server req) f (sent b (req ∷ [])) h

  session-eq-ok :
      {B : Type 0} (f : String → M B) (b : Browser) {x : B} {after : Browser}
      → (read_session server parse now >>= f) b ≡ (ok x, after)
      → (token : String) × (session_of b.token ≡ some token) × (f token b ≡ (ok x, after))
  unfolding read_session
  session-eq-ok f b h = elim (Option-cases (session_of b.token)) [
    | inl missing ↦ absurd (ground arith)
    | inr (token, found) ↦ (token, found, rw (found, or_throw) at h)
  ]

  adopt-eq-ok :
      (wire : Wire) (b : Browser) {claims : Claims} {after : Browser}
      → adopt server parse now wire b ≡ (ok claims, after)
      → (decode_token parse (or_else wire.token "undefined") ≡ some claims)
        × (after ≡ set_token parse now (or_else wire.token "undefined") b)
  unfolding adopt store_token
  adopt-eq-ok wire b h = (ground arith, ground arith)

  adopt-Adopted :
      (req : Request) (res : Response) (b : Browser) {claims : Claims} {after : Browser}
      → server req ≡ ok res
      → res.is_ok ≡ true
      → (lift res.json >>= adopt server parse now) b ≡ (ok claims, after)
      → Adopted server parse now req claims b after
  adopt-Adopted req res b answered accepted h =
      let (wire, json, h1) = lift-eq-ok res.json (adopt server parse now) b h in
      let (decoded, stored) = adopt-eq-ok wire b h1 in
      record {
        response = res;
        wire = wire;
        answered = answered;
        accepted = accepted;
        read = json;
        decoded = decoded;
        stored = stored;
      }

  -- What a successful sign-in has done before its second request.
  pub record Challenged (address : String) (sign : Option String → Result String String)
      (signature : String) (nonce : Wire) : Type 0 where
    pub response : Response
    pub answered : server (nonce_request address) ≡ ok response
    pub accepted : response.is_ok ≡ true
    pub read : response.json ≡ ok nonce
    pub signed : sign nonce.message ≡ ok signature

  -- A sign-in that succeeds asked the server for a nonce, had its very message signed by the
  -- wallet, sent back that message with the signature, and stored the token of the answer, which
  -- decodes to the claims that it returns; the two requests are all that it sent before the token
  -- was stored.
  pub siwe_login-eq-ok :
      (address : String) (sign : Option String → Result String String) (b : Browser)
      {claims : Claims} {after : Browser}
      → siwe_login server parse now address sign b ≡ (ok claims, after)
      → (nonce : Wire) × (signature : String) × Challenged address sign signature nonce
        × Adopted server parse now
            (verify_request address nonce.message signature)
            claims
            (sent
              (sent b (nonce_request address ∷ []))
              (verify_request address nonce.message signature ∷ []))
            after
  unfolding siwe_login
  siwe_login-eq-ok address sign b h =
      let (res, fetched, h1) = fetch-eq-ok (nonce_request address) _ b h in
      let b1 = sent b (nonce_request address ∷ []) in
      let (accepted, h2) = check-eq-ok res.is_ok "Gagal mendapatkan nonce" _ b1 h1 in
      let (nonce, json, h3) = lift-eq-ok res.json _ b1 h2 in
      let (signature, signed, h4) = lift-eq-ok (sign nonce.message) _ b1 h3 in
      let req = verify_request address nonce.message signature in
      let (verified, fetched2, h5) = fetch-eq-ok req _ b1 h4 in
      let b2 = sent b1 (req ∷ []) in
      let (accepted2, h6) = check_error-eq-ok verified "Autentikasi gagal" _ b2 h5 in
      (
        nonce,
        signature,
        record {
          response = res;
          answered = fetched;
          accepted = accepted;
          read = json;
          signed = signed;
        },
        adopt-Adopted req verified b2 fetched2 accepted2 h6,
      )

  -- A change of the name that succeeds was sent once, with the session's token, was accepted, and
  -- stored the token of the answer, which decodes to the claims that it returns.
  update_name-eq-ok :
      (name : String) (b : Browser) {claims : Claims} {after : Browser}
      → update_name server parse now name b ≡ (ok claims, after)
      → (token : String) × (session_of b.token ≡ some token)
        × Adopted server parse now
            (name_request token name)
            claims
            (sent b (name_request token name ∷ []))
            after
  unfolding update_name
  update_name-eq-ok name b h =
      let (token, session, h1) = session-eq-ok _ b h in
      let req = name_request token name in
      let (res, fetched, h2) = fetch-eq-ok req _ b h1 in
      let b1 = sent b (req ∷ []) in
      let (accepted, h3) = check-eq-ok res.is_ok "Gagal menyimpan nama" _ b1 h2 in
      (token, session, adopt-Adopted req res b1 fetched accepted h3)

  -- A claim of the board's role that succeeds was sent once, with the session's token, was
  -- accepted, and stored the token of the answer, which decodes to the claims that it returns.
  claim_board_role-eq-ok :
      (b : Browser) {claims : Claims} {after : Browser}
      → claim_board_role server parse now b ≡ (ok claims, after)
      → (token : String) × (session_of b.token ≡ some token)
        × Adopted server parse now
            (role_request token)
            claims
            (sent b (role_request token ∷ []))
            after
  unfolding claim_board_role
  claim_board_role-eq-ok b h =
      let (token, session, h1) = session-eq-ok _ b h in
      let req = role_request token in
      let (res, fetched, h2) = fetch-eq-ok req _ b h1 in
      let b1 = sent b (req ∷ []) in
      let (accepted, h3) = check_error-eq-ok res "Gagal mengklaim role" _ b1 h2 in
      (token, session, adopt-Adopted req res b1 fetched accepted h3)
