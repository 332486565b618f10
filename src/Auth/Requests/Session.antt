-- ===== src/Auth/Requests/Session.antt =====
-- The session over time: any sequence of the operations of front-end/src/lib/auth.ts and
-- front-end/src/hooks/useAuth.ts, each at its own time and with its own server, by the components of
-- one browser tab.
use masjid_protocol.Prelude.{
  ℕ, Bool, true, false, inl, inr, List, [], ◌∷◌, ◌++◌, Option, none, some, String, Result, ok,
  thrown, or_else, Bool-cases,
}
use masjid_protocol.Auth.Requests.{
  Server, Response, M, ◌>>=◌, ◌>>◌, lift, or_throw, check, check_error, fetch, store_token, adopt,
  read_session, siwe_login, update_name, claim_board_role, api_fetch,
}
use masjid_protocol.Auth.{
  Claims, Browser, Request, session_of, decode_token, set_token, clear_token, get_claims, mount,
  unmount, logout,
}
use masjid_protocol.Auth.Session.{
  Agrees, set_token-Agrees, clear_token-Agrees, get_claims-Agrees, mount-Agrees, unmount-Agrees,
}

-- What the components of the tab do to the session.
pub data Op : Type 0 where
  setting : ℕ → String → Op
  clearing : ℕ → Op
  reading : ℕ → Op
  mounting : ℕ → Op
  unmounting : ℕ → Op
  leaving : ℕ → Op
  fetching : Server → String → String → List (String × Option String) → Op
  signing_in : Server → ℕ → String → (Option String → Result String String) → Op
  naming : Server → ℕ → String → Op
  claiming : Server → ℕ → Op

module _ (parse : String → Option Claims) where
  -- What follows leaves the hooks in agreement with the storage.
  abbrev Keeps : {A B : Type 0} → (A → M B) → Type 0
  Keeps {A = A} f = (a : A) (b : Browser) → Agrees parse b → Agrees parse (f a b).1

  lift-Keeps :
      {A B : Type 0} (r : Result String A) (f : A → M B) (b : Browser)
      → Agrees parse b
      → Keeps f
      → Agrees parse ((lift r >>= f) b).1
  lift-Keeps (ok x) f b a k = k x b a
  lift-Keeps (thrown e) f b a k = a

  check-Keeps :
      {B : Type 0} (is_ok : Bool) (message : String) (k : M B) (b : Browser)
      → Agrees parse b
      → ((b' : Browser) → Agrees parse b' → Agrees parse (k b').1)
      → Agrees parse ((check is_ok message >> k) b).1
  check-Keeps true message k b a h = h b a
  check-Keeps false message k b a h = a

  throws-Keeps :
      {A B : Type 0} (r : Result String A) (e : A → String) (k : M B) (b : Browser)
      → Agrees parse b
      → Agrees parse (((lift r >>= λ a. lift (thrown (e a))) >> k) b).1
  throws-Keeps (ok x) e k b a = a
  throws-Keeps (thrown t) e k b a = a

  check_error-Keeps :
      {B : Type 0} (res : Response) (message : String) (k : M B) (b : Browser)
      → Agrees parse b
      → ((b' : Browser) → Agrees parse b' → Agrees parse (k b').1)
      → Agrees parse ((check_error res message >> k) b).1
  check_error-Keeps res message k b a h = elim (Bool-cases res.is_ok) [
    | inl yes' ↦ rw (yes', check_error) (h b a)
    | inr no' ↦
        rw (no', check_error) (throws-Keeps res.json (λ err. or_else err.error message) k b a)
  ]

  or_throw-Agrees :
      {A B : Type 0} (o : Option A) (message : String) (f : A → M B) (b : Browser)
      → Agrees parse b
      → Keeps f
      → Agrees parse ((or_throw o message >>= f) b).1
  or_throw-Agrees none message f b a k = a
  or_throw-Agrees (some x) message f b a k = k x b a

  or_throw-Kept :
      {A : Type 0} (o : Option A) (message : String) (b : Browser)
      → Agrees parse b
      → Agrees parse (or_throw o message b).1
  or_throw-Kept none message b a = a
  or_throw-Kept (some x) message b a = a

  module _ (server : Server) where
    fetch-Keeps :
        {B : Type 0} (req : Request) (f : Response → M B) (b : Browser)
        → Agrees parse b
        → Keeps f
        → Agrees parse ((fetch server req >>= f) b).1
    unfolding fetch Agrees
    fetch-Keeps req f b a k =
        lift-Keeps (server req) f (record b { requests = b.requests ++ req ∷ [] }) a k

    module _ (now : ℕ) where
      adopt-Keeps : Keeps (adopt server parse now)
      unfolding adopt store_token
      adopt-Keeps wire b a =
          let token = or_else wire.token "undefined" in
          or_throw-Kept (decode_token parse token) "Token tidak valid" (set_token parse now token b)
            (set_token-Agrees parse now token b a)

      session-Keeps :
          {B : Type 0} (f : String → M B) (b : Browser)
          → Agrees parse b
          → Keeps f
          → Agrees parse ((read_session server parse now >>= f) b).1
      unfolding read_session
      session-Keeps f b a k = or_throw-Agrees (session_of b.token) "Sesi tidak ditemukan" f b a k

      siwe_login-Agrees :
          (address : String) (sign : Option String → Result String String) (b : Browser)
          → Agrees parse b
          → Agrees parse (siwe_login server parse now address sign b).1
      unfolding siwe_login
      siwe_login-Agrees address sign b a = fetch-Keeps _ _ b a (λ nonce_res b1 a1.
          check-Keeps nonce_res.is_ok _ _ b1 a1 (λ b2 a2.
            lift-Keeps nonce_res.json _ b2 a2 (λ nonce b3 a3.
              lift-Keeps (sign nonce.message) _ b3 a3 (λ signature b4 a4.
                fetch-Keeps _ _ b4 a4 (λ res b5 a5.
                  check_error-Keeps res _ _ b5 a5
                    (λ b6 a6. lift-Keeps res.json _ b6 a6 adopt-Keeps))))))

      update_name-Agrees :
          (name : String) (b : Browser)
          → Agrees parse b
          → Agrees parse (update_name server parse now name b).1
      unfolding update_name
      update_name-Agrees name b a = session-Keeps _ b a (λ token b1 a1.
          fetch-Keeps _ _ b1 a1 (λ res b2 a2.
            check-Keeps res.is_ok _ _ b2 a2 (λ b3 a3. lift-Keeps res.json _ b3 a3 adopt-Keeps)))

      claim_board_role-Agrees :
          (b : Browser) → Agrees parse b → Agrees parse (claim_board_role server parse now b).1
      unfolding claim_board_role
      claim_board_role-Agrees b a = session-Keeps _ b a (λ token b1 a1.
          fetch-Keeps _ _ b1 a1 (λ res b2 a2.
            check_error-Keeps res _ _ b2 a2 (λ b3 a3. lift-Keeps res.json _ b3 a3 adopt-Keeps)))

    api_fetch-Agrees :
        (method path : String) (body : List (String × Option String)) (b : Browser)
        → Agrees parse b
        → Agrees parse (api_fetch server method path body b).1
    unfolding api_fetch fetch Agrees
    api_fetch-Agrees method path body b a = a

  unfoldable pub perform : Op → Browser → Browser
  perform (setting now token) b = set_token parse now token b
  perform (clearing now) b = clear_token parse now b
  perform (reading now) b = (get_claims parse now b).1
  perform (mounting now) b = mount parse now b
  perform (unmounting i) b = unmount parse i b
  perform (leaving now) b = logout parse now b
  perform (fetching server method path body) b = (api_fetch server method path body b).1
  perform (signing_in server now address sign) b = (siwe_login server parse now address sign b).1
  perform (naming server now name) b = (update_name server parse now name b).1
  perform (claiming server now) b = (claim_board_role server parse now b).1

  unfoldable pub perform_all : List Op → Browser → Browser
  perform_all [] b = b
  perform_all (op ∷ ops) b = perform_all ops (perform op b)

  perform-Agrees : (op : Op) (b : Browser) → Agrees parse b → Agrees parse (perform op b)
  unfolding perform logout Agrees
  perform-Agrees (setting now token) b a = set_token-Agrees parse now token b a
  perform-Agrees (clearing now) b a = clear_token-Agrees parse now b a
  perform-Agrees (reading now) b a = get_claims-Agrees parse now b a
  perform-Agrees (mounting now) b a = mount-Agrees parse now b a
  perform-Agrees (unmounting i) b a = unmount-Agrees parse i b a
  perform-Agrees (leaving now) b a = clear_token-Agrees parse now b a
  perform-Agrees (fetching server method path body) b a =
      api_fetch-Agrees server method path body b a
  perform-Agrees (signing_in server now address sign) b a =
      siwe_login-Agrees server now address sign b a
  perform-Agrees (naming server now name) b a = update_name-Agrees server now name b a
  perform-Agrees (claiming server now) b a = claim_board_role-Agrees server now b a

  performed_from : (ops : List Op) (b : Browser) → Agrees parse b → Agrees parse (perform_all ops b)
  unfolding perform_all
  performed_from [] b a = a
  performed_from (op ∷ ops) b a = performed_from ops (perform op b) (perform-Agrees op b a)

  -- Start a tab with any token in the storage and no hook mounted, and perform any sequence of
  -- writes, reads and removals of the token, mounts and unmounts, logouts, authenticated requests,
  -- sign-ins, changes of the name and claims of the role, each at any time and with any server,
  -- whether they throw or not: every hook that is then mounted is ready, and its claims are those
  -- which the token in the storage decodes to (none where there is no token), so that no component
  -- shows a user that another one does not.
  pub perform_all-Agrees :
      (ops : List Op) (token : Option String) (wallet_connected : Bool) (requests : List Request)
      → Agrees parse (
          perform_all ops (record {
            token = token;
            hooks = [];
            wallet_connected = wallet_connected;
            requests = requests;
          }))
  unfolding Agrees
  perform_all-Agrees ops token wallet_connected requests = performed_from ops _ tt
