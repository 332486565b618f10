-- ===== src/Auth/Requests.antt =====
-- The requests of front-end/src/lib/auth.ts: signing in with the wallet, the name and the role of
-- the user, and the authenticated `fetch` of the pages. The server and the wallet's signature are
-- parameters. A thrown `Error` is its message.
pub mod Laws
pub mod Session
use masjid_protocol.Prelude.Text.{◌+++◌}
use masjid_protocol.Prelude.{
  ℕ, Bool, true, false, List, [], ◌∷◌, ◌++◌, Option, none, some, String, Result, ok, thrown,
  or_else, if◌then◌else◌,
}
use masjid_protocol.Auth.{Claims, Request, Browser, session_of, decode_token, set_token}

-- The fields of a JSON body that the code reads.
pub record Wire : Type 0 where
  pub message : Option String
  pub token : Option String
  pub error : Option String

-- `fetch` rejects with a message, or answers with a status and a body, whose reading may reject.
pub record Response : Type 0 where
  pub is_ok : Bool
  pub json : Result String Wire

abbrev pub Server : Type 0
Server = Request → Result String Response

abbrev pub M : Type 0 → Type 0
M A = Browser → Result String A × Browser

abbrev pub bind_result :
    {A B : Type 0} → Result String A × Browser → (A → M B) → Result String B × Browser
bind_result (ok a, b) f = f a b
bind_result (thrown e, b) f = (thrown e, b)

infixl 5 ◌>>=◌ ◌>>◌
abbrev pub ◌>>=◌ : {A B : Type 0} → M A → (A → M B) → M B
◌>>=◌ m f b = bind_result (m b) f

abbrev pub ◌>>◌ : {B : Type 0} → M (Unit {0}) → M B → M B
m >> k = m >>= λ _. k

abbrev pub lift : {A : Type 0} → Result String A → M A
lift r b = (r, b)

abbrev pub or_throw : {A : Type 0} → Option A → String → M A
or_throw none message = lift (thrown message)
or_throw (some a) message = lift (ok a)

-- `if (!res.ok) throw new Error(message)`.
abbrev pub check : Bool → String → M (Unit {0})
check true message = lift (ok tt)
check false message = lift (thrown message)

-- The same, where the message is the body's `error`, if it has one.
abbrev pub check_error : Response → String → M (Unit {0})
check_error res message =
    if res.is_ok
    then lift (ok tt)
    else (lift res.json >>= λ err. lift (thrown (or_else err.error message)))

abbrev bearer : String → String
bearer token = "Bearer " +++ token

module _ (server : Server) where
  pub fetch : Request → M Response
  fetch req b = (server req, record b { requests = b.requests ++ req ∷ [] })

  -- `apiFetch(path, init)`: the session's token, if there is one, goes with the request.
  unfoldable pub api_fetch : String → String → List (String × Option String) → M Response
  unfolding fetch
  api_fetch method path body b =
      fetch
        (record {
          method = method;
          path = path;
          authorization = elim (session_of b.token) [
            | none ↦ none
            | some token ↦ some (bearer token)
          ];
          body = body;
        })
        b

  module _ (parse : String → Option Claims) (now : ℕ) where
    pub store_token : String → M (Unit {0})
    store_token token b = (ok tt, set_token parse now token b)

    -- The end of the three functions below: store the answer's token and decode it. A token that
    -- the answer lacks is stored as JavaScript prints it.
    pub adopt : Wire → M Claims
    unfolding store_token
    adopt wire = do
      let token = or_else wire.token "undefined"
      store_token token
      or_throw (decode_token parse token) "Token tidak valid"

    unfoldable pub siwe_login : String → (Option String → Result String String) → M Claims
    unfolding fetch adopt
    siwe_login address sign_message = do
      nonce_res ← fetch (record {
        method = "GET";
        path = "/auth/nonce?address=" +++ address;
        authorization = none;
        body = [];
      })
      check nonce_res.is_ok "Gagal mendapatkan nonce"
      nonce ← lift nonce_res.json
      signature ← lift (sign_message nonce.message)
      verify_res ← fetch (record {
        method = "POST";
        path = "/auth/verify";
        authorization = none;
        body =
            ("address", some address)
            ∷ ("message", nonce.message)
            ∷ ("signature", some signature)
            ∷ [];
      })
      check_error verify_res "Autentikasi gagal"
      wire ← lift verify_res.json
      adopt wire

    pub read_session : M String
    read_session b = or_throw (session_of b.token) "Sesi tidak ditemukan" b

    unfoldable pub update_name : String → M Claims
    unfolding fetch adopt read_session
    update_name name = do
      token ← read_session
      res ← fetch (record {
        method = "PUT";
        path = "/auth/me/name";
        authorization = some (bearer token);
        body = ("name", some name) ∷ [];
      })
      check res.is_ok "Gagal menyimpan nama"
      wire ← lift res.json
      adopt wire

    unfoldable pub claim_board_role : M Claims
    unfolding fetch adopt read_session
    claim_board_role = do
      token ← read_session
      res ← fetch (record {
        method = "POST";
        path = "/auth/me/role";
        authorization = some (bearer token);
        body = [];
      })
      check_error res "Gagal mengklaim role"
      wire ← lift res.json
      adopt wire
