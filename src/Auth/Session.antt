-- ===== src/Auth/Session.antt =====
-- The use of the session over time: any sequence of its operations, at any times, by the pages of one
-- browser tab. The hooks of the mounted components then agree with the storage.
use masjid_protocol.Prelude.{
  ℕ, zero, suc, ◌≡◌, refl, sym, ap, ◌∙◌, subst, List, [], ◌∷◌, ◌++◌, map, Option, none, some,
  String, true, All, arith, inl, inr, Bool-cases, Option-cases,
}
use masjid_protocol.Auth.{
  Claims, AuthState, Browser, session_of, decode_token, is_token_valid, notify, set_token,
  clear_token, get_claims, get_claims_with, mount, unmount, without,
}
use masjid_protocol.Auth.Settle.{with_claims, live, kept}
use masjid_protocol.Auth.Laws.{notify-unheard, notify-heard, get_claims_lem}

module _ (parse : String → Option Claims) where
  -- The claims that are stored, whether they have expired or not.
  abbrev pub stored_claims : Option String → Option Claims
  stored_claims stored = elim (session_of stored) [
    | none ↦ none
    | some token ↦ decode_token parse token
  ]

  -- Every mounted hook is ready and holds the claims that are stored.
  abbrev pub Sees : Option Claims → AuthState → Type 0
  Sees c h = (h.claims ≡ c) × (h.ready ≡ true)

  unfoldable pub Agrees : Browser → Type 0
  Agrees b = All (Sees (stored_claims b.token)) b.hooks

  live-kept :
      (now : ℕ) (stored : Option String)
      → live parse now stored ≡ stored_claims (kept parse now stored)
  live-kept now stored = elim (Option-cases (session_of stored)) [
    | inl e ↦ ground (arith, e)
    | inr (token, e) ↦ elim (Bool-cases (is_token_valid parse now token)) [
      | inl v ↦ ground (arith, e, v)
      | inr v ↦ ground (arith, e, v)
    ]
  ]

  All-ready : List AuthState → Type 0
  All-ready hs = All (λ (h : AuthState). h.ready ≡ true) hs

  seen-Sees :
      (c : Option Claims) (hs : List AuthState)
      → All-ready hs
      → All (Sees c) (map (with_claims c) hs)
  unfolding All-ready
  seen-Sees c [] r = tt
  seen-Sees c (h ∷ hs) (r, rs) = ((refl, r), seen-Sees c hs rs)

  Sees-ready : (c : Option Claims) (hs : List AuthState) → All (Sees c) hs → All-ready hs
  unfolding All-ready
  Sees-ready c [] s = tt
  Sees-ready c (h ∷ hs) (s, ss) = (s.1, Sees-ready c hs ss)

  notify-Agrees_at :
      (now : ℕ) (b : Browser) (hs : List AuthState)
      → All-ready hs
      → Agrees (notify parse now (record b { hooks = hs }))
  unfolding Agrees
  notify-Agrees_at now b [] r = subst Agrees (sym (notify-unheard parse now b)) tt
  notify-Agrees_at now b (h ∷ hs) r =
      let seen = seen-Sees (live parse now b.token) (h ∷ hs) r in
      subst Agrees (sym (notify-heard parse now b h hs)) (
        subst (λ c. All (Sees c) (map (with_claims (live parse now b.token)) (h ∷ hs)))
          (live-kept now b.token) seen)

  -- The event makes all hooks agree, whatever they hold.
  notify-Agrees : (now : ℕ) (b : Browser) → All-ready b.hooks → Agrees (notify parse now b)
  unfolding Agrees
  notify-Agrees now b r = notify-Agrees_at now b b.hooks r

  All-append :
      (P : AuthState → Type 0) (hs ks : List AuthState) → All P hs → All P ks → All P (hs ++ ks)
  All-append P [] ks p q = q
  All-append P (h ∷ hs) ks (p, ps) q = (p, All-append P hs ks ps q)

  All-without :
      (P : AuthState → Type 0) (i : ℕ) (hs : List AuthState) → All P hs → All P (without i hs)
  All-without P i [] p = tt
  All-without P zero (h ∷ hs) (p, ps) = ps
  All-without P (suc i) (h ∷ hs) (p, ps) = (p, All-without P i hs ps)

  pub unmount-Agrees : (i : ℕ) (b : Browser) → Agrees b → Agrees (unmount parse i b)
  unfolding unmount Agrees
  unmount-Agrees i b a = All-without (Sees (stored_claims b.token)) i b.hooks a

  module _ (now : ℕ) where
    pub set_token-Agrees :
        (token : String) (b : Browser) → Agrees b → Agrees (set_token parse now token b)
    unfolding set_token Agrees
    set_token-Agrees token b a =
        notify-Agrees now (record b { token = some token }) (Sees-ready _ b.hooks a)

    pub clear_token-Agrees : (b : Browser) → Agrees b → Agrees (clear_token parse now b)
    unfolding clear_token Agrees
    clear_token-Agrees b a = notify-Agrees now (record b { token = none }) (Sees-ready _ b.hooks a)

    pub get_claims-Agrees : (b : Browser) → Agrees b → Agrees (get_claims parse now b).1
    unfolding get_claims get_claims_with Agrees
    get_claims-Agrees b a = elim (Option-cases (session_of b.token)) [
      | inl e ↦ rw (get_claims, get_claims_with, e) a
      | inr (token, e) ↦ elim (Bool-cases (is_token_valid parse now token)) [
        | inl v ↦ rw (get_claims, get_claims_with, e) (rw (v) a)
        | inr v ↦
            rw (get_claims, get_claims_with, e)
              (rw (v) (notify-Agrees now (record b { token = none }) (Sees-ready _ b.hooks a)))
      ]
    ]

    pub mount-Agrees : (b : Browser) → Agrees b → Agrees (mount parse now b)
    unfolding mount Agrees
    mount-Agrees b a =
        let (read, left) = get_claims_lem parse now b in
        let b' = (get_claims parse now b).1 in
        let agrees : (get_claims parse now b).0 ≡ stored_claims b'.token =
          read ∙ live-kept now b.token ∙ ap stored_claims (sym left) in
        All-append (Sees (stored_claims b'.token)) b'.hooks _ (get_claims-Agrees b a)
          ((agrees, refl), tt)
