-- ===== src/Auth/Settle.antt =====
-- The event `mp_auth_change` settles: its listeners, which may clear the token and so dispatch the
-- event again, all return, and then agree with the storage.
use masjid_protocol.Prelude.{
  ℕ, zero, suc, true, false, ◌≡◌, refl, sym, ◌∙◌, ap, ap₂, List, [], ◌∷◌, map, Option, none, some,
  String, length, inl, inr, arith, Bool-cases, Option-cases, if◌then◌else◌,
}
use masjid_protocol.Auth.{
  Claims, AuthState, Browser, session_of, decode_token, is_token_valid, get_claims_with, set_claims,
  run_handlers, dispatch,
}

abbrev pub with_claims : Option Claims → AuthState → AuthState
with_claims c h = record h { claims = c }

-- All hooks see `c`.
abbrev pub all_see : Option Claims → Browser → Browser
all_see c b = record b { hooks = map (with_claims c) b.hooks }

abbrev set_range : Option Claims → ℕ → ℕ → List AuthState → List AuthState
set_range c i zero hs = hs
set_range c i (suc k) hs = set_range c (suc i) k (set_claims i c hs)

set_range-cons :
    (c : Option Claims) (i k : ℕ) (h : AuthState) (hs : List AuthState)
    → set_range c (suc i) k (h ∷ hs) ≡ h ∷ set_range c i k hs
set_range-cons c i zero h hs = refl
set_range-cons c i (suc k) h hs = set_range-cons c (suc i) k h (set_claims i c hs)

set_range-all :
    (c : Option Claims) (hs : List AuthState)
    → set_range c 0 (length hs) hs ≡ map (with_claims c) hs
set_range-all c [] = refl
set_range-all c (h ∷ hs) =
    rw (set_range-cons c 0 (length hs) (with_claims c h) hs, set_range-all c hs)

module _ (parse : String → Option Claims) where
  -- What the claims are while the storage holds `token`, and what is left there once it is read.
  abbrev pub live : ℕ → Option String → Option Claims
  live now stored = elim (session_of stored) [
    | none ↦ none
    | some token ↦ if is_token_valid parse now token then decode_token parse token else none
  ]

  abbrev pub kept : ℕ → Option String → Option String
  kept now stored = elim (session_of stored) [
    | none ↦ stored
    | some token ↦ if is_token_valid parse now token then stored else none
  ]

  module _ (d : Browser → Option Browser) (now : ℕ) (c : Option Claims) where
    -- Reading the claims changes nothing, whatever the hooks hold.
    abbrev IsSteady : Browser → Type 0
    IsSteady b =
        (hs : List AuthState)
        → get_claims_with parse d now (record b { hooks = hs }) ≡ some (c, record b { hooks = hs })

    run_handlers-steady :
        (i k : ℕ) (b : Browser)
        → IsSteady b
        → run_handlers parse d now i k b ≡ some (record b { hooks = set_range c i k b.hooks })
    unfolding run_handlers
    run_handlers-steady i zero b h = refl
    run_handlers-steady i (suc k) b h =
        rw (h b.hooks, run_handlers)
          (run_handlers-steady (suc i) k (record b { hooks = set_claims i c b.hooks }) h)

  IsSteady-of_none :
      (d : Browser → Option Browser) (now : ℕ) (b : Browser)
      → session_of b.token ≡ none
      → IsSteady d now none b
  unfolding get_claims_with
  IsSteady-of_none d now b e hs = ground arith

  IsSteady-of_valid :
      (d : Browser → Option Browser) (now : ℕ) (b : Browser) {token : String}
      → session_of b.token ≡ some token
      → is_token_valid parse now token ≡ true
      → IsSteady d now (decode_token parse token) b
  unfolding get_claims_with
  IsSteady-of_valid d now b e v hs = ground arith

  dispatch-steady :
      (n now : ℕ) (c : Option Claims) (b : Browser)
      → IsSteady (dispatch parse n now) now c b
      → dispatch parse (suc n) now b ≡ some (all_see c b)
  unfolding dispatch
  dispatch-steady n now c b h =
      run_handlers-steady (dispatch parse n now) now c 0 (length b.hooks) b h
      ∙ rw (set_range-all c b.hooks)

  with_claims_idem :
      (c : Option Claims) (hs : List AuthState)
      → map (with_claims c) (map (with_claims c) hs) ≡ map (with_claims c) hs
  with_claims_idem c [] = refl
  with_claims_idem c (h ∷ hs) = rw (with_claims_idem c hs)

  length-map : (f : AuthState → AuthState) (hs : List AuthState) → length (map f hs) ≡ length hs
  length-map f [] = refl
  length-map f (h ∷ hs) = ap suc (length-map f hs)

  run_handlers-step :
      (d : Browser → Option Browser) (now i k : ℕ) (b : Browser) {c : Option Claims} {b' : Browser}
      → get_claims_with parse d now b ≡ some (c, b')
      → run_handlers parse d now i (suc k) b
        ≡ run_handlers parse d now (suc i) k (record b' { hooks = set_claims i c b'.hooks })
  unfolding run_handlers
  run_handlers-step d now i k b e = rw (e, run_handlers)

  dispatch-step :
      (n now : ℕ) (b : Browser)
      → dispatch parse (suc n) now b
        ≡ run_handlers parse (dispatch parse n now) now 0 (length b.hooks) b
  unfolding dispatch
  dispatch-step n now b = refl

  -- A read of a token that is not valid clears it, and every hook hears of it.
  get_claims-invalid :
      (now : ℕ) (stored : Option String) (b : Browser) {token : String}
      → session_of stored ≡ some token
      → is_token_valid parse now token ≡ false
      → get_claims_with parse (dispatch parse 1 now) now (record b { token = stored })
        ≡ some (none, all_see none (record b { token = none }))
  unfolding get_claims_with
  get_claims-invalid now stored b e v =
      let cleared = record b { token = none } in
      let inner =
        dispatch-steady 0 now none cleared
          (IsSteady-of_none (dispatch parse 0 now) now cleared refl) in
      rw (e, get_claims_with) (rw (v, inner))

  -- The hooks that have heard it stay as they are when their own listeners run.
  set_range-seen :
      (h : AuthState) (hs : List AuthState)
      → set_range none 1 (length hs) (map (with_claims none) (h ∷ hs))
        ≡ map (with_claims none) (h ∷ hs)
  set_range-seen h hs =
      set_range-cons none 0 (length hs) (with_claims none h) (map (with_claims none) hs)
      ∙ ap (λ l. with_claims none h ∷ l)
          (ap (λ n. set_range none 0 n (map (with_claims none) hs))
              (sym (length-map (with_claims none) hs))
            ∙ set_range-all none (map (with_claims none) hs)
            ∙ with_claims_idem none hs)

  -- A token that is not valid is cleared by the first listener; the later ones find nothing to do.
  dispatch-invalid :
      (now : ℕ) (stored : Option String) (b : Browser) (h : AuthState) (hs : List AuthState)
      {token : String}
      → session_of stored ≡ some token
      → is_token_valid parse now token ≡ false
      → dispatch parse 2 now (record b { token = stored; hooks = h ∷ hs })
        ≡ some (all_see none (record b { token = none; hooks = h ∷ hs }))
  dispatch-invalid now stored b h hs e v =
      let start : Browser = record b { token = stored; hooks = h ∷ hs } in
      let seen : Browser = all_see none (record b { token = none; hooks = h ∷ hs }) in
      dispatch-step 1 now start
      ∙ run_handlers-step (dispatch parse 1 now) now 0 (length hs) start
          (get_claims-invalid now stored start e v)
      ∙ run_handlers-steady (dispatch parse 1 now) now none 1 (length hs) seen
          (IsSteady-of_none (dispatch parse 1 now) now seen refl)
      ∙ ap (λ l. some (record seen { hooks = l })) (set_range-seen h hs)

  settles_at :
      (now : ℕ) (stored : Option String) (b : Browser) (h : AuthState) (hs : List AuthState)
      → dispatch parse 2 now (record b { token = stored; hooks = h ∷ hs })
        ≡ some (all_see (live now stored) (record b { token = kept now stored; hooks = h ∷ hs }))
  settles_at now stored b h hs =
      let start : Browser = record b { token = stored; hooks = h ∷ hs } in
      let to = λ (c : Option Claims) (left : Option String).
        some (all_see c (record start { token = left })) in
      elim (Option-cases (session_of stored)) [
        | inl e ↦
            dispatch-steady 1 now none start (IsSteady-of_none (dispatch parse 1 now) now start e)
            ∙ ap₂ to (ground arith) (ground arith)
        | inr (token, e) ↦ elim (Bool-cases (is_token_valid parse now token)) [
          | inl valid ↦
              dispatch-steady 1 now (decode_token parse token) start
                (IsSteady-of_valid (dispatch parse 1 now) now start e valid)
              ∙ ap₂ to (ground arith) (ground arith)
          | inr invalid ↦
              dispatch-invalid now stored b h hs e invalid ∙ ap₂ to (ground arith) (ground arith)
        ]
      ]

  -- With a hook mounted the event returns, at nesting depth 2: the storage keeps its token only if
  -- that is valid, and every hook then holds the claims of what is stored.
  pub dispatch-settles :
      (now : ℕ) (b : Browser) (h : AuthState) (hs : List AuthState)
      → dispatch parse 2 now (record b { hooks = h ∷ hs })
        ≡ some (all_see (live now b.token) (record b { token = kept now b.token; hooks = h ∷ hs }))
  dispatch-settles now b h hs = settles_at now b.token b h hs
