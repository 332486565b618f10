-- ===== src/Auth/Laws.antt =====
-- What the session's operations do to the storage and to the mounted hooks.
use masjid_protocol.Prelude.{
  ℕ, ◌≡◌, refl, ap, List, [], ◌∷◌, ◌++◌, map, Option, none, String, false, true, inl, inr, arith,
  Bool-cases, Option-cases, or_else,
}
use masjid_protocol.Auth.{
  Claims, AuthState, Browser, session_of, is_token_valid, get_claims_with, dispatch, notify,
  run_handlers, clear_token, get_claims, mount, logout,
}
use masjid_protocol.Auth.Settle.{with_claims, all_see, live, kept, dispatch-settles}

module _ (parse : String → Option Claims) (now : ℕ) where
  -- With no hook mounted nothing listens to the event.
  pub notify-unheard :
      (b : Browser) → notify parse now (record b { hooks = [] }) ≡ record b { hooks = [] }
  unfolding notify dispatch run_handlers
  notify-unheard b = refl

  pub notify-heard :
      (b : Browser) (h : AuthState) (hs : List AuthState)
      → notify parse now (record b { hooks = h ∷ hs })
        ≡ all_see
            (live parse now b.token)
            (record b { token = kept parse now b.token; hooks = h ∷ hs })
  unfolding notify
  notify-heard b h hs =
      ap (λ o. or_else o (record b { hooks = h ∷ hs })) (dispatch-settles parse now b h hs)

  notify-cleared_at :
      (b : Browser) (hs : List AuthState)
      → notify parse now (record b { token = none; hooks = hs })
        ≡ all_see none (record b { token = none; hooks = hs })
  notify-cleared_at b [] = notify-unheard (record b { token = none })
  notify-cleared_at b (h ∷ hs) = notify-heard (record b { token = none }) h hs

  -- Clearing the token removes it and signs out every mounted hook.
  clear_token_lem :
      (b : Browser) → clear_token parse now b ≡ all_see none (record b { token = none })
  unfolding clear_token
  clear_token_lem b = notify-cleared_at b b.hooks

  -- After a logout the storage holds no token, the wallet is disconnected, and every mounted hook
  -- has no claims.
  logout_lem :
      (b : Browser)
      → ((logout parse now b).token ≡ none)
        × ((logout parse now b).wallet_connected ≡ false)
        × ((logout parse now b).hooks ≡ map (with_claims none) b.hooks)
  unfolding logout
  logout_lem b =
      (ap (λ x. x.token) (clear_token_lem b), refl, ap (λ x. x.hooks) (clear_token_lem b))

  -- Reading the claims: what the storage holds is decoded if it has not expired; anything else is
  -- removed from the storage and read as null.
  pub get_claims_lem :
      (b : Browser)
      → ((get_claims parse now b).0 ≡ live parse now b.token)
        × ((get_claims parse now b).1.token ≡ kept parse now b.token)
  unfolding get_claims get_claims_with
  get_claims_lem b = elim (Option-cases (session_of b.token)) [
    | inl e ↦ (ground arith, ground arith)
    | inr (token, e) ↦
        let cleared : (notify parse now (record b { token = none })).token ≡ none =
          ap (λ x. x.token) (notify-cleared_at b b.hooks) in
        elim (Bool-cases (is_token_valid parse now token)) [
          | inl valid ↦ (ground arith, ground arith)
          | inr invalid ↦ (ground arith, ground arith)
        ]
  ]

  -- A hook that mounts is the last to listen, is ready, and holds the claims of what is stored.
  pub mount_lem :
      (b : Browser)
      → (hs : List AuthState) × ((mount parse now b).hooks
          ≡ hs ++ record { claims = live parse now b.token; ready = true } ∷ [])
  unfolding mount
  mount_lem b = (
    (get_claims parse now b).1.hooks,
    ap (λ c. (get_claims parse now b).1.hooks ++ record { claims = c; ready = true } ∷ [])
        (get_claims_lem b).0,
  )
