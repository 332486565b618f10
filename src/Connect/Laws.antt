-- ===== src/Connect/Laws.antt =====
-- What holds of the sign-in page at every moment of its use.
use masjid_protocol.Prelude.{
  subst, sym, ◌⊎◌, ◌∷◌, List, Bool, true, false, ◌≡◌, ◌≢◌, refl, [], Option, none, some, String,
  All, arith, not, ◌||◌, Bool-cases, inl, inr,
}
use masjid_protocol.Prelude.Text.{is_empty}
use masjid_protocol.Auth.{Claims}
use masjid_protocol.Access.{role_redirect}
use masjid_protocol.Connect.{
  Step, connect, signing, name, role, redirecting, Page, Event, mounted, account_effect,
  login_succeeded, login_failed, name_changed, name_submitted, name_updated, name_failed,
  select_guest, select_board, board_claimed, claim_failed, retry, handle, can_happen, Reachable,
  start, next, is_connect, is_shown, same_address, panel_at, role_panel,
}

-- Claims without a name.
abbrev pub Nameless : Option Claims → Type 0
Nameless none = ⊥
Nameless (some c) = is_empty c.name ≡ true

abbrev pub HasClaims : Option Claims → Type 0
HasClaims none = ⊥
HasClaims (some c) = Unit

-- What each step says of the requests in flight and of the claims. The form of the name takes any
-- number of submissions, and an update may end after the redirect.
abbrev pub Agrees : Step → Page → Type 0
Agrees connect p =
    (p.signing_ref ≡ false)
    × (p.login_flights ≡ 0)
    × (p.claiming_board ≡ false)
    × (p.name_flights ≡ 0)
Agrees signing p =
    (p.signing_ref ≡ true)
    × (p.login_flights ≡ 1)
    × (p.claiming_board ≡ false)
    × (p.name_flights ≡ 0)
Agrees role p =
    (p.signing_ref ≡ false) × (p.login_flights ≡ 0) × (p.name_flights ≡ 0) × Nameless p.claims
Agrees name p =
    (p.signing_ref ≡ false)
    × (p.login_flights ≡ 0)
    × (p.claiming_board ≡ false)
    × HasClaims p.claims
Agrees redirecting p =
    (p.signing_ref ≡ false)
    × (p.login_flights ≡ 0)
    × (p.claiming_board ≡ false)
    × (p.redirects ≢ [])

-- The sessions that an event brings: what `getClaims` has answered, and what a sign-in, a claim of
-- the role and an update of the name have ended with.
abbrev pub Brings : Event → Claims → Type 0
Brings (mounted (some c)) d = d ≡ c
Brings (account_effect address (some c)) d = d ≡ c
Brings (login_succeeded c) d = d ≡ c
Brings (name_updated c) d = d ≡ c
Brings (board_claimed c) d = d ≡ c
Brings _ d = ⊥

-- The path is that of the role of one of the sessions.
abbrev pub IsRoleRedirect : (Claims → Type 0) → String → Type 0
IsRoleRedirect Met path = (c : Claims) × Met c × (path ≡ role_redirect c.role)

pub record IsSound (Met : Claims → Type 0) (p : Page) : Type 0 where
  pub agrees : Agrees p.step p
  pub redirected : All (IsRoleRedirect Met) p.redirects

-- The sessions after an event.
abbrev pub MetAfter : Event → (Claims → Type 0) → Claims → Type 0
MetAfter e Met d = Brings e d ⊎ Met d

older :
    (e : Event) (Met : Claims → Type 0) (paths : List String)
    → All (IsRoleRedirect Met) paths
    → All (IsRoleRedirect (MetAfter e Met)) paths
older e Met [] h = tt
older e Met (path ∷ paths) ((c, met, same), h) = ((c, inr met, same), older e Met paths h)

module _ (to_lower trim : String → String) where
  name_submitted-redirects :
      (p : Page) → (handle to_lower trim p name_submitted).redirects ≡ p.redirects
  unfolding handle
  name_submitted-redirects p = ground arith

  handle-IsSound :
      (Met : Claims → Type 0) (p : Page) (e : Event)
      → can_happen to_lower trim p e ≡ true
      → IsSound Met p
      → IsSound (MetAfter e Met) (handle to_lower trim p e)
  unfolding can_happen handle
  handle-IsSound Met p (mounted none) h s = record {
    agrees = s.agrees;
    redirected = older (mounted none) Met p.redirects s.redirected;
  }
  handle-IsSound Met p (mounted (some c)) h s = record {
    agrees = ground arith;
    redirected = ((c, inl refl, refl), older (mounted (some c)) Met p.redirects s.redirected);
  }
  handle-IsSound Met p (account_effect none existing) h s = record {
    agrees = s.agrees;
    redirected = older (account_effect none existing) Met p.redirects s.redirected;
  }
  handle-IsSound Met p (account_effect (some address) none) h s =
      let met = older (account_effect (some address) none) Met p.redirects s.redirected in
      elim (Bool-cases (not (is_connect p.step) || p.signing_ref || is_shown p.error)) [
        | inl blocked ↦ rw blocked (record { agrees = s.agrees; redirected = met })
        | inr free ↦ rw free (record { agrees = ground arith; redirected = met })
      ]
  handle-IsSound Met p (account_effect (some address) (some c)) h s =
      elim (Bool-cases (not (is_connect p.step) || p.signing_ref || is_shown p.error)) [
        | inl blocked ↦ rw blocked (record {
          agrees = s.agrees;
          redirected = older (account_effect (some address) (some c)) Met p.redirects s.redirected;
        })
        | inr free ↦ elim (Bool-cases (same_address to_lower trim address (some c))) [
          | inr other ↦
              rw (free, other)
                (record {
                  agrees = ground arith;
                  redirected =
                      older (account_effect (some address) (some c)) Met p.redirects s.redirected;
                })
          | inl same ↦ elim (Bool-cases (is_empty c.name)) [
            | inl e ↦
                rw (free, same, e)
                  (record {
                    agrees = ground arith;
                    redirected =
                        older (account_effect (some address) (some c)) Met p.redirects s.redirected;
                  })
            | inr e ↦
                rw (free, same, e)
                  (record {
                    agrees = ground arith;
                    redirected = (
                      (c, inl refl, refl),
                      older (account_effect (some address) (some c)) Met p.redirects s.redirected,
                    );
                  })
          ]
        ]
      ]
  handle-IsSound Met p (login_succeeded c) h s = elim (Bool-cases (is_empty c.name)) [
    | inl e ↦ rw e (record {
      agrees = ground arith;
      redirected = older (login_succeeded c) Met p.redirects s.redirected;
    })
    | inr e ↦ rw e (record {
      agrees = ground arith;
      redirected = ((c, inl refl, refl), older (login_succeeded c) Met p.redirects s.redirected);
    })
  ]
  handle-IsSound Met p (login_failed message) h s = record {
    agrees = ground arith;
    redirected = older (login_failed message) Met p.redirects s.redirected;
  }
  handle-IsSound Met p (name_changed text) h s = record {
    agrees = ground arith;
    redirected = older (name_changed text) Met p.redirects s.redirected;
  }
  handle-IsSound Met p name_submitted h s = record {
    agrees = ground arith;
    redirected =
        subst (All (IsRoleRedirect (MetAfter name_submitted Met)))
          (sym (name_submitted-redirects p)) (older name_submitted Met p.redirects s.redirected);
  }
  handle-IsSound Met p (name_updated c) h s = record {
    agrees = ground arith;
    redirected = ((c, inl refl, refl), older (name_updated c) Met p.redirects s.redirected);
  }
  handle-IsSound Met p (name_failed message) h s = record {
    agrees = ground arith;
    redirected = older (name_failed message) Met p.redirects s.redirected;
  }
  handle-IsSound Met p select_guest h s = record {
    agrees = ground arith;
    redirected = older select_guest Met p.redirects s.redirected;
  }
  handle-IsSound Met p select_board h s = record {
    agrees = ground arith;
    redirected = older select_board Met p.redirects s.redirected;
  }
  handle-IsSound Met p (board_claimed c) h s = record {
    agrees = ground arith;
    redirected = older (board_claimed c) Met p.redirects s.redirected;
  }
  handle-IsSound Met p (claim_failed message) h s = record {
    agrees = ground arith;
    redirected = older (claim_failed message) Met p.redirects s.redirected;
  }
  handle-IsSound Met p retry h s = record {
    agrees = ground arith;
    redirected = older retry Met p.redirects s.redirected;
  }

  -- The sessions of a use of the page.
  abbrev pub Met : {p : Page} → Reachable to_lower trim p → Claims → Type 0
  Met start d = ⊥
  Met (next q e r h) d = MetAfter e (Met r) d

  -- However the page is used: at most one sign-in is in flight, namely exactly at the step that
  -- waits for it, and none of the other requests is then; no claim of the role is in flight but at
  -- the step that chooses a role, and no update of the name before the step that asks for it; a
  -- role is chosen only by a session without a name, a name is asked for only with a session, the
  -- last step is reached only with a redirect; and every redirect is to the page of the role of a
  -- session that the page has met: one that was there when it looked, or that a sign-in or an
  -- update ended with.
  pub page-IsSound : (p : Page) (r : Reachable to_lower trim p) → IsSound (Met r) p
  page-IsSound p start = record { agrees = (refl, refl, refl, refl); redirected = tt }
  page-IsSound p (next q e r h) = handle-IsSound (Met r) q e h (page-IsSound q r)

  panel_nameless :
      (step : Step) (p : Page) (greeting : String) (error : Option String) (disabled : Bool)
      → Agrees step p
      → panel_at step p ≡ role_panel greeting error disabled
      → is_empty greeting ≡ true
  unfolding panel_at
  panel_nameless role p greeting error disabled a h = ground arith
  panel_nameless connect p greeting error disabled a h = cc
  panel_nameless signing p greeting error disabled a h = cc
  panel_nameless name p greeting error disabled a h = cc
  panel_nameless redirecting p greeting error disabled a h = cc

  -- The greeting of the step that chooses a role names nobody: it shows the name in the claims,
  -- which is always empty there.
  greeting_nameless :
      (p : Page) (greeting : String) (error : Option String) (disabled : Bool)
      → Reachable to_lower trim p
      → panel_at p.step p ≡ role_panel greeting error disabled
      → is_empty greeting ≡ true
  greeting_nameless p greeting error disabled r h =
      panel_nameless p.step p greeting error disabled (page-IsSound p r).agrees h
