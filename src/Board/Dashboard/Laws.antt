-- ===== src/Board/Dashboard/Laws.antt =====
-- What the dashboard shows, and what it offers where the contract refuses.
use text.Mathlib.Text.{◌==◌ as str_eq}
use text.Mathlib.TextEquality.{eq_iff}
use masjid_protocol.Prelude.{
  ℕ, zero, suc, ◌*◌, ◌/◌, ◌≤◌, ◌<◌, ◌≡◌, ◌≢◌, refl, true, false, List, [], ◌∷◌, none, some, thrown,
  String, arith, Bool-cases, inl, inr, find, any,
}
use masjid_protocol.Prelude.Rounding.{nearest-Near, Near-ge}
use masjid_protocol.Contracts.{verified}
use masjid_protocol.CashOut.{Row, Progress, cash_out_actions}
use masjid_protocol.CashOut.Laws.{OffersExecute}
use masjid_protocol.CashOut.Instance.{execute_cash_out, cash_out_threshold_not_reached}
use masjid_protocol.Prelude.Text.{is_empty}
use masjid_protocol.Board.{MasjidInfo, Cache, selected_masjid, is_verified_status}
use masjid_protocol.Board.Dashboard.{
  table_row, State, Dashboard, shown, view, handle, dashboard, select,
}

module _ (now : ℕ) (mutations : Row → Progress × Progress) where
  -- The bar of a request never passes its full width, and is full once the request has as many
  -- approvals as the contract's threshold, which is not zero.
  bar-IsFull :
      (threshold : ℕ) (r : Row)
      → 1 ≤ threshold
      → ((table_row now mutations (some threshold) r).width ≤ 100)
        × (threshold ≤ r.req.approvals → (table_row now mutations (some threshold) r).width ≡ 100)
  unfolding table_row
  bar-IsFull zero r h = absurd (omega arith)
  bar-IsFull (suc t) r h =
      let n = nearest-Near (100 * r.req.approvals) (suc t) (omega arith) in
      (ground arith, λ e. ground (arith, Near-ge _ _ _ 100 n (omega (arith, e))))

  -- As long as the threshold is not read, a request that exists, is open, has not expired and lacks
  -- approvals has an Execute button, though the contract refuses it for its approvals.
  unread_threshold :
      (threshold : ℕ) (r : Row)
      → r.req.created_at ≢ 0
      → r.req.executed ≡ false
      → r.req.canceled ≡ false
      → now / 1000 ≤ r.req.expires_at
      → r.req.approvals < threshold
      → OffersExecute (table_row now mutations none r).actions
        × (execute_cash_out true verified r.req threshold (now / 1000) true
            ≡ thrown cash_out_threshold_not_reached)
  unfolding table_row cash_out_actions execute_cash_out
  unread_threshold threshold r h e c x l = (ground arith, ground arith)

  module _ (format_compact : ℕ → String) (localized : (raw decimals : ℕ) → String) where
    find-found :
        (id : String) (ms : List MasjidInfo)
        → any (λ (x : MasjidInfo). str_eq x.masjid_id id) ms ≡ true
        → (m : MasjidInfo) × (find (λ (x : MasjidInfo). str_eq x.masjid_id id) ms ≡ some m)
          × (m.masjid_id ≡ id)
    find-found id [] h = ground (arith, h)
    find-found id (x ∷ xs) h = elim (Bool-cases (str_eq x.masjid_id id)) [
      | inl a ↦ (x, rw a refl, (eq_iff x.masjid_id id).0 a)
      | inr b ↦ let (m, f, e) = find-found id xs (rw b at h) in (m, rw b f, e)
    ]

    selected-found :
        (id : String) (ms : List MasjidInfo)
        → is_empty id ≡ false
        → any (λ (x : MasjidInfo). str_eq x.masjid_id id) ms ≡ true
        → (m : MasjidInfo) × (selected_masjid (some ms) (some id) ≡ some m) × (m.masjid_id ≡ id)
    unfolding selected_masjid
    selected-found id ms e h = let (m, f, q) = find-found id ms h in (m, rw e f, q)

    -- Once the masjids are loaded without an error, a click on one of them, whose id is not empty,
    -- shows the dashboard of a masjid with that id.
    pub select-Shown :
        (c : Cache) (s : State) (id : String) (ms : List MasjidInfo)
        → c.is_loading ≡ false
        → c.error ≡ none
        → c.masjids ≡ some ms
        → is_empty id ≡ false
        → any (λ (x : MasjidInfo). str_eq x.masjid_id id) ms ≡ true
        → (d : Dashboard) × (view now mutations format_compact localized c (handle (select id) s)
            ≡ shown d)
          × (d.masjid.masjid_id ≡ id)
    unfolding view handle
    select-Shown c s id ms a b e n h =
        let (m, f, q) = selected-found id ms n h in
        (
          dashboard now mutations format_compact localized c (handle (select id) s) ms m,
          rw (a, b, e, f) refl,
          q,
        )

    -- Once the masjids are loaded without an error, a form that is open stays open when another
    -- masjid is selected, also one that is not verified (by the answer of its contract, or for lack
    -- of one): if its contract has an address, the form is then for that contract, though the
    -- button of the form is disabled.
    form_unverified :
        (c : Cache) (s : State) (id : String) (ms : List MasjidInfo) (m : MasjidInfo)
        → c.is_loading ≡ false
        → c.error ≡ none
        → c.masjids ≡ some ms
        → selected_masjid (some ms) (some id) ≡ some m
        → is_empty m.instance_addr ≡ false
        → s.show_propose ≡ true
        → is_verified_status (c.instances m.instance_addr).instance_status ≡ false
        → (d : Dashboard) × (view now mutations format_compact localized c (handle (select id) s)
            ≡ shown d)
          × (d.propose_disabled ≡ true)
          × (d.form ≡ some m.instance_addr)
    unfolding view handle
    form_unverified c s id ms m a b e f n o u = (
      dashboard now mutations format_compact localized c (handle (select id) s) ms m,
      rw (a, b, e, f) refl,
      rw u refl,
      rw (o, n) refl,
    )
