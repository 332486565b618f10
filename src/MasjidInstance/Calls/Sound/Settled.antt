-- ===== src/MasjidInstance/Calls/Sound/Settled.antt =====
-- A request is settled once: the executions and cancellations of it that go through, counted over
-- any transactions.
use masjid_protocol.Wallet.Laws.{Result-cases}
use masjid_protocol.MasjidInstance.Calls.{
  Transaction, transact_all, transact, calling, elsewhere, executing, canceling, perform,
  cashing_in, proposing, approving, setting_member, setting_threshold, setting_admin,
  setting_status, setting_uri,
}
use masjid_protocol.MasjidInstance.Calls.Sound.{Sound, put-elim}
use masjid_protocol.MasjidInstance.Calls.Sound.Kept.{
  transact_all-kept, transact-Sound, constructor-Sound,
}
use masjid_protocol.MasjidInstance.Calls.Sound.Refused.{
  RefusesSettled, state-RefusesSettled, IsRefused,
}
use masjid_protocol.MasjidInstance.Calls.Final.{transact-Grown}
use masjid_protocol.MasjidInstance.Calls.Guards.{execute-eq-ok, cancel-eq-ok}
use masjid_protocol.MasjidInstance.{
  AccessControl, Token, Message, State, put, constructor', execute_cash_out, cancel_cash_out,
}
use masjid_protocol.Contracts.{CashOutRequest}
use masjid_protocol.CashOut.Instance.{Revert}
use masjid_protocol.Prelude.{
  ℕ, ◌+◌, ◌≤◌, ◌≡◌, ◌≢◌, ◌⊎◌, inl, inr, refl, sym, ap, subst, true, List, [], ◌∷◌, String, Result,
  ok, thrown, ◌==◌, if◌then◌else◌, Bool-cases, arith,
}

abbrev pub accepted : {A : Type 0} → Result Revert A → ℕ
accepted (ok a) = 1
accepted (thrown e) = 0

accepted-refused : {A : Type 0} (r : Result Revert A) → IsRefused r → accepted r ≡ 0
accepted-refused r (e, h) = rw h refl

abbrev HasEnded : CashOutRequest → Type 0
HasEnded r = (r.executed ≡ true) ⊎ (r.canceled ≡ true)

abbrev IsSettled : CashOutRequest → Type 0
IsSettled r = (r.created_at ≢ 0) × HasEnded r

put-IsSettled :
    (j id : ℕ) (r : CashOutRequest) (by_id : ℕ → CashOutRequest)
    → (j == id) ≡ true
    → IsSettled r
    → IsSettled (put j r by_id id)
put-IsSettled j id r by_id same h =
    put-elim IsSettled j r by_id id (λ e. h) (λ ne. absurd (ground (arith, same, ne)))

same_number : {j id : ℕ} → (j == id) ≡ true → id ≡ j
same_number same = ground (arith, same)

module _ {R T : Type 0} (access : AccessControl R) (token : Token T) where
  -- 1 if the transaction executes or cancels the request, and 0 if it does not or is refused.
  abbrev pub settles : ℕ → Transaction R T → State R T → ℕ
  settles id (calling msg (executing j)) s =
      if j == id then accepted (execute_cash_out access token msg s j) else 0
  settles id (calling msg (canceling j)) s =
      if j == id then accepted (cancel_cash_out access token msg s j) else 0
  settles id tx s = 0

  abbrev pub settlements : ℕ → List (Transaction R T) → State R T → ℕ
  settlements id [] s = 0
  settlements id (tx ∷ txs) s = settles id tx s + settlements id txs (transact access token tx s)

  module _ (s : State R T) (id : ℕ) where
    -- The request is settled in the state after the transaction.
    abbrev SettledBy : Transaction R T → Type 0
    SettledBy tx = IsSettled ((transact access token tx s).cash_out_by_id id)

    abbrev Cases : Transaction R T → Type 0
    Cases tx = (settles id tx s ≡ 0) ⊎ ((settles id tx s ≡ 1) × SettledBy tx)

    execute-Cases : (msg : Message) (j : ℕ) → Cases (calling msg (executing j))
    unfolding transact perform
    execute-Cases msg j = elim (Bool-cases (j == id)) [
      | inr other ↦ inl (rw other refl)
      | inl same ↦ elim (Result-cases (execute_cash_out access token msg s j)) [
        | inr (e, r) ↦ inl (rw (same, r) refl)
        | inl (s', r) ↦
            let (t, q, e) = execute-eq-ok access token msg s j r in
            inr (
              rw (same, r) refl,
              rw r (
                  subst (λ x. IsSettled (x.cash_out_by_id id)) (sym e)
                    (put-IsSettled j id _ s.cash_out_by_id same (q.exists, inl refl))),
            )
      ]
    ]

    cancel-Cases : (msg : Message) (j : ℕ) → Cases (calling msg (canceling j))
    unfolding transact perform
    cancel-Cases msg j = elim (Bool-cases (j == id)) [
      | inr other ↦ inl (rw other refl)
      | inl same ↦ elim (Result-cases (cancel_cash_out access token msg s j)) [
        | inr (e, r) ↦ inl (rw (same, r) refl)
        | inl (s', r) ↦
            let (exists, unpaid, open_still, e) = cancel-eq-ok access token msg s j r in
            inr (
              rw (same, r) refl,
              rw r (
                  subst (λ x. IsSettled (x.cash_out_by_id id)) (sym e)
                    (put-IsSettled j id _ s.cash_out_by_id same (exists, inr refl))),
            )
      ]
    ]

    settles-Cases : (tx : Transaction R T) → Cases tx
    settles-Cases (calling msg (executing j)) = execute-Cases msg j
    settles-Cases (calling msg (canceling j)) = cancel-Cases msg j
    settles-Cases (calling msg (cashing_in amount)) = inl refl
    settles-Cases (calling msg (proposing p)) = inl refl
    settles-Cases (calling msg (approving j)) = inl refl
    settles-Cases (calling msg (setting_member member allowed)) = inl refl
    settles-Cases (calling msg (setting_threshold threshold)) = inl refl
    settles-Cases (calling msg (setting_admin admin)) = inl refl
    settles-Cases (calling msg (setting_status status)) = inl refl
    settles-Cases (calling msg (setting_uri uri)) = inl refl
    settles-Cases (elsewhere roles t) = inl refl

    -- A settled request is not settled again.
    module _ (settled : IsSettled (s.cash_out_by_id id)) where
      ended_at : {j : ℕ} → (j == id) ≡ true → HasEnded (s.cash_out_by_id j)
      ended_at same = subst (λ i. HasEnded (s.cash_out_by_id i)) (same_number same) settled.1

      settles-none : (tx : Transaction R T) → settles id tx s ≡ 0
      settles-none (calling msg (executing j)) = elim (Bool-cases (j == id)) [
        | inr other ↦ rw other refl
        | inl same ↦
            let (a, refused, c) = state-RefusesSettled access token s j msg (ended_at same) in
            rw same (accepted-refused (execute_cash_out access token msg s j) refused)
      ]
      settles-none (calling msg (canceling j)) = elim (Bool-cases (j == id)) [
        | inr other ↦ rw other refl
        | inl same ↦
            let (a, b, refused) = state-RefusesSettled access token s j msg (ended_at same) in
            rw same (accepted-refused (cancel_cash_out access token msg s j) refused)
      ]
      settles-none (calling msg (cashing_in amount)) = refl
      settles-none (calling msg (proposing p)) = refl
      settles-none (calling msg (approving j)) = refl
      settles-none (calling msg (setting_member member allowed)) = refl
      settles-none (calling msg (setting_threshold threshold)) = refl
      settles-none (calling msg (setting_admin admin)) = refl
      settles-none (calling msg (setting_status status)) = refl
      settles-none (calling msg (setting_uri uri)) = refl
      settles-none (elsewhere roles t) = refl

      still : (tx : Transaction R T) → Sound s → SettledBy tx
      still tx h =
          let g = transact-Grown access token tx s id h settled.0 in
          (
            subst (λ x. x ≢ 0) (sym (ap (λ r. r.created_at) g.terms)) settled.0,
            elim (settled.1) [ inl e ↦ inl (g.paid e) | inr c ↦ inr (g.closed c) ],
          )

  settlements-none :
      (id : ℕ) (txs : List (Transaction R T)) (s : State R T)
      → Sound s
      → IsSettled (s.cash_out_by_id id)
      → settlements id txs s ≡ 0
  settlements-none id [] s h settled = refl
  settlements-none id (tx ∷ txs) s h settled =
      let here = settles-none s id settled tx in
      let later =
        settlements-none id txs (transact access token tx s) (transact-Sound access token tx s h)
          (still s id settled tx h) in
      omega (arith, here, later)

  settlements_once :
      (id : ℕ) (txs : List (Transaction R T)) (s : State R T) → Sound s → settlements id txs s ≤ 1
  settlements_once id [] s h = omega arith
  settlements_once id (tx ∷ txs) s h =
      let s' = transact access token tx s in
      let h' = transact-Sound access token tx s h in
      elim (settles-Cases s id tx) [
        | inl here ↦ let later = settlements_once id txs s' h' in omega (arith, here, later)
        | inr (here, settled) ↦
            let later = settlements-none id txs s' h' settled in omega (arith, here, later)
      ]

  -- From a deployment that succeeds on, whatever transactions follow, by whomever and at whatever
  -- times, with the token and the roles changing in any way between them: the approvals of every
  -- request are the number of the accounts recorded for it, none of which is recorded twice; no
  -- request is both executed and canceled, one that is executed or canceled is refused to whoever
  -- approves, executes or cancels it, and the executions and cancellations of a request that go
  -- through are one at most in all; an executed one has an approval; no request with a number above
  -- the nonce exists or has approvals; and the threshold is positive and at most the number of
  -- members that the contract counts.
  pub transact_all-Sound :
      (this protocol masjid_name metadata_uri masjid_admin stablecoin : String)
      (members : List String) (threshold : ℕ) (t : T) {s : State R T}
      → constructor' access token this protocol masjid_name metadata_uri masjid_admin stablecoin
          members threshold t
        ≡ ok s
      → (txs : List (Transaction R T))
      → Sound (transact_all access token txs s)
        × RefusesSettled access token (transact_all access token txs s)
        × ((id : ℕ) → settlements id txs s ≤ 1)
  transact_all-Sound this protocol name uri admin stablecoin members threshold t {s = s} h txs = (
    transact_all-kept access token this protocol name uri admin stablecoin members threshold t h
        txs,
    state-RefusesSettled access token (transact_all access token txs s),
    λ id. settlements_once id txs s (
        constructor-Sound access token this protocol name uri admin stablecoin members threshold t
          h),
  )
