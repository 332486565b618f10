-- ===== src/CashOut/Laws.antt =====
-- The dashboard's buttons and badges against the contract's checks.
use masjid_protocol.Contracts as Contracts
use masjid_protocol.Contracts.{CashOutRequest, verified}
use masjid_protocol.Prelude.{
  ℕ, ◌/◌, ◌≤◌, ◌<◌, true, false, ◌≡◌, ◌≢◌, ◌↔◌, Option, none, some, ok, thrown, arith,
}
use masjid_protocol.CashOut.{
  Progress, Actions, siap_eksekusi, cash_out_status_badge, cash_out_actions,
}
use masjid_protocol.CashOut.Instance.{execute_cash_out, cancel_cash_out, cash_out_expired}

-- The Execute button, and the button to cancel, are there.
abbrev pub OffersExecute : Option Actions → Type 0
OffersExecute none = ⊥
OffersExecute (some a) = a.execute ≢ none

abbrev pub OffersCancel : Option Actions → Type 0
OffersCancel none = ⊥
OffersCancel (some a) = Unit

-- A request that exists gets a button to cancel it exactly when a cancellation by the admin goes
-- through, which marks it canceled.
pub cancel-offered_iff :
    (req : CashOutRequest) (threshold now : ℕ) (execute cancel : Progress)
    → req.created_at ≢ 0
    → OffersCancel (cash_out_actions req threshold now execute cancel)
      ↔ (cancel_cash_out true req ≡ ok (record req { canceled = true }))
unfolding cash_out_actions cancel_cash_out
cancel-offered_iff req threshold now execute cancel h = (λ o. ground arith, λ e. ground arith)

-- A request that exists, has enough approvals and has expired unsettled is still badged as ready
-- for execution, though the page offers no Execute button and the contract refuses it as expired.
expired_badge :
    (req : CashOutRequest) (threshold now : ℕ) (execute cancel : Progress)
    → req.created_at ≢ 0
    → req.executed ≡ false
    → req.canceled ≡ false
    → threshold ≤ req.approvals
    → req.expires_at < now / 1000
    → (cash_out_status_badge req threshold now ≡ siap_eksekusi)
      × (¬ OffersExecute (cash_out_actions req threshold now execute cancel))
      × (execute_cash_out true verified req threshold (now / 1000) true ≡ thrown cash_out_expired)
unfolding cash_out_status_badge cash_out_actions execute_cash_out
expired_badge req threshold now execute cancel h e c t x =
    (ground arith, λ o. ground arith, ground arith)
