-- ===== src/MasjidInstance/Calls/Sound/Refused.antt =====
-- A request that is executed or canceled is refused to whoever approves, executes or cancels it.
use masjid_protocol.Wallet.Laws.{Result-cases}
use masjid_protocol.MasjidInstance.Calls.Guards.{approve-eq-ok, execute-eq-ok, cancel-eq-ok}
use masjid_protocol.MasjidInstance.{
  AccessControl, Token, Message, State, approve_cash_out, execute_cash_out, cancel_cash_out,
}
use masjid_protocol.CashOut.Instance.{Revert}
use masjid_protocol.Prelude.{ℕ, ◌≡◌, ◌⊎◌, inl, inr, true, Result, ok, thrown}

abbrev pub IsRefused : {A : Type 0} → Result Revert A → Type 0
IsRefused r = (e : Revert) × (r ≡ thrown e)

IsRefused-unless : {A : Type 0} (r : Result Revert A) → ((a : A) → r ≡ ok a → ⊥) → IsRefused r
IsRefused-unless r h = elim (Result-cases r) [ inl (a, e) ↦ absurd (h a e) | inr refused ↦ refused ]

module _ {R T : Type 0} (access : AccessControl R) (token : Token T) where
  abbrev pub RefusesSettled : State R T → Type 0
  RefusesSettled s =
      (id : ℕ) (msg : Message)
      → ((s.cash_out_by_id id).executed ≡ true) ⊎ ((s.cash_out_by_id id).canceled ≡ true)
      → IsRefused (approve_cash_out access token msg s id)
        × IsRefused (execute_cash_out access token msg s id)
        × IsRefused (cancel_cash_out access token msg s id)

  pub state-RefusesSettled : (s : State R T) → RefusesSettled s
  state-RefusesSettled s id msg (inl paid) = (
    IsRefused-unless _ (λ s' h.
        let (c, e) = approve-eq-ok access token msg s id h in let u = c.unpaid in cc (paid, u)),
    IsRefused-unless _ (λ s' h.
        let (t, c, e) = execute-eq-ok access token msg s id h in let u = c.unpaid in cc (paid, u)),
    IsRefused-unless _
        (λ s' h. let (a, u, o, e) = cancel-eq-ok access token msg s id h in cc (paid, u)),
  )
  state-RefusesSettled s id msg (inr canceled) = (
    IsRefused-unless _ (λ s' h.
        let (c, e) = approve-eq-ok access token msg s id h in
        let u = c.open_still in cc (canceled, u)),
    IsRefused-unless _ (λ s' h.
        let (t, c, e) = execute-eq-ok access token msg s id h in
        let u = c.open_still in cc (canceled, u)),
    IsRefused-unless _
        (λ s' h. let (a, u, o, e) = cancel-eq-ok access token msg s id h in cc (canceled, o)),
  )
