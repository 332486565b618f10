-- ===== src/Donate/Laws.antt =====
-- A used form sends one transaction at a time, and a donation only with an allowance for it.
use masjid_protocol.Prelude.{ℕ, true, false, ◌≡◌, refl, List, [], ◌∷◌, Option, String, ◌⊎◌, arith}
use masjid_protocol.Prelude.Int.{ℤ, at_least, is_zero, exceeds}
use masjid_protocol.Donate.{
  Step, idle, approving, donating, done, Flight, approve_flight, refetching, cash_in_flight, Logged,
  submitted, approve_sent, approved, cash_in_sent, Form, Env, Event, change_amount, change_note,
  submit, approve_succeeded, allowance_refetched, cash_in_succeeded, again, approve_failed,
  cash_in_failed, parse_donate_amount, handle, can_happen, Reachable, start, next,
}

-- The step says what is in flight, and the newest entry of the log says the same.
abbrev pub Agrees : Step → List Flight → List Logged → Type 0
Agrees idle [] log = Unit
Agrees done [] log = Unit
Agrees approving (approve_flight a n ∷ []) (approve_sent b ∷ log) = a ≡ b
Agrees approving (refetching a n ∷ []) (approved b ∷ log) = a ≡ b
Agrees donating (cash_in_flight a n ∷ []) (cash_in_sent b m ∷ log) = (a ≡ b) × (n ≡ m)
Agrees _ _ _ = ⊥

-- Every donation in the log was sent directly after an approval of its amount was confirmed, or
-- directly after a submission at which the allowance covered it.
abbrev pub Funded : ℤ → List Logged → Type 0
Funded a (approved b ∷ log) = a ≡ b
Funded a (submitted allowance b ∷ log) = (a ≡ b) × (at_least allowance b ≡ true)
Funded _ _ = ⊥

abbrev pub AllFunded : List Logged → Type 0
AllFunded [] = Unit
AllFunded (cash_in_sent a n ∷ log) = Funded a log × AllFunded log
AllFunded (_ ∷ log) = AllFunded log

pub record IsSound (f : Form) : Type 0 where
  pub agrees : Agrees f.step f.flights f.log
  pub funded : AllFunded f.log

module _ (parse_units : String → ℕ → Option ℤ) where
  handle-IsSound :
      (env : Env) (f : Form) (e : Event)
      → can_happen parse_units env f e ≡ true
      → IsSound f
      → IsSound (handle parse_units env f e)
  unfolding can_happen handle
  handle-IsSound env f (change_amount amount) h s = ground arith
  handle-IsSound env f (change_note note) h s = ground arith
  handle-IsSound env f submit h s = ground arith
  handle-IsSound env f approve_succeeded h s = ground arith
  handle-IsSound env f (approve_failed message) h s = ground arith
  handle-IsSound env f allowance_refetched h s = ground arith
  handle-IsSound env f cash_in_succeeded h s = ground arith
  handle-IsSound env f (cash_in_failed message) h s = ground arith
  handle-IsSound env f again h s = ground arith

  -- However the form is used, its step says what is in flight, so that one transaction at most is;
  -- and every donation was sent directly after an approval of its amount was confirmed, or directly
  -- after a submission at which the allowance covered it.
  pub form-IsSound : (f : Form) → Reachable parse_units f → IsSound f
  form-IsSound f start = record { agrees = tt; funded = tt }
  form-IsSound f (next env g e r h) = handle-IsSound env g e h (form-IsSound g r)

  -- A submission by the button is of an amount that is not zero and does not exceed the balance
  -- that the page has read: it sends the donation at once if the allowance covers that amount, and
  -- else asks for an approval of it.
  pub submit-sends :
      (env : Env) (f : Form)
      → can_happen parse_units env f submit ≡ true
      → (amount : ℤ) × (parse_donate_amount parse_units f.amount env.dec ≡ amount)
        × (is_zero amount ≡ false)
        × (exceeds amount env.balance ≡ false)
        × (((at_least env.allowance amount ≡ true)
              × ((handle parse_units env f submit).flights
                  ≡ cash_in_flight amount f.note ∷ f.flights))
            ⊎ ((at_least env.allowance amount ≡ false)
                × ((handle parse_units env f submit).flights
                    ≡ approve_flight amount f.note ∷ f.flights)))
  unfolding can_happen handle
  submit-sends env f h = (
    parse_donate_amount parse_units f.amount env.dec,
    refl,
    ground arith,
    ground arith,
    ground arith,
  )
