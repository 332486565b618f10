-- ===== src/Donate.antt =====
-- The donation form: front-end/src/app/masjid/[id]/components/DonateForm.tsx, with
-- `parseDonateAmount` of front-end/src/lib/utils.ts. The form is a state with a handler for each
-- event; what it has handed to the wallet, and what came of it, is kept in a log, the newest first.
-- viem's `parseUnits` is a parameter, `none` where it throws; it reads "-1" as a negative number.
pub mod Laws
pub mod Negative
use masjid_protocol.Prelude.{
  ◌≡◌, ℕ, Bool, true, false, not, ◌&&◌, ◌||◌, List, [], ◌∷◌, Option, none, some, String, is_some,
  or_else, if◌then◌else◌,
}
use masjid_protocol.Prelude.Int.{ℤ, pos, is_zero, at_least, exceeds}
use masjid_protocol.Prelude.Text.{is_empty}

pub data Step : Type 0 where
  idle approving donating done : Step

-- A mutation that has not settled, with the amount and the note that its closure holds; a
-- `refetching` one waits for `refetchAllowance` after an approval.
pub data Flight : Type 0 where
  approve_flight refetching cash_in_flight : ℤ → String → Flight

pub data Logged : Type 0 where
  submitted : (allowance : ℕ) → ℤ → Logged
  approve_sent approved : ℤ → Logged
  cash_in_sent : ℤ → (note : String) → Logged

-- `flights` are the mutations in flight, the newest first: a mutation that is handed over while
-- another one is in flight does not end that one.
pub record Form : Type 0 where
  pub amount : String
  pub note : String
  pub step : Step
  pub error : Option String
  pub flights : List Flight
  pub log : List Logged

-- What the page reads from the wallet and the token: `useAccount` and `useTokenInfo`.
pub record Env : Type 0 where
  pub user_addr : Option String
  pub dec : ℕ
  pub balance : ℕ
  pub allowance : ℕ

pub data Event : Type 0 where
  change_amount change_note : String → Event
  submit approve_succeeded allowance_refetched cash_in_succeeded again : Event
  approve_failed cash_in_failed : (message : String) → Event

abbrev pub init : Form
init = record { amount = ""; note = ""; step = idle; error = none; flights = []; log = [] }

abbrev pub is_idle : Step → Bool
is_idle idle = true
is_idle _ = false

abbrev pub is_done : Step → Bool
is_done done = true
is_done _ = false

module _ (parse_units : String → ℕ → Option ℤ) where
  unfoldable pub parse_donate_amount : String → ℕ → ℤ
  parse_donate_amount amount dec =
      if is_empty amount then pos 0 else or_else (parse_units amount dec) (pos 0)

  -- `isOverBalance`.
  unfoldable pub is_over_balance : Env → Form → Bool
  unfolding parse_donate_amount
  is_over_balance env f =
      is_some env.user_addr && exceeds (parse_donate_amount f.amount env.dec) env.balance

  -- The `disabled` of the button that submits.
  unfoldable pub submit_disabled : Env → Form → Bool
  unfolding is_over_balance
  submit_disabled env f =
      is_zero (parse_donate_amount f.amount env.dec)
      || not (is_idle f.step)
      || is_over_balance env f

  -- `cashIn.mutate({ instanceAddr, amount: parsedAmount, note }, …)` and `setStep("donating")`.
  send_cash_in : ℤ → String → Form → Form
  send_cash_in amount note f = record f {
    step = donating;
    flights = cash_in_flight amount note ∷ f.flights;
    log = cash_in_sent amount note ∷ f.log;
  }

  -- `approve.mutate(…)` and `setStep("approving")`.
  send_approve : ℤ → String → Form → Form
  send_approve amount note f = record f {
    step = approving;
    flights = approve_flight amount note ∷ f.flights;
    log = approve_sent amount ∷ f.log;
  }

  unfoldable pub handle_submit : Env → Form → Form
  unfolding send_cash_in send_approve parse_donate_amount
  handle_submit env f =
      let parsed = parse_donate_amount f.amount env.dec in
      if is_zero parsed || not (is_some env.user_addr)
      then f
      else let asked = record f { error = none; log = submitted env.allowance parsed ∷ f.log } in
        if at_least env.allowance parsed
        then send_cash_in parsed f.note asked
        else send_approve parsed f.note asked

  -- The mutations without the newest, which settles: the form hears of no older one.
  abbrev landed : List Flight → List Flight
  landed [] = []
  landed (flight ∷ flights) = flights

  -- `setError(err.message); setStep("idle")`.
  abbrev fail : String → Form → Form
  fail message f = record f { error = some message; step = idle; flights = landed f.flights }

  -- `onSuccess` of the approval, up to its `await refetchAllowance()`, and the rest of it.
  on_approved : List Flight → Form → Form
  on_approved (approve_flight amount note ∷ flights) f = record f {
    flights = refetching amount note ∷ flights;
    log = approved amount ∷ f.log;
  }
  on_approved _ f = f

  on_refetched : List Flight → Form → Form
  unfolding send_cash_in
  on_refetched (refetching amount note ∷ flights) f =
      send_cash_in amount note (record f { flights = flights })
  on_refetched _ f = f

  unfoldable pub handle : Env → Form → Event → Form
  unfolding handle_submit on_approved on_refetched
  handle env f (change_amount amount) = record f { amount = amount }
  handle env f (change_note note) = record f { note = note }
  handle env f submit = handle_submit env f
  handle env f approve_succeeded = on_approved f.flights f
  handle env f (approve_failed message) = fail message f
  handle env f allowance_refetched = on_refetched f.flights f
  handle env f cash_in_succeeded = record f { step = done; flights = landed f.flights }
  handle env f (cash_in_failed message) = fail message f
  handle env f again = record f { amount = ""; note = ""; step = idle; error = none }

  abbrev is_approve_flight : List Flight → Bool
  is_approve_flight (approve_flight amount note ∷ flights) = true
  is_approve_flight _ = false

  abbrev is_refetching : List Flight → Bool
  is_refetching (refetching amount note ∷ flights) = true
  is_refetching _ = false

  abbrev is_cash_in_flight : List Flight → Bool
  is_cash_in_flight (cash_in_flight amount note ∷ flights) = true
  is_cash_in_flight _ = false

  -- The events that can happen: the inputs are disabled unless the form is idle, the button is as
  -- above and only there with a wallet, a mutation settles only while it is in flight, and the
  -- button to start again stands on the page that follows a donation.
  unfoldable pub can_happen : Env → Form → Event → Bool
  unfolding submit_disabled
  can_happen env f (change_amount amount) = is_idle f.step
  can_happen env f (change_note note) = is_idle f.step
  can_happen env f submit =
      not (is_done f.step) && is_some env.user_addr && not (submit_disabled env f)
  can_happen env f approve_succeeded = is_approve_flight f.flights
  can_happen env f (approve_failed message) = is_approve_flight f.flights
  can_happen env f allowance_refetched = is_refetching f.flights
  can_happen env f cash_in_succeeded = is_cash_in_flight f.flights
  can_happen env f (cash_in_failed message) = is_cash_in_flight f.flights
  can_happen env f again = is_done f.step

  -- A form that has been used: at each event the page has read some balance and allowance.
  pub data Reachable : Form → Type 0 where
    start : Reachable init
    next :
        (env : Env) (f : Form) (e : Event)
        → Reachable f
        → can_happen env f e ≡ true
        → Reachable (handle env f e)

-- The labels of the button.
pub data Label : Type 0 where
  confirm_approve awaiting_approve confirm_transaction awaiting_confirmation send : Label

unfoldable pub button_label : Step → (approve_pending cash_in_pending : Bool) → Label
button_label approving true cash_in_pending = confirm_approve
button_label approving false cash_in_pending = awaiting_approve
button_label donating approve_pending true = confirm_transaction
button_label donating approve_pending false = awaiting_confirmation
button_label _ approve_pending cash_in_pending = send
