-- ===== src/Propose/Page.antt =====
-- The form of a proposal on the board's dashboard, `ProposeCashOutForm` of front-end/src/app/board/ui.tsx
-- with its place in `BoardDashboardInner`, as a state machine. What react-hook-form makes of a change
-- of a field is an argument of that event, and so are the ends of the mutation and of the wait for
-- the receipt.
pub mod Laws
use masjid_protocol.Prelude.{
  Bool, true, false, not, ◌&&◌, ◌||◌, List, [], ◌∷◌, ◌++◌, Option, none, some, String, Result, ok,
  thrown, if◌then◌else◌,
}
use masjid_protocol.Contracts.Calls.{ProposeCashOutArgs}
use masjid_protocol.Propose as Propose
use masjid_protocol.Propose.{Decimal, Values, Errors}
use masjid_protocol.Board.Dashboard as Dashboard

-- The mutation, and after it the wait for the receipt of its transaction.
pub data Progress : Type 0 where
  idle pending : Progress
  failed : (message : String) → Progress
  confirming confirmed unconfirmed : (hash : String) → Progress

abbrev pub is_busy : Progress → Bool
is_busy pending = true
is_busy (confirming hash) = true
is_busy _ = false

abbrev pub error_of : Progress → Option String
error_of (failed message) = some message
error_of _ = none

pub record Form : Type 0 where
  pub values : Values
  pub errors : Errors
  pub progress : Progress

-- What `reset` and a new form have.
abbrev pub default_values : Values
default_values = record { to = ""; amount = ""; note = ""; expiry_days = "3" }

abbrev pub no_errors : Errors
no_errors = record { to = none; amount = none; expiry_days = none }

abbrev pub new_form : Form
new_form = record { values = default_values; errors = no_errors; progress = idle }

-- `mutated` are the proposals that were handed to the mutations of the forms, one after the other.
pub record Page : Type 0 where
  pub dashboard : Dashboard.State
  pub form : Option Form
  pub mutated : List ProposeCashOutArgs

-- The dashboard before it has a form.
abbrev pub start : Dashboard.State → Page
start dashboard = record { dashboard = dashboard; form = none; mutated = [] }

-- The form is put on the page, or taken away with the dashboard around it while that loads.
pub data Event : Type 0 where
  appear vanish : Event
  on_dashboard : Dashboard.Event → Event
  edit : Values → Errors → Event
  submit : (instance_address : String) → Event
  settled : Result String String → Event
  received : (success : Bool) → Event

-- The dashboard without the form has no form.
abbrev pub shown_on : Dashboard.State → Option Form → Option Form
shown_on dashboard form = if dashboard.show_propose then form else none

abbrev pub with_dashboard : Dashboard.State → Page → Page
with_dashboard dashboard p = record p { dashboard = dashboard; form = shown_on dashboard p.form }

abbrev pub appeared : Dashboard.State → Option Form → Option Form
appeared dashboard none = shown_on dashboard (some new_form)
appeared dashboard (some f) = some f

-- The fields and the button are there and not disabled.
abbrev pub is_open : Progress → Bool
is_open idle = true
is_open (failed message) = true
is_open (unconfirmed hash) = true
is_open _ = false

abbrev pub edited : Values → Errors → Form → Form
edited values errors f =
    if is_open f.progress then record f { values = values; errors = errors } else f

abbrev pub submitted : Page → Form → Result Errors ProposeCashOutArgs → Page
submitted p f (thrown errors) = record p { form = some (record f { errors = errors }) }
submitted p f (ok args) = record p {
  form = some (record f { errors = no_errors; progress = pending });
  mutated = p.mutated ++ args ∷ [];
}

-- The end of the mutation: its error, or the hash, `reset`, and `onSuccess`.
abbrev pub ended : Result String String → Page → Form → Page
ended (thrown message) p f = record p { form = some (record f { progress = failed message }) }
ended (ok hash) p f = with_dashboard (Dashboard.handle Dashboard.proposed p.dashboard) (record p {
  form = some (record { values = default_values; errors = no_errors; progress = confirming hash });
})

abbrev pub settled_at : Result String String → Page → Form → Progress → Page
settled_at result p f pending = ended result p f
settled_at result p f _ = p

abbrev pub received_at : (success : Bool) → Progress → Progress
received_at success (confirming hash) = if success then confirmed hash else unconfirmed hash
received_at success progress = progress

module _ (is_address : String → Bool) (to_number : String → Option Decimal)
    (trim keccak : String → String) where
  abbrev pub submit_at : String → Page → Form → Page
  submit_at instance_address p f =
      if is_open f.progress
      then submitted p f (Propose.submit is_address to_number trim keccak instance_address f.values)
      else p

  abbrev pub handle_form : Event → Page → Form → Page
  handle_form (edit values errors) p f = record p { form = some (edited values errors f) }
  handle_form (submit instance_address) p f = submit_at instance_address p f
  handle_form (settled result) p f = settled_at result p f f.progress
  handle_form (received success) p f = record p {
    form = some (record f { progress = received_at success f.progress });
  }
  handle_form _ p f = p

  abbrev pub if_form : Event → Page → Option Form → Page
  if_form event p none = p
  if_form event p (some f) = handle_form event p f

  -- An event that cannot happen changes nothing.
  unfoldable pub handle : Event → Page → Page
  unfolding Dashboard.handle
  handle appear p = record p { form = appeared p.dashboard p.form }
  handle vanish p = record p { form = none }
  handle (on_dashboard event) p = with_dashboard (Dashboard.handle event p.dashboard) p
  handle event p = if_form event p p.form

pub data Label : Type 0 where
  konfirmasi_di_wallet menunggu_konfirmasi ajukan_pengeluaran : Label

pub record Fields : Type 0 where
  pub values : Values
  pub errors : Errors
  pub error : Option String
  pub disabled : Bool
  pub label : Label

pub data View : Type 0 where
  pengajuan_berhasil : View
  fields : Fields → View

abbrev pub label_of : Progress → Label
label_of pending = konfirmasi_di_wallet
label_of (confirming hash) = menunggu_konfirmasi
label_of _ = ajukan_pengeluaran

abbrev pub fields_of : Form → View
fields_of f = fields (record {
  values = f.values;
  errors = f.errors;
  error = error_of f.progress;
  disabled = is_busy f.progress;
  label = label_of f.progress;
})

abbrev pub view_at : Form → Progress → View
view_at f (confirmed hash) = pengajuan_berhasil
view_at f _ = fields_of f

unfoldable pub view : Form → View
view f = view_at f f.progress
