-- ===== src/Admin/Forms.antt =====
-- The parts of the administrator's page, front-end/src/app/admin/ui.tsx: the cell of a verifier's
-- label, the form that adds a verifier, the button that removes one, and the texts of the tables.
-- The texts of dates and numbers are parameters.

use masjid_protocol.Prelude.{
  ℕ, Bool, true, false, List, map, Option, none, String, length, ◌==◌, if◌then◌else◌,
}
use masjid_protocol.Prelude.Text.{◌+++◌, is_empty}
use masjid_protocol.Utils.{shorten_addr}
use masjid_protocol.CashOut.{Progress, Button, is_busy}
use masjid_protocol.Admin.{
  MasjidRow, VerifierRow, StatusBadge, status_badge, Cell, AddForm, add_disabled,
}

-- `VerifierLabelCell`: the label with its button, or the field with the two buttons.
pub data CellView : Type 0 where
  label_shown : (text : String) → CellView
  label_edited : (text : String) → (save cancel : Button) → Option String → CellView

unfoldable pub cell_view : VerifierRow → Cell → CellView
cell_view verifier c =
    if c.editing
    then label_edited c.label (record { disabled = c.saving; spinning = c.saving })
        (record { disabled = c.saving; spinning = false }) c.error
    else label_shown (if is_empty verifier.label then "—" else verifier.label)

abbrev pub new_cell : VerifierRow → Cell
new_cell verifier = record { editing = false; label = verifier.label; saving = false; error = none }

unfoldable pub edit : Cell → Cell
edit c = record c { editing = true }

unfoldable pub type_label : String → Cell → Cell
type_label text c = record c { label = text }

-- `handleSave` up to the request: its path, and the label that it sends.
unfoldable pub start_save : VerifierRow → Cell → Cell × (String × String)
start_save verifier c = (
  record c { saving = true; error = none },
  ("/admin/verifiers/" +++ verifier.address +++ "/label", c.label),
)

-- `AddVerifierForm`: the fields take input unless the form is busy.
pub record AddView : Type 0 where
  pub succeeded : Bool
  pub error : Option String
  pub address : String
  pub label : String
  pub fields_disabled : Bool
  pub button : Button

unfoldable pub add_view : AddForm → Progress → (is_success : Bool) → AddView
add_view f write is_success = record {
  succeeded = is_success;
  error = f.error;
  address = f.address;
  label = f.label;
  fields_disabled = is_busy write;
  button = record { disabled = add_disabled f write; spinning = is_busy write };
}

unfoldable pub type_address : String → AddForm → AddForm
type_address text f = record f { address = text }

unfoldable pub type_new_label : String → AddForm → AddForm
type_new_label text f = record f { label = text }

-- `Tambah lagi`, up to the reset of the transaction.
unfoldable pub add_another : AddForm → AddForm
add_another f = record f { error = none }

unfoldable pub remove_button : Progress → Button
remove_button write = record { disabled = is_busy write; spinning = is_busy write }

pub record VerifierTexts : Type 0 where
  pub short_addr : String
  pub active : Bool
  pub added_on : String

pub record MasjidTexts : Type 0 where
  pub name : String
  pub short_admin : String
  pub badge : StatusBadge
  pub votes : String
  pub registered : String

-- A table, or its notice where it has no rows.
pub data Table (A : Type 0) : Type 0 where
  no_rows : Table A
  rows : List A → Table A

abbrev table : {A B : Type 0} → (A → B) → List A → Table B
table f list = if length list == 0 then no_rows else rows (map f list)

module _ (to_text : ℕ → String) (date : String → String) where
  abbrev verifier_texts : VerifierRow → VerifierTexts
  verifier_texts v = record {
    short_addr = shorten_addr v.address;
    active = v.is_active;
    added_on = date v.added_at;
  }

  unfoldable pub verifier_table : List VerifierRow → Table VerifierTexts
  unfolding shorten_addr
  verifier_table verifiers = table verifier_texts verifiers

  abbrev masjid_texts : MasjidRow → MasjidTexts
  masjid_texts m = record {
    name = m.masjid_name;
    short_admin = shorten_addr m.masjid_admin;
    badge = status_badge m.status;
    votes = to_text m.yes_count +++ " / " +++ to_text m.no_count;
    registered = date m.registered_at;
  }

  unfoldable pub masjid_table : List MasjidRow → Table MasjidTexts
  unfolding shorten_addr status_badge
  masjid_table masjids = table masjid_texts masjids
