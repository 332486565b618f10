-- ===== src/Verifier/Tables.antt =====
-- What the verifiers' pages, front-end/src/app/verifier/ui.tsx, show of an item of the queue and of
-- the history, and the form of the vote by number. The texts of dates and numbers are parameters.

use masjid_protocol.Prelude.{ℕ, Bool, List, map, Option, String, length, ◌==◌, if◌then◌else◌}
use masjid_protocol.Prelude.Text.{◌+++◌}
use masjid_protocol.Utils.{shorten_addr}
use masjid_protocol.CashOut.{Progress, is_busy}
use masjid_protocol.Verifier.{QueueItem, HistoryItem, History, Manual, manual_disabled}

pub record ItemTexts : Type 0 where
  pub name : String
  pub short_id : String
  pub votes : String
  pub registered : String

pub data Decision : Type 0 where
  disetujui ditolak : Decision

pub record HistoryRow : Type 0 where
  pub short_id : String
  pub decision : Decision
  pub votes : String
  pub attested : String

pub data HistoryView : Type 0 where
  loading_history empty_history : HistoryView
  rows : List HistoryRow → HistoryView

module _ (to_text : ℕ → String) (date short_date : String → String) where
  unfoldable pub item_texts : QueueItem → ItemTexts
  unfolding shorten_addr
  item_texts item = record {
    name = item.masjid_name;
    short_id = shorten_addr item.masjid_id;
    votes = "✅ " +++ to_text item.attest_yes +++ " · ❌ " +++ to_text item.attest_no;
    registered = short_date item.registered_at;
  }

  unfoldable pub history_row : HistoryItem → HistoryRow
  unfolding shorten_addr
  history_row item = record {
    short_id = shorten_addr item.masjid_id;
    decision = if item.support then disetujui else ditolak;
    votes = to_text item.yes_count +++ " / " +++ to_text item.no_count;
    attested = date item.attested_at;
  }

  unfoldable pub history_view : History → HistoryView
  unfolding history_row
  history_view h =
      if h.loading
      then loading_history
      else if length h.history == 0
      then empty_history
      else rows (map history_row h.history)

-- The form of the vote by number: a field, and two buttons that are disabled together, the first
-- of which spins while the vote is under way.
pub record ManualView : Type 0 where
  pub sent : Bool
  pub error : Option String
  pub masjid_id : String
  pub field_disabled : Bool
  pub buttons_disabled : Bool
  pub spinning : Bool

unfoldable pub manual_view : Manual → Progress → (is_success : Bool) → ManualView
manual_view f write is_success = record {
  sent = is_success;
  error = f.error;
  masjid_id = f.masjid_id;
  field_disabled = is_busy write;
  buttons_disabled = manual_disabled f write;
  spinning = is_busy write;
}

unfoldable pub type_masjid_id : String → Manual → Manual
type_masjid_id text f = record f { masjid_id = text }
