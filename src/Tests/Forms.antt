-- ===== src/Tests/Forms.antt =====
-- The theorems on the registration and on the dashboard at concrete data.

use masjid_protocol.Prelude.Text.{◌+++◌, slice_from}
use masjid_protocol.Prelude.{
  ℕ, ◌≡◌, ◌↔◌, refl, Bool, true, false, [], ◌∷◌, none, some, String, ok, thrown, List, Option, map,
  ◌+◌,
}
use masjid_protocol.Tests.{itself, addresses, rest}
use masjid_protocol.Contracts.Calls.{RegisterMasjidArgs}
use masjid_protocol.CashOut.{Row, Progress}
use masjid_protocol.Register.{Values, PinResponse, Pinning, validate, no_errors, on_submit}
use masjid_protocol.Register.Laws.{IsComplete, no_errors_iff}
use masjid_protocol.Register.Submit.{Sent, on_submit-Sent}
use masjid_protocol.Board.{MasjidInfo, InstanceReads, Cache, selected_masjid}
use masjid_protocol.Board.Masjids as Masjids
use masjid_protocol.Board.Masjids.{dashboard_link}
use masjid_protocol.Board.Masjids.Laws.{card-Shown}
use masjid_protocol.Register.Page as RegisterPage
use masjid_protocol.Register.Page.{Mutation, Event, choose_foto, submit, uploaded, start}
use masjid_protocol.Register.Page.Laws.{
  Step, AreAllowed, submissions, ends, registrations, in_flight, handle_all, handle_all-Uploaded,
}
use masjid_protocol.Board.Dashboard.{State, Dashboard, view, shown}

abbrev any_address : String → Bool
any_address text = true

abbrev values : Values
values = record {
  name = "Al-Ikhlas";
  alamat = "Jalan Raya 1";
  board_members =
      record { address = "0x1"; member_name = some "Umar" }
      ∷ record { address = "0x2"; member_name = none }
      ∷ [];
}

no_errors_iff_example :
    (no_errors (validate any_address itself values) ≡ true) ↔ IsComplete any_address itself values
no_errors_iff_example = no_errors_iff any_address itself values

abbrev answer : PinResponse
answer = record { is_ok = true; status_text = "OK"; ipfs_hash = ok "Qm" }

abbrev pinning : Pinning String
pinning = record { pin_file = λ file. ok answer; pin_json = λ json. ok answer }

abbrev registered : RegisterMasjidArgs
registered = record {
  name = "Al-Ikhlas";
  metadata_uri = "ipfs://Qm";
  stablecoin = "0xc";
  board_members = "0x1" ∷ "0x2" ∷ [];
}

submitted_registration : on_submit pinning itself addresses values (some "foto") ≡ ok registered
unfolding on_submit
submitted_registration = refl

on_submit-Sent_example : Sent pinning itself addresses values (some "foto") registered
on_submit-Sent_example =
    on_submit-Sent pinning itself addresses values (some "foto") registered submitted_registration

abbrev resting : Row → Progress × Progress
resting r = (rest, rest)

abbrev first_masjid : MasjidInfo
first_masjid = record {
  masjid_id = "0x11";
  masjid_name = "An-Nur";
  instance_addr = "0xf1";
  vault_addr = "0xf1";
  status = "verified";
}

abbrev second_masjid : MasjidInfo
second_masjid = record first_masjid { masjid_id = "0x12"; instance_addr = "0xf2" }

-- Nothing of the contracts has been read.
abbrev reads : InstanceReads
reads = record {
  instance_status = none;
  cash_out_threshold = none;
  board_member_count = none;
  cash_out_nonce = none;
  stablecoin_address = none;
  raw_balance = none;
  loading_instance = true;
}

abbrev cache : Cache
cache = record {
  masjids = some (first_masjid ∷ second_masjid ∷ []);
  is_loading = false;
  error = none;
  instances = λ address. reads;
  tokens = λ address. record { decimals = none; symbol = none };
  cash_outs = λ address. none;
}

abbrev compacted : ℕ → String
compacted raw = "Rp"

abbrev localized : ℕ → ℕ → String
localized raw decimals = "Rp"

abbrev state : State
state = record { show_propose = true; selected_id = none }

second_selected :
    selected_masjid (some (first_masjid ∷ second_masjid ∷ [])) (some "0x12") ≡ some second_masjid
unfolding selected_masjid
second_selected = refl

-- The only parameter of the links here.
abbrev get_param : String → String → Option String
get_param link name = some (slice_from 27 link)

link_read : get_param ("/board/dashboard?masjid_id=" +++ "0x12") "masjid_id" ≡ some "0x12"
unfolding slice_from
link_read = refl

card-Shown_example :
    (Masjids.view cache.masjids cache.is_loading cache.error
      ≡ Masjids.cards (map Masjids.card_of (first_masjid ∷ second_masjid ∷ [])))
    × ((Masjids.card_of second_masjid).link ≡ "/board/dashboard?masjid_id=" +++ "0x12")
    × ((d : Dashboard) × (view 0 resting compacted localized cache
            (Masjids.open_dashboard get_param (Masjids.card_of second_masjid).link)
          ≡ shown d)
        × (d.masjid.masjid_id ≡ "0x12"))
card-Shown_example =
    card-Shown 0 resting compacted localized get_param cache first_masjid (second_masjid ∷ [])
      second_masjid refl refl refl refl refl link_read

abbrev quiet_mutation : Mutation
quiet_mutation = record {
  is_pending = false;
  is_confirming = false;
  is_confirmed = false;
  error = none;
  data_ = none;
}

abbrev at : Event String → Step String
at event = record { is_connected = true; mutation = quiet_mutation; event = event }

-- The first submission fails to upload, the second one does not.
abbrev attempts : List (Step String)
attempts =
    at (choose_foto (some "foto"))
    ∷ at submit
    ∷ at (uploaded (thrown "offline"))
    ∷ at submit
    ∷ at (uploaded (ok registered))
    ∷ []

attempts_allowed : AreAllowed attempts start
unfolding RegisterPage.handle
attempts_allowed = (refl, (refl, (refl, (refl, (refl, tt)))))

handle_all-Uploaded_example :
    (submissions attempts ≡ in_flight (handle_all attempts start) + ends attempts)
    × ((handle_all attempts start).mutated ≡ registrations attempts)
handle_all-Uploaded_example = handle_all-Uploaded attempts attempts_allowed
