-- ===== src/Tests/Cash.antt =====
-- The theorems on calls, cash-outs and proposals at concrete data.
use masjid_protocol.Contracts as Contracts
use masjid_protocol.Prelude.{
  ◌∷◌, none, false, [], List, ℕ, ◌≡◌, ◌≢◌, ◌↔◌, refl, Bool, true, Option, some, String, ok, arith,
  if◌then◌else◌, map, ◌==◌,
}
use masjid_protocol.Propose.{validate, Decimal, Values, submit}
use masjid_protocol.Board.Dashboard as Dashboard
use masjid_protocol.Board.Dashboard.{toggle_propose}
use masjid_protocol.Propose.Page.{
  Event, on_dashboard, appear, edit, settled, pending, Form, no_errors, start, handle, view,
  fields_of, label_of, menunggu_konfirmasi, is_busy,
}
use masjid_protocol.Propose.Page.Laws.{handle_all, handle_all-shown}
use masjid_protocol.Contracts.{CashOutRequest}
use masjid_protocol.CashOut.Decoding.{answers_to, row_of, cash_out_requests-answers}
use text.Mathlib.Text.{◌==◌ as str_eq}
use masjid_protocol.Prelude.Int.{pos}
use masjid_protocol.Contracts.Calls.{ProposeCashOutArgs}
use masjid_protocol.Wallet.{zero_hash}
use masjid_protocol.Tests.{rest, ready, itself}
use masjid_protocol.CashOut.{cash_out_actions, cash_out_requests, request_ids, count_from}
use masjid_protocol.CashOut.Instance.{cancel_cash_out}
use masjid_protocol.CashOut.Laws.{OffersCancel, cancel-offered_iff}

ready_made : ready.created_at ≢ 0
ready_made e = ground arith

cancel-offered_iff_example :
    OffersCancel (cash_out_actions ready 3 1000000 rest rest)
    ↔ (cancel_cash_out true ready ≡ ok (record ready { canceled = true }))
cancel-offered_iff_example = cancel-offered_iff ready 3 1000000 rest rest ready_made

-- 12.34 and 3, the only numbers here.
abbrev amount_text : Decimal
amount_text = record { mantissa = pos 1234; places = 2 }

abbrev to_number : String → Option Decimal
to_number text =
    if str_eq text "3" then some (record { mantissa = pos 3; places = 0 }) else some amount_text

abbrev any_address : String → Bool
any_address text = true

abbrev filled : Values
filled = record { to = "0xd"; amount = "12.34"; note = ""; expiry_days = "3" }

abbrev sent_proposal : ProposeCashOutArgs
sent_proposal = record {
  instance_address = "0xf";
  to = "0xd";
  amount = 1234;
  note_hash = zero_hash;
  ttl = 259200;
}

-- The contract's requests: the one under the number 2 was canceled.
abbrev held : ℕ → CashOutRequest
held id = record ready { canceled = id == 2 }

cash_out_requests-answers_example :
    (cash_out_requests (some 3) (some (answers_to held (request_ids (some 3))))).1
    ≡ map (row_of held) (count_from 1 3)
cash_out_requests-answers_example = cash_out_requests-answers held 3

-- The form is opened, filled and submitted.
abbrev filling : List Event
filling = on_dashboard toggle_propose ∷ appear ∷ edit filled no_errors ∷ Event.submit "0xf" ∷ []

abbrev closed_dashboard : Dashboard.State
closed_dashboard = record { show_propose = false; selected_id = none }

abbrev pending_form : Form
pending_form = record { values = filled; errors = no_errors; progress = pending }

waiting :
    (handle_all any_address to_number itself itself filling (start closed_dashboard)).form
    ≡ some pending_form
unfolding handle Dashboard.handle submit validate
waiting = refl

handle_all-shown_example :
    (view pending_form ≡ fields_of pending_form)
    × (label_of pending ≢ menunggu_konfirmasi)
    × ((is_busy pending ≡ true) ↔ (pending ≡ pending))
    × ((hash : String)
        → pending ≡ pending
        → ((handle any_address to_number itself itself (settled (ok hash)) (
              handle_all any_address to_number itself itself filling (start closed_dashboard))).form
            ≡ none)
          × ((handle any_address to_number itself itself (settled (ok hash)) (
                handle_all any_address to_number itself itself filling
                  (start closed_dashboard))).dashboard.show_propose
              ≡ false))
handle_all-shown_example =
    handle_all-shown any_address to_number itself itself closed_dashboard filling pending_form
      waiting
