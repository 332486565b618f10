-- ===== src/Tests/Calls.antt =====
-- The theorems on what the pages send to the wallet at concrete data.

use masjid_protocol.Prelude.{◌^◌, true, false, [], none}
use masjid_protocol.Tests.{addresses, failing, proposal, registration}
use masjid_protocol.Contracts.Calls.{
  propose_cash_out_call, execute_cash_out_call, cancel_cash_out_call, register_call,
}
use masjid_protocol.Wallet.{propose_cash_out, execute_cash_out, cancel_cash_out, register_masjid}
use masjid_protocol.Wallet.Laws.{Submitted, mutations-Submitted}
use masjid_protocol.Verifier.{Panel, Manual, QueueItem}
use masjid_protocol.Admin.{AddForm, State}
use masjid_protocol.Idrx.{compact}
use masjid_protocol.Idrx.Laws.{IsShown, compact-IsShown}

mutations-Submitted_example :
    Submitted failing (propose_cash_out_call proposal) [] (propose_cash_out failing proposal [])
    × Submitted failing (execute_cash_out_call "0xf" 3) [] (execute_cash_out failing "0xf" 3 [])
    × Submitted failing (cancel_cash_out_call "0xf" 3) [] (cancel_cash_out failing "0xf" 3 [])
    × Submitted failing
        (register_call addresses registration)
        []
        (register_masjid failing addresses registration [])
mutations-Submitted_example = mutations-Submitted failing addresses proposal registration "0xf" 3 []

abbrev panel : Panel
panel = record { queue = []; loading = false; error = none; pending_masjid_id = none }

abbrev manual : Manual
manual = record { masjid_id = "0x9"; error = none }

abbrev item : QueueItem
item = record {
  masjid_id = "0x7";
  masjid_name = "An-Nur";
  proposer = "0x1";
  attest_yes = 1;
  attest_no = 0;
  status = "pending";
  registered_at = "2025-01-01";
}

abbrev add_form : AddForm
add_form = record { address = "0x8"; label = "Ali"; error = none }

abbrev admin_state : State
admin_state = record {
  masjids = [];
  verifiers = [];
  loading = true;
  error = none;
  refresh_nonce = 0;
}

compact-IsShown_example : IsShown 123456789 (10 ^ 2) (compact 123456789 2)
compact-IsShown_example = compact-IsShown 123456789 2
