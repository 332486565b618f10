-- ===== src/Verifier.antt =====
-- The verifiers' pages, front-end/src/app/verifier/ui.tsx: the queue with its votes, the vote for a
-- masjid by its number, and the history. The states of wagmi's hooks are an argument of the views.
pub mod Laws
pub mod Tables
use text.Mathlib.Text.{◌==◌ as str_eq, starts_with}
use masjid_protocol.Prelude.{
  ℕ, Bool, true, false, not, ◌&&◌, ◌||◌, List, [], ◌∷◌, map, Option, none, some, String, Result, ok,
  thrown, or_else, length, ◌==◌, if◌then◌else◌,
}
use masjid_protocol.Abi.{Call}
use masjid_protocol.Contracts.{Addresses}
use masjid_protocol.Contracts.Calls.{attest_call}
use masjid_protocol.Wallet.{Wallet, submit, catch_mapped}
use masjid_protocol.CashOut.{Progress, Button, is_busy}
use masjid_protocol.Board.{Answer, Body}

pub record QueueItem : Type 0 where
  pub masjid_id : String
  pub masjid_name : String
  pub proposer : String
  pub attest_yes : ℕ
  pub attest_no : ℕ
  pub status : String
  pub registered_at : String

pub record HistoryItem : Type 0 where
  pub id : ℕ
  pub masjid_id : String
  pub support : Bool
  pub yes_count : ℕ
  pub no_count : ℕ
  pub attested_at : String
  pub tx_hash : String

-- The list that a panel holds after an answer: an answer that is not accepted leaves it, one that
-- fails empties it.
abbrev pub body_list : {A : Type 0} → Result String (Body (List A)) → List A
body_list (thrown e) = []
body_list (ok body) = or_else body.data_ []

unfoldable pub listed : {A : Type 0} → Result String (Answer (List A)) → List A → List A
listed (thrown e) before = []
listed (ok res) before = if res.is_ok then body_list res.json else before

-- The state of `AttestPanel`.
pub record Panel : Type 0 where
  pub queue : List QueueItem
  pub loading : Bool
  pub error : Option String
  pub pending_masjid_id : Option String

unfoldable pub load_queue : Result String (Answer (List QueueItem)) → Panel → Panel
unfolding listed
load_queue answer p = record p { queue = listed answer p.queue; loading = false }

-- The message that a handler shows at its end.
abbrev pub error_of : Result String String → Option String
error_of (ok hash) = none
error_of (thrown message) = some message

abbrev kept : String → Result String String → Option String
kept masjid_id (ok hash) = some masjid_id
kept masjid_id (thrown message) = none

-- `handleAttest` of the panel, with the transactions handed to the wallet.
unfoldable pub attest :
    Wallet
    → Addresses
    → (masjid_id : String) → (support : Bool) → Panel
    → List Call
    → Panel × List Call
unfolding submit catch_mapped
attest w a masjid_id support p log =
    let (result, later) = catch_mapped (submit w (attest_call a masjid_id support)) log in
    (record p { error = error_of result; pending_masjid_id = kept masjid_id result }, later)

-- `Attest permintaan lain`, up to the request of the queue.
unfoldable pub attest_another : Panel → Panel
attest_another p = record p { pending_masjid_id = none; error = none; loading = true }

abbrev pub is_pending_id : Option String → String → Bool
is_pending_id none masjid_id = false
is_pending_id (some pending) masjid_id = str_eq pending masjid_id

-- The two buttons of an item.
unfoldable pub attest_button : Panel → Progress → QueueItem → Button
attest_button p write item = record {
  disabled = is_busy write;
  spinning = write.is_pending && is_pending_id p.pending_masjid_id item.masjid_id;
}

pub data QueueView : Type 0 where
  loading_queue empty_queue : QueueView
  items : List (QueueItem × Button) → QueueView

unfoldable pub queue_view : Panel → Progress → QueueView
unfolding attest_button
queue_view p write =
    if p.loading
    then loading_queue
    else if length p.queue == 0
    then empty_queue
    else items (map (λ item. (item, attest_button p write item)) p.queue)

-- The state of `ManualAttestForm`.
pub record Manual : Type 0 where
  pub masjid_id : String
  pub error : Option String

abbrev pub manual_disabled : Manual → Progress → Bool
manual_disabled f write = not (starts_with f.masjid_id "0x") || is_busy write

unfoldable pub manual_attest :
    Wallet → Addresses → (support : Bool) → Manual → List Call → Manual × List Call
unfolding submit catch_mapped
manual_attest w a support f log =
    let (result, later) = catch_mapped (submit w (attest_call a f.masjid_id support)) log in
    if not (starts_with f.masjid_id "0x")
    then (f, log)
    else (record f { error = error_of result }, later)

-- `HistoryPanel`.
pub record History : Type 0 where
  pub history : List HistoryItem
  pub loading : Bool

unfoldable pub load_history : Result String (Answer (List HistoryItem)) → History → History
unfolding listed
load_history answer h = record { history = listed answer h.history; loading = false }
