-- ===== src/Admin.antt =====
-- The administrator's page, front-end/src/app/admin/ui.tsx: the list of masjids and verifiers, the
-- label of a verifier, and adding and removing one. The states of wagmi's hooks are an argument of
-- the views.
pub mod Laws
pub mod Forms
use text.Mathlib.Text.{◌==◌ as str_eq, starts_with}
use masjid_protocol.Prelude.{
  ℕ, suc, Bool, true, false, not, ◌&&◌, ◌||◌, List, [], ◌∷◌, map, Option, none, some, String,
  Result, ok, thrown, or_else, length, keep, ◌==◌, if◌then◌else◌, ◌>>=◌,
}
use masjid_protocol.Prelude.Text.{◌+++◌, is_empty}
use masjid_protocol.Abi.{Call}
use masjid_protocol.Contracts.{Addresses}
use masjid_protocol.Contracts.Calls.{add_verifier_call, remove_verifier_call}
use masjid_protocol.Wallet.{Wallet, submit, catch_mapped}
use masjid_protocol.CashOut.{Progress, is_busy}
use masjid_protocol.Board.{Answer, Body}
use masjid_protocol.Verifier.{error_of}

pub record MasjidRow : Type 0 where
  pub masjid_id : String
  pub masjid_name : String
  pub masjid_admin : String
  pub status : String
  pub yes_count : ℕ
  pub no_count : ℕ
  pub registered_at : String

pub record VerifierRow : Type 0 where
  pub address : String
  pub label : String
  pub is_active : Bool
  pub added_at : String

pub record State : Type 0 where
  pub masjids : List MasjidRow
  pub verifiers : List VerifierRow
  pub loading : Bool
  pub error : Option String
  pub refresh_nonce : ℕ

unfoldable pub refresh : State → State
refresh s = record s { refresh_nonce = suc s.refresh_nonce; loading = true }

-- The body of an answer: the code does not look at the answer's status here.
abbrev body_of : {A : Type 0} → Result String (Answer A) → Result String (Body A)
body_of answer = answer >>= λ res. res.json

-- The end of the effect that runs after `refresh`: both answers, or the message of a failure. If
-- both requests fail, that of the masjids stands for the one that the code meets first.
unfoldable pub loaded :
    Result String (Answer (List MasjidRow))
    → Result String (Answer (List VerifierRow))
    → State
    → State
loaded masjid_answer verifier_answer s = elim (body_of masjid_answer) [
  | thrown message ↦ record s { error = some message; loading = false }
  | ok masjid_res ↦ elim (body_of verifier_answer) [
    | thrown message ↦ record s { error = some message; loading = false }
    | ok verifier_res ↦ record s {
      masjids = or_else masjid_res.data_ [];
      verifiers = or_else verifier_res.data_ [];
      loading = false;
    }
  ]
]

pub data StatusBadge : Type 0 where
  terverifikasi menunggu bermasalah : StatusBadge
  other : String → StatusBadge

unfoldable pub status_badge : String → StatusBadge
status_badge status =
    if str_eq status "verified"
    then terverifikasi
    else if str_eq status "pending"
    then menunggu
    else if str_eq status "flagged"
    then bermasalah
    else other status

-- The page: the three counts and the two tables; a verifier has a button to remove it while it is
-- active.
pub record Tables : Type 0 where
  pub total_masjids : ℕ
  pub waiting : ℕ
  pub active_verifiers : ℕ
  pub verifier_rows : List (VerifierRow × Bool)
  pub masjid_rows : List (MasjidRow × StatusBadge)

pub data View : Type 0 where
  loading_data : View
  failed : String → View
  tables : Tables → View

abbrev page : State → Option String → View
page s (some message) = failed message
page s none = tables (record {
  total_masjids = length s.masjids;
  waiting = length (keep (λ (m : MasjidRow). str_eq m.status "pending") s.masjids);
  active_verifiers = length (keep (λ (v : VerifierRow). v.is_active) s.verifiers);
  verifier_rows = map (λ (v : VerifierRow). (v, v.is_active)) s.verifiers;
  masjid_rows = map (λ (m : MasjidRow). (m, status_badge m.status)) s.masjids;
})

unfoldable pub view : State → View
unfolding status_badge
view s = if s.loading then loading_data else page s s.error

-- The state of `VerifierLabelCell`.
pub record Cell : Type 0 where
  pub editing : Bool
  pub label : String
  pub saving : Bool
  pub error : Option String

-- `handleSave` up to its end, given the server's answer, with the number of calls of `onUpdated`.
abbrev save_result : Result String (Answer (Unit {0})) → Result String (Unit {0})
save_result answer = do
  res ← answer
  if res.is_ok then ok tt else (res.json >>= λ err. thrown (or_else err.error "Gagal menyimpan"))

unfoldable pub handle_save : Result String (Answer (Unit {0})) → Cell → Cell × ℕ
handle_save answer c = elim (save_result answer) [
  | ok u ↦ (record c { editing = false; saving = false; error = none }, 1)
  | thrown message ↦ (record c { saving = false; error = some message }, 0)
]

-- `Batal`.
unfoldable pub cancel_edit : VerifierRow → Cell → Cell
cancel_edit verifier c = record c { editing = false; label = verifier.label }

-- The state of `AddVerifierForm`.
pub record AddForm : Type 0 where
  pub address : String
  pub label : String
  pub error : Option String

abbrev pub add_disabled : AddForm → Progress → Bool
add_disabled f write = not (starts_with f.address "0x") || is_busy write

unfoldable pub handle_add : Wallet → Addresses → AddForm → List Call → AddForm × List Call
unfolding submit catch_mapped
handle_add w a f log =
    let (result, later) = catch_mapped (submit w (add_verifier_call a f.address f.label)) log in
    if not (starts_with f.address "0x")
    then (f, log)
    else (record f { error = error_of result }, later)

-- The effect of a confirmed transaction, up to the call of `onSuccess`.
unfoldable pub added : AddForm → AddForm
added f = record f { address = ""; label = "" }

-- `handleRemove` of `RemoveVerifierButton`, whose state is its message.
unfoldable pub handle_remove :
    Wallet → Addresses → (address : String) → List Call → Option String × List Call
unfolding submit catch_mapped
handle_remove w a address log =
    let (result, later) = catch_mapped (submit w (remove_verifier_call a address)) log in
    (error_of result, later)
