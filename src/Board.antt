-- ===== src/Board.antt =====
-- What the board's pages read: the requests of front-end/src/app/board/api.ts, and
-- `useInstanceContracts`, `useTokenInfo` and the selection of the masjid in `useBoardDashboard` of
-- front-end/src/app/board/hooks.ts. What react-query and wagmi hold is a record, `Cache`.
pub mod Dashboard
pub mod Masjids
pub mod Cards
use text.Mathlib.Text.{◌==◌ as str_eq}
use masjid_protocol.Prelude.{
  ℕ, zero, suc, ◌+◌, ◌*◌, ◌/◌, Bool, true, false, not, ◌&&◌, ◌||◌, List, [], ◌∷◌, map, Option, none,
  some, String, Result, ok, thrown, ltb, leb, ◌==◌, length, find, is_some, or_else, if◌then◌else◌,
  ◌>>=◌,
}
use masjid_protocol.Prelude.Text.{◌+++◌, is_empty}
use masjid_protocol.Prelude.Rounding.{nearest}
use masjid_protocol.Abi.{Value}
use masjid_protocol.Contracts.{
  CashOutRequest, InstanceVerificationStatus, verified, instance_status,
}
use masjid_protocol.Auth.{session_of}
use masjid_protocol.CashOut.{
  Row, StatusBadge, Progress, Actions, cash_out_requests, cash_out_status_badge, cash_out_actions,
}

pub record MasjidInfo : Type 0 where
  pub masjid_id : String
  pub masjid_name : String
  pub instance_addr : String
  pub vault_addr : String
  pub status : String

-- An answer of the server, whose body has an error or data.
pub record Body (A : Type 0) : Type 0 where
  pub error : Option String
  pub data_ : Option A

pub record Answer (A : Type 0) : Type 0 where
  pub is_ok : Bool
  pub json : Result String (Body A)

abbrev fetched : {A : Type 0} → (failure : String) → (absent : A) → Answer A → Result String A
fetched failure absent res =
    if res.is_ok
    then (res.json >>= λ body. ok (or_else body.data_ absent))
    else (res.json >>= λ err. thrown (or_else err.error failure))

-- The three requests; `api_fetch` answers a path, and a query's value is encoded by `encode`.
unfoldable pub fetch_board_masjid :
    (String → Result String (Answer (List MasjidInfo))) → Result String (List MasjidInfo)
fetch_board_masjid api_fetch = do
  res ← api_fetch "/board/masjid"
  fetched "Gagal memuat data masjid" [] res

-- A text that is absent or empty is not sent.
abbrev pub given : Option String → Option String
given none = none
given (some id) = if is_empty id then none else some id

abbrev donations_path : (encode : String → String) → (limit : String) → Option String → String
donations_path encode limit none = "/board/donations?limit=" +++ limit
donations_path encode limit (some id) =
    "/board/donations?limit=" +++ limit +++ "&masjid_id=" +++ encode id

unfoldable pub fetch_board_donations :
    {Record : Type 0}
    → (String → Result String (Answer (List Record)))
    → (encode : String → String) → (masjid_id : Option String) → (limit : String)
    → Result String (List Record)
fetch_board_donations api_fetch encode masjid_id limit = do
  res ← api_fetch (donations_path encode limit (given masjid_id))
  fetched "Gagal memuat riwayat infaq" [] res

abbrev stats_query : Option String → String
stats_query none = ""
stats_query (some id) = "?masjid_id=" +++ id

unfoldable pub fetch_board_stats :
    {Stats : Type 0}
    → (String → Result String (Answer (Option Stats)))
    → (masjid_id : Option String) → Result String (Option Stats)
fetch_board_stats api_fetch masjid_id = do
  res ← api_fetch ("/board/stats" +++ stats_query (given masjid_id))
  fetched "Gagal memuat statistik" none res

-- What the reads of the contracts have answered; `useInstanceContracts` and `useTokenInfo`.
pub record InstanceReads : Type 0 where
  pub instance_status : Option ℕ
  pub cash_out_threshold : Option ℕ
  pub board_member_count : Option ℕ
  pub cash_out_nonce : Option ℕ
  pub stablecoin_address : Option String
  pub raw_balance : Option ℕ
  pub loading_instance : Bool

pub record TokenReads : Type 0 where
  pub decimals : Option ℕ
  pub symbol : Option String

-- What react-query and wagmi hold, by the contract's address; a token is read once its address is
-- known.
pub record Cache : Type 0 where
  pub masjids : Option (List MasjidInfo)
  pub is_loading : Bool
  pub error : Option String
  pub instances : String → InstanceReads
  pub tokens : Option String → TokenReads
  pub cash_outs : String → Option (List (Option (List Value)))

-- `masjids ? (selectedMasjidId ? find : masjids[0]) ?? null : null`.
abbrev first : List MasjidInfo → Option MasjidInfo
first [] = none
first (m ∷ ms) = some m

abbrev chosen : Option String → List MasjidInfo → Option MasjidInfo
chosen none masjids = first masjids
chosen (some id) masjids = find (λ (m : MasjidInfo). str_eq m.masjid_id id) masjids

unfoldable pub selected_masjid : Option (List MasjidInfo) → Option String → Option MasjidInfo
selected_masjid none selected = none
selected_masjid (some masjids) selected = chosen (given selected) masjids

-- The texts of amounts: `format_compact` stands for `formatIDRXCompact` with its own decimals, and
-- `localized` for `parseFloat(formatUnits(…)).toLocaleString(…)`.
module _ (format_compact : ℕ → String) (localized : (raw decimals : ℕ) → String) where
  abbrev pub formatted_balance : Option ℕ → (decimals : ℕ) → (symbol : String) → String
  formatted_balance none decimals symbol = "—"
  formatted_balance (some raw) decimals symbol =
      if str_eq symbol "IDRX" then format_compact raw else localized raw decimals +++ " " +++ symbol

abbrev pub is_verified_status : Option ℕ → Bool
is_verified_status none = false
is_verified_status (some n) = n == 1
