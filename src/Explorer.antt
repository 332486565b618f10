-- ===== src/Explorer.antt =====
-- The public list of masjids: front-end/src/app/ui.tsx. `encodeURIComponent` and the text of an
-- amount are parameters.
pub mod Laws
use text.Mathlib.Text.{◌==◌ as str_eq}
use masjid_protocol.Prelude.{
  ℕ, Bool, true, false, not, ◌&&◌, List, [], map, Option, none, some, String, Result, ok, thrown,
  length, or_else, ◌==◌, ltb, if◌then◌else◌, ◌>>=◌,
}
use masjid_protocol.Prelude.Text.{◌+++◌, slice_to, slice_last}
use masjid_protocol.Board.{Answer}

pub record MasjidSummary : Type 0 where
  pub masjid_id : String
  pub masjid_name : String
  pub status : String
  pub latest_balance : Option String
  pub total_donated : Option String
  pub total_donors : ℕ
  pub instance_addr : Option String
  pub registered_at : String

abbrev listed : Answer (List MasjidSummary) → Result String (List MasjidSummary)
listed res =
    if res.is_ok
    then (res.json >>= λ body. ok (or_else body.data_ []))
    else thrown "Gagal memuat data"

unfoldable pub fetch_masjids :
    (api_base : String)
    → (String → Result String (Answer (List MasjidSummary)))
    → Result String (List MasjidSummary)
fetch_masjids api_base fetch = fetch (api_base +++ "/public/masjids") >>= listed

pub data StatusBadge : Type 0 where
  terverifikasi menunggu bermasalah : StatusBadge
  other : String → StatusBadge

unfoldable pub status_badge : String → StatusBadge
status_badge status =
    if str_eq status "verified"
    then terverifikasi
    else if str_eq status "pending"
    then menunggu
    else if str_eq status "flagged"
    then bermasalah
    else other status

-- A card: a masjid that is not verified has no link, but a button that is disabled.
pub record Card : Type 0 where
  pub name : String
  pub badge : StatusBadge
  pub short_id : String
  pub balance : String
  pub link : Option String

-- The state of the query.
pub record Query : Type 0 where
  pub masjids : List MasjidSummary
  pub is_loading : Bool
  pub is_error : Bool

-- The four parts of the page, each with its own condition.
pub record View : Type 0 where
  pub spinner : Bool
  pub failure : Bool
  pub empty_notice : Bool
  pub cards : Option (List Card)

module _ (encode : String → String) (format_amount : Option String → String) where
  unfoldable pub card_of : MasjidSummary → Card
  unfolding status_badge slice_to slice_last
  card_of m = record {
    name = m.masjid_name;
    badge = status_badge m.status;
    short_id = slice_to 10 m.masjid_id +++ "…" +++ slice_last 8 m.masjid_id;
    balance = format_amount m.latest_balance;
    link = if str_eq m.status "verified" then some ("/masjid/" +++ encode m.masjid_id) else none;
  }

  unfoldable pub view : Query → View
  unfolding card_of
  view q = record {
    spinner = q.is_loading;
    failure = q.is_error;
    empty_notice = not q.is_loading && not q.is_error && length q.masjids == 0;
    cards =
        if not q.is_loading && not q.is_error && ltb 0 (length q.masjids)
        then some (map card_of q.masjids)
        else none;
  }
