-- ===== src/Board/Masjids.antt =====
-- The board's list of masjids: `BoardMasjidList` of front-end/src/app/board/page.tsx, and the page
-- of one of them, front-end/src/app/board/dashboard/page.tsx.
pub mod Laws
use text.Mathlib.Text.{◌==◌ as str_eq}
use masjid_protocol.Prelude.{
  Bool, false, List, [], map, Option, none, some, String, length, ◌==◌, if◌then◌else◌, or_else,
}
use masjid_protocol.Prelude.Text.{◌+++◌}
use masjid_protocol.Board.{MasjidInfo}
use masjid_protocol.Board.Dashboard.{State}

pub data StatusBadge : Type 0 where
  terverifikasi menunggu ditandai dicabut : StatusBadge
  other : String → StatusBadge

unfoldable pub status_badge : String → StatusBadge
status_badge status =
    if str_eq status "verified"
    then terverifikasi
    else if str_eq status "pending"
    then menunggu
    else if str_eq status "flagged"
    then ditandai
    else if str_eq status "revoked"
    then dicabut
    else other status

-- The card of a masjid and its button lead to the same page.
pub record Card : Type 0 where
  pub name : String
  pub badge : StatusBadge
  pub instance_addr : String
  pub link : String

abbrev pub dashboard_link : String → String
dashboard_link masjid_id = "/board/dashboard?masjid_id=" +++ masjid_id

unfoldable pub card_of : MasjidInfo → Card
unfolding status_badge
card_of m = record {
  name = m.masjid_name;
  badge = status_badge m.status;
  instance_addr = m.instance_addr;
  link = dashboard_link m.masjid_id;
}

-- Where there are cards there is also a button to register another masjid.
pub data View : Type 0 where
  loading unconnected : View
  failed : String → View
  cards : List Card → View

abbrev listed : List MasjidInfo → View
listed masjids = if length masjids == 0 then unconnected else cards (map card_of masjids)

abbrev unless_failed : Option String → View → View
unless_failed none v = v
unless_failed (some message) v = failed message

unfoldable pub view :
    (masjids : Option (List MasjidInfo)) → (is_loading : Bool) → Option String → View
unfolding card_of
view masjids is_loading error =
    if is_loading then loading else unless_failed error (listed (or_else masjids []))

abbrev pub register_link : String
register_link = "/board/register"

-- The dashboard as it is opened by a link: `get_param` reads a parameter of its query.
unfoldable pub open_dashboard : (get_param : String → String → Option String) → String → State
open_dashboard get_param link = record {
  show_propose = false;
  selected_id = get_param link "masjid_id";
}
