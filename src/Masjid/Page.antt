-- ===== src/Masjid/Page.antt =====
-- The page of one masjid: `DetailMasjidPageUI` of front-end/src/app/masjid/[id]/ui.tsx and
-- components/StatusBadge.tsx, as a function of what the queries hold. The texts of dates, of
-- amounts and of numbers, `decodeURIComponent` and `toLowerCase` are parameters.
pub mod Laws
use text.Mathlib.Text.{◌==◌ as str_eq}
use masjid_protocol.Prelude.{
  ℕ, suc, Bool, ◌&&◌, List, [], ◌∷◌, map, Option, none, some, String, if◌then◌else◌, or_else,
}
use masjid_protocol.Prelude.Text.{◌+++◌, is_empty}
use masjid_protocol.Utils.{shorten_addr, ipfs_to_http}
use masjid_protocol.Masjid.{MasjidDetail, BoardMember, IpfsMetadata, DonationItem, CashOutItem}
use masjid_protocol.Masjid.Names.{name_of}

pub data StatusBadge : Type 0 where
  terverifikasi menunggu_verifikasi bermasalah : StatusBadge
  other : String → StatusBadge

unfoldable pub status_badge : String → StatusBadge
status_badge status =
    if str_eq status "verified"
    then terverifikasi
    else if str_eq status "pending"
    then menunggu_verifikasi
    else if str_eq status "flagged"
    then bermasalah
    else other status

-- What the five queries hold; lists that are not there are empty.
pub record Queries : Type 0 where
  pub is_loading : Bool
  pub is_error : Bool
  pub masjid : Option MasjidDetail
  pub donations : List DonationItem
  pub members : List BoardMember
  pub cashouts : List CashOutItem
  pub metadata : Option IpfsMetadata

pub record MemberRow : Type 0 where
  pub name : String
  pub is_admin : Bool
  pub short_addr : String

pub record DonationRow : Type 0 where
  pub short_donor : String
  pub date : String
  pub amount : String

-- The icon, with its colour, and the label of a cash-out.
pub data Icon : Type 0 where
  check cross clock : Icon

pub data CashOutLabel : Type 0 where
  dieksekusi dibatalkan kadaluarsa pending : CashOutLabel

pub record CashOutRow : Type 0 where
  pub short_to : String
  pub short_proposer : String
  pub approved_by : List String
  pub proposed : String
  pub settled : Option String
  pub amount : String
  pub icon : Icon
  pub label : CashOutLabel

pub record Form : Type 0 where
  pub instance_addr : String
  pub stablecoin : String

pub record Page : Type 0 where
  pub name : String
  pub badge : StatusBadge
  pub short_addr : Option String
  pub foto_url : Option String
  pub registered : String
  pub verified : Option String
  pub members : List MemberRow
  pub donations : List DonationRow
  pub cashouts : List CashOutRow
  pub form : Option Form

pub data View : Type 0 where
  loading not_found : View
  shown : Page → View

-- A text that is null or empty is not shown.
abbrev pub truthy : Option String → Option String
truthy none = none
truthy (some text) = if is_empty text then none else some text

unfoldable pub status_icon : String → Icon
status_icon label =
    if str_eq label "executed" then check else if str_eq label "canceled" then cross else clock

unfoldable pub cash_out_label : String → CashOutLabel
cash_out_label label =
    if str_eq label "executed"
    then dieksekusi
    else if str_eq label "canceled"
    then dibatalkan
    else if str_eq label "expired"
    then kadaluarsa
    else pending

-- The form is there for a masjid that is verified and has an instance.
unfoldable pub donate_form : MasjidDetail → Option Form
donate_form masjid = elim (truthy masjid.instance_addr) [
  | none ↦ none
  | some addr ↦
      if str_eq masjid.status "verified"
      then some (record { instance_addr = addr; stablecoin = masjid.stablecoin })
      else none
]

pub record Locale : Type 0 where
  pub to_lower : String → String
  pub to_text : ℕ → String
  pub date : String → String
  pub short_date : String → String
  pub format_amount : Option String → String

module _ (l : Locale) where
  -- `name ?? "Anggota #" + (idx + 1)`.
  unfoldable pub member_rows :
      MasjidDetail → Option IpfsMetadata → ℕ → List BoardMember → List MemberRow
  unfolding shorten_addr name_of
  member_rows masjid metadata idx [] = []
  member_rows masjid metadata idx (m ∷ ms) =
      record {
        name =
            or_else (name_of l.to_lower metadata m.member_addr)
              ("Anggota #" +++ l.to_text (suc idx));
        is_admin = str_eq (l.to_lower m.member_addr) (l.to_lower masjid.masjid_admin);
        short_addr = shorten_addr m.member_addr;
      }
      ∷ member_rows masjid metadata (suc idx) ms

  abbrev donation_row : DonationItem → DonationRow
  donation_row d = record {
    short_donor = shorten_addr d.donor;
    date = l.short_date d.donated_at;
    amount = l.format_amount (some d.amount);
  }

  abbrev dated : (String → String) → Option String → Option String
  dated format none = none
  dated format (some date) = some (format date)

  abbrev cash_out_row : CashOutItem → CashOutRow
  cash_out_row co = record {
    short_to = shorten_addr co.to_addr;
    short_proposer = shorten_addr co.proposer;
    approved_by = map shorten_addr co.approved_by;
    proposed = l.date co.proposed_at;
    settled = dated l.short_date (truthy co.settled_at);
    amount = l.format_amount (some co.amount);
    icon = status_icon co.status_label;
    label = cash_out_label co.status_label;
  }

  abbrev shortened : Option String → Option String
  shortened none = none
  shortened (some addr) = some (shorten_addr addr)

  abbrev foto_of : Option IpfsMetadata → Option String
  foto_of none = none
  foto_of (some metadata) = metadata.foto

  unfoldable pub page_of : Queries → MasjidDetail → Page
  unfolding status_badge ipfs_to_http member_rows donate_form status_icon cash_out_label
  page_of q masjid = record {
    name = masjid.masjid_name;
    badge = status_badge masjid.status;
    short_addr = shortened (truthy masjid.instance_addr);
    foto_url = truthy (ipfs_to_http (foto_of q.metadata));
    registered = l.date masjid.registered_at;
    verified = dated l.date (truthy masjid.verified_at);
    members = member_rows masjid q.metadata 0 q.members;
    donations = map donation_row q.donations;
    cashouts = map cash_out_row q.cashouts;
    form = donate_form masjid;
  }

  abbrev found : Queries → Option MasjidDetail → View
  found q none = not_found
  found q (some masjid) = if q.is_error then not_found else shown (page_of q masjid)

  unfoldable pub view : Queries → View
  unfolding page_of
  view q = if q.is_loading then loading else found q q.masjid
