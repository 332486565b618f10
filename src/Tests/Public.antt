-- ===== src/Tests/Public.antt =====
-- The theorems on the public pages at concrete data.
use masjid_protocol.Prelude.{
  ◌≡◌, ◌↔◌, inl, refl, ap, ap₂, sym, subst, map, thrown, ◌&&◌, if◌then◌else◌, arith, Bool, true,
  false, List, [], ◌∷◌, Option, none, some, String, Result, ok, All,
}
use text.Mathlib.Text.{◌==◌ as str_eq}
use text.Mathlib.TextEquality.{eq_iff}
use masjid_protocol.Prelude.Text.{◌+++◌}
use masjid_protocol.Tests.{itself, addresses}
use masjid_protocol.Utils.{gateway}
use masjid_protocol.Register.{
  Member, Values, Metadata, MetaMember, PinResponse, validate, no_errors, on_submit, trimmed_name,
}
use masjid_protocol.Masjid.{NamedMember, MasjidDetail, IpfsMetadata, Document, fetch_ipfs_metadata}
use masjid_protocol.Masjid.Names.{name_of}
use masjid_protocol.Masjid.Names.Laws.{read_back}
use masjid_protocol.Masjid.Page.{Queries, Locale, Form, view}
use masjid_protocol.Masjid.Page.Laws.{Offers, IsOpen, form-offered_iff}
use masjid_protocol.Masjid.Published.{Storage, registered_names-shown}
use masjid_protocol.Explorer as Explorer
use masjid_protocol.Explorer.Laws.{parts, AllLink, view_lem}
use masjid_protocol.Contracts.Calls.{RegisterMasjidArgs}

abbrev locale : Locale
locale = record {
  to_lower = itself;
  to_text = λ n. "1";
  date = itself;
  short_date = itself;
  format_amount = λ amount. "2 IDRX";
}

abbrev masjid : MasjidDetail
masjid = record {
  masjid_id = "0x11";
  masjid_name = "An-Nur";
  status = "verified";
  instance_addr = some "0xf";
  stablecoin = "0xc";
  masjid_admin = "0x1";
  registered_at = "2024-01-01";
  verified_at = none;
  metadata_uri = "ipfs://Qm";
}

abbrev queries : Queries
queries = record {
  is_loading = false;
  is_error = false;
  masjid = some masjid;
  donations = [];
  members = [];
  cashouts = [];
  metadata = none;
}

abbrev form : Form
form = record { instance_addr = "0xf"; stablecoin = "0xc" }

form-offered_iff_example : Offers (view locale queries) form ↔ (
    (queries.is_loading ≡ false)
    × (queries.is_error ≡ false)
    × ((m : MasjidDetail) × (queries.masjid ≡ some m) × IsOpen m form))
form-offered_iff_example = form-offered_iff locale queries form

abbrev summary : Explorer.MasjidSummary
summary = record {
  masjid_id = "0x1111111111111111";
  masjid_name = "An-Nur";
  status = "verified";
  latest_balance = some "100";
  total_donated = none;
  total_donors = 3;
  instance_addr = some "0xf";
  registered_at = "2024-01-01";
}

abbrev listed : Explorer.Query
listed = record {
  masjids = summary ∷ record summary { status = "pending" } ∷ [];
  is_loading = false;
  is_error = false;
}

view_lem_example :
    (parts (Explorer.view itself (λ amount. "2 IDRX") listed) ≡ 1)
    × ((cs : List Explorer.Card)
        → (Explorer.view itself (λ amount. "2 IDRX") listed).cards ≡ some cs
        → AllLink itself (λ amount. "2 IDRX") listed.masjids cs)
view_lem_example = view_lem itself (λ amount. "2 IDRX") listed (inl refl)

-- A service that takes one document, and a gateway that serves it.
abbrev answer : PinResponse
answer = record { is_ok = true; status_text = "OK"; ipfs_hash = ok "Qm" }

abbrev any_address : String → Bool
any_address text = true

abbrev values : Values
values = record {
  name = "Al-Ikhlas";
  alamat = "Jalan Raya 1";
  board_members = record { address = "0x1"; member_name = some "Umar" } ∷ [];
}

abbrev is_text : String → Option String → Bool
is_text text none = false
is_text text (some t) = str_eq t text

abbrev is_umar : List MetaMember → Bool
is_umar (m ∷ []) = str_eq m.address "0x1" && is_text "Umar" m.name
is_umar _ = false

abbrev is_absent : Option String → Bool
is_absent none = true
is_absent (some text) = false

abbrev served : IpfsMetadata
served = record {
  foto = none;
  board_members = some (record { address = "0x1"; name = some "Umar" } ∷ []);
}

abbrev taken : Bool → Result String PinResponse
taken true = ok answer
taken false = thrown "offline"

is_text-some : (text : String) (t : Option String) → is_text text t ≡ true → t ≡ some text
is_text-some text none h = cc
is_text-some text (some t) h = ap some ((eq_iff t text).0 h)

members_served :
    (ms : List MetaMember)
    → is_umar ms ≡ true
    → map {B = NamedMember} (λ (m : MetaMember). record { address = m.address; name = m.name }) ms
      ≡ record { address = "0x1"; name = some "Umar" } ∷ []
members_served [] h = cc
members_served (m ∷ []) h =
    ap₂ (λ a n. record { address = a; name = n } ∷ [])
      ((eq_iff m.address "0x1").0 (ground (arith, h)))
      (is_text-some "Umar" m.name (ground (arith, h)))
members_served (m ∷ n ∷ ms) h = cc

absent_served : (foto : Option String) → is_absent foto ≡ true → foto ≡ none
absent_served none h = refl
absent_served (some text) h = cc

taken-ok : (b : Bool) {res : PinResponse} → taken b ≡ ok res → (b ≡ true) × (res ≡ answer)
taken-ok true h = (refl, cc)
taken-ok false h = cc

abbrev gateway_fetch : String → Result String Document
gateway_fetch url =
    if str_eq url (gateway +++ "Qm")
    then ok (record { is_ok = true; content_type = some "application/json"; json = ok served })
    else thrown "offline"

abbrev accepts : Metadata → Bool
accepts d = is_absent d.foto && is_umar d.board_members

storage-serves :
    (d : Metadata) (res : PinResponse) (hash : String)
    → taken (accepts d) ≡ ok res
    → res.is_ok ≡ true
    → res.ipfs_hash ≡ ok hash
    → gateway_fetch (gateway +++ hash)
      ≡ ok
          (record { is_ok = true; content_type = some "application/json"; json = ok (read_back d) })
storage-serves d res hash h accepted read =
    let (t, e) = taken-ok (accepts d) h in
    let known : read_back d ≡ served =
      ap₂ (λ f ms. record { foto = f; board_members = some ms })
        (absent_served d.foto (ground (arith, t)))
        (members_served d.board_members (ground (arith, t))) in
    let named : hash ≡ "Qm" = ground (arith, e, read) in
    subst
      (λ x.
        gateway_fetch (gateway +++ x)
        ≡ ok (record {
          is_ok = true;
          content_type = some "application/json";
          json = ok (read_back d);
        }))
      (sym named)
      (ap (λ m. ok (record { is_ok = true; content_type = some "application/json"; json = ok m }))
        (sym known))

abbrev storage : Storage String
storage = record {
  pinning = record { pin_file = λ file. thrown "offline"; pin_json = λ d. taken (accepts d) };
  fetch = gateway_fetch;
  content_type = "application/json";
  is_document = refl;
  serves = storage-serves;
}

abbrev registered : RegisterMasjidArgs
registered = record {
  name = "Al-Ikhlas";
  metadata_uri = "ipfs://Qm";
  stablecoin = "0xc";
  board_members = "0x1" ∷ [];
}

values_valid : no_errors (validate any_address itself values) ≡ true
unfolding validate
values_valid = refl

submitted : on_submit storage.pinning itself addresses values none ≡ ok registered
unfolding on_submit
submitted = refl

registered_names-shown_example :
    (metadata : IpfsMetadata) × (fetch_ipfs_metadata storage.fetch "ipfs://Qm" ≡ ok (some metadata))
    × All
        (λ (m : Member).
          name_of itself (some metadata) m.address ≡ trimmed_name itself m.member_name)
        values.board_members
registered_names-shown_example =
    registered_names-shown storage any_address itself itself addresses values none registered
      values_valid submitted
