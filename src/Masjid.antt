-- ===== src/Masjid.antt =====
-- The public data of one masjid: front-end/src/app/masjid/[id]/types.ts and api.ts. `fetch` rejects
-- with a message or answers; `encodeURIComponent` and the address of the server are parameters.
pub mod Page
pub mod Names
pub mod Published
use text.Mathlib.Text.{starts_with}
use masjid_protocol.Prelude.{
  ℕ, Bool, List, [], Option, none, some, String, Result, ok, thrown, or_else, if◌then◌else◌, ◌>>=◌,
}
use masjid_protocol.Prelude.Text.{◌+++◌}
use masjid_protocol.Register.{Metadata}
use masjid_protocol.Board.{Answer}
use masjid_protocol.Utils.{ipfs_to_http}

pub record MasjidDetail : Type 0 where
  pub masjid_id : String
  pub masjid_name : String
  pub status : String
  pub instance_addr : Option String
  pub stablecoin : String
  pub masjid_admin : String
  pub registered_at : String
  pub verified_at : Option String
  pub metadata_uri : String

pub record BoardMember : Type 0 where
  pub id : ℕ
  pub member_addr : String
  pub instance_addr : String
  pub is_active : Bool

-- The members that the document names, if it has the field.
pub record NamedMember : Type 0 where
  pub address : String
  pub name : Option String

pub record IpfsMetadata : Type 0 where
  pub foto : Option String
  pub board_members : Option (List NamedMember)

pub record DonationItem : Type 0 where
  pub donor : String
  pub amount : String
  pub donated_at : String
  pub tx_hash : String

pub record CashOutItem : Type 0 where
  pub id : ℕ
  pub request_id : ℕ
  pub to_addr : String
  pub amount : String
  pub proposer : String
  pub approvals : ℕ
  pub approved_by : List String
  pub executor : Option String
  pub canceled_by : Option String
  pub proposed_at : String
  pub settled_at : Option String
  pub status_label : String
  pub tx_hash : String

-- An answer of the gateway: its status, its content type, and its body read as JSON.
pub record Document : Type 0 where
  pub is_ok : Bool
  pub content_type : Option String
  pub json : Result String IpfsMetadata

module _ (api_base : String) (encode : String → String) where
  abbrev pub masjid_path : String → String
  masjid_path masjid_id = api_base +++ "/public/masjids/" +++ encode masjid_id

  -- The data of the body, or its error; the status of the answer is not looked at.
  abbrev data_of : {A : Type 0} → Option A → Option String → Result String A
  data_of (some d) error = ok d
  data_of none error = thrown (or_else error "Masjid tidak ditemukan")

  unfoldable pub fetch_masjid_detail :
      (String → Result String (Answer MasjidDetail)) → String → Result String MasjidDetail
  fetch_masjid_detail fetch masjid_id = do
    res ← fetch (masjid_path masjid_id)
    body ← res.json
    data_of body.data_ body.error

  abbrev fetch_list :
      {A : Type 0} → (String → Result String (Answer (List A))) → String → Result String (List A)
  fetch_list fetch url = do res ← fetch url; body ← res.json; ok (or_else body.data_ [])

  unfoldable pub fetch_masjid_donations :
      (String → Result String (Answer (List DonationItem)))
      → String
      → (limit : String) → Result String (List DonationItem)
  fetch_masjid_donations fetch masjid_id limit =
      fetch_list fetch (masjid_path masjid_id +++ "/donations?limit=" +++ limit)

  unfoldable pub fetch_masjid_members :
      (String → Result String (Answer (List BoardMember)))
      → String
      → Result String (List BoardMember)
  fetch_masjid_members fetch masjid_id = fetch_list fetch (masjid_path masjid_id +++ "/members")

  unfoldable pub fetch_masjid_cashouts :
      (String → Result String (Answer (List CashOutItem)))
      → String
      → Result String (List CashOutItem)
  fetch_masjid_cashouts fetch masjid_id = fetch_list fetch (masjid_path masjid_id +++ "/cashouts")

-- The document behind a name, by the gateway: null if it is not there, and for a picture a document
-- that has nothing but that picture.
abbrev read_document : String → Document → Result String (Option IpfsMetadata)
read_document uri res =
    if res.is_ok
    then (if starts_with (or_else res.content_type "") "image/"
        then ok (some (record { foto = some uri; board_members = none }))
        else (res.json >>= λ metadata. ok (some metadata)))
    else ok none

abbrev read_at :
    (String → Result String Document) → String → Option String → Result String (Option IpfsMetadata)
read_at fetch uri none = ok none
read_at fetch uri (some http_uri) = fetch http_uri >>= λ res. read_document uri res

unfoldable pub fetch_ipfs_metadata :
    (String → Result String Document) → String → Result String (Option IpfsMetadata)
fetch_ipfs_metadata fetch uri = read_at fetch uri (ipfs_to_http (some uri))
