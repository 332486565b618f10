-- ===== src/Register.antt =====
-- The registration of a masjid: front-end/src/app/board/register/ui.tsx and
-- front-end/src/lib/pinata.ts. viem's `isAddress`, `toLowerCase` and `trim` are parameters, and so
-- is the pinning service. An `Error` is its message. The lengths are those of the texts in
-- characters.
pub mod Laws
pub mod Page
pub mod Submit
use text.Mathlib.Text.{◌==◌ as str_eq}
use masjid_protocol.Prelude.{
  ◌>>=◌, ℕ, zero, suc, Bool, true, false, not, ◌&&◌, ◌||◌, List, [], ◌∷◌, ◌++◌, map, Option, none,
  some, String, Result, ok, thrown, ltb, leb, ◌==◌, any, all, length, is_some, if◌then◌else◌,
}
use masjid_protocol.Prelude.Text.{is_empty, size, ◌+++◌}
use masjid_protocol.Contracts.{Addresses}
use masjid_protocol.Contracts.Calls.{RegisterMasjidArgs}

pub record Member : Type 0 where
  pub address : String
  pub member_name : Option String

pub record Values : Type 0 where
  pub name : String
  pub alamat : String
  pub board_members : List Member

-- The messages of `registerSchema`, by the field that they stand at.
pub record Errors : Type 0 where
  pub name : Option String
  pub alamat : Option String
  pub member : List (Option String)
  pub root : Option String

-- `new Set(xs)`, as the list of its values: each is added unless it is there.
unfoldable pub set_of : List String → List String
set_of [] = []
set_of (x ∷ xs) = let rest = set_of xs in if any (λ y. str_eq y x) rest then rest else x ∷ rest

abbrev pub check : Bool → String → Option String
check true message = none
check false message = some message

module _ (is_address : String → Bool) (to_lower : String → String) where
  abbrev addrs : List Member → List String
  addrs members = map (λ (m : Member). to_lower m.address) members

  -- The refinement of the list: `new Set(addrs).size === addrs.length`.
  unfoldable pub all_distinct : List Member → Bool
  unfolding set_of
  all_distinct members = length (set_of (addrs members)) == length (addrs members)

  -- The minimum of the list is an error that ends its test, an error of an element is not: the
  -- refinement runs in that case too.
  abbrev root_error : List Member → Option String
  root_error members =
      if length members == 0
      then some "Minimal satu anggota dewan diperlukan."
      else check (all_distinct members) "Alamat anggota dewan tidak boleh duplikat."

  unfoldable pub validate : Values → Errors
  unfolding all_distinct size
  validate v = record {
    name = check (leb 3 (size v.name)) "Nama masjid minimal 3 karakter.";
    alamat = check (leb 5 (size v.alamat)) "Alamat masjid wajib diisi.";
    member =
        map (λ (m : Member). check (is_address m.address) "Alamat wallet tidak valid.")
          v.board_members;
    root = root_error v.board_members;
  }

abbrev pub is_none : Option String → Bool
is_none none = true
is_none (some e) = false

-- `handleSubmit` calls `onSubmit` only with no error.
abbrev pub no_errors : Errors → Bool
no_errors e = is_none e.name && is_none e.alamat && all is_none e.member && is_none e.root

-- The fields of the form, which start as three empty members; `append` and `remove` of
-- `useFieldArray`.
abbrev pub empty_member : Member
empty_member = record { address = ""; member_name = some "" }

abbrev pub default_members : List Member
default_members = empty_member ∷ empty_member ∷ empty_member ∷ []

unfoldable pub append_member : List Member → List Member
append_member fields = fields ++ empty_member ∷ []

remove_at : ℕ → List Member → List Member
remove_at i [] = []
remove_at zero (m ∷ ms) = ms
remove_at (suc i) (m ∷ ms) = m ∷ remove_at i ms

-- The button that removes a field is disabled while there is one alone, or the form is busy.
unfoldable pub remove_member : (busy : Bool) → ℕ → List Member → List Member
unfolding remove_at
remove_member busy index fields =
    if leb (length fields) 1 || busy then fields else remove_at index fields

-- The document that is pinned.
pub record MetaMember : Type 0 where
  pub address : String
  pub name : Option String

pub record Metadata : Type 0 where
  pub name : String
  pub alamat : String
  pub board_members : List MetaMember
  pub foto : Option String

-- The answer of the pinning service: a status with its text, and the hash in the body.
pub record PinResponse : Type 0 where
  pub is_ok : Bool
  pub status_text : String
  pub ipfs_hash : Result String String

pub record Pinning (File : Type 0) : Type 0 where
  pub pin_file : File → Result String PinResponse
  pub pin_json : Metadata → Result String PinResponse

abbrev pub pinned : String → PinResponse → Result String String
pinned failure res =
    if res.is_ok
    then (res.ipfs_hash >>= λ hash. ok ("ipfs://" +++ hash))
    else thrown (failure +++ res.status_text)

-- `memberName?.trim() || undefined`.
abbrev pub trimmed_name : (String → String) → Option String → Option String
trimmed_name trim none = none
trimmed_name trim (some name) = if is_empty (trim name) then none else some (trim name)

module _ {File : Type 0} (service : Pinning File) where
  unfoldable pub upload_file_to_pinata : File → Result String String
  upload_file_to_pinata file = do res ← service.pin_file file; pinned "Pinata upload gagal: " res

  unfoldable pub upload_json_to_pinata : Metadata → Result String String
  upload_json_to_pinata json = do
    res ← service.pin_json json
    pinned "Pinata JSON upload gagal: " res

  abbrev pub upload_foto : Option File → Result String (Option String)
  upload_foto none = ok none
  upload_foto (some file) = upload_file_to_pinata file >>= λ uri. ok (some uri)

  abbrev pub metadata_of : (String → String) → Values → Option String → Metadata
  metadata_of trim v foto = record {
    name = v.name;
    alamat = v.alamat;
    board_members =
        map (λ (m : Member). record { address = m.address; name = trimmed_name trim m.member_name })
          v.board_members;
    foto = foto;
  }

  -- `onSubmit`, up to the call of `registerMasjid.mutate`: the photograph is uploaded first, and
  -- the document then; an upload that fails ends it with its message.
  unfoldable pub on_submit :
      (String → String) → Addresses → Values → Option File → Result String RegisterMasjidArgs
  unfolding upload_file_to_pinata upload_json_to_pinata
  on_submit trim a v foto = do
    foto_uri ← upload_foto foto
    metadata_uri ← upload_json_to_pinata (metadata_of trim v foto_uri)
    ok (record {
      name = v.name;
      metadata_uri = metadata_uri;
      stablecoin = a.idrx;
      board_members = map (λ (m : Member). m.address) v.board_members;
    })
