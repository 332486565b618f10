-- ===== src/Register/Submit.antt =====
-- What the submission of the registration form sends.
use masjid_protocol.Prelude.Text.{is_empty, ◌+++◌}
use masjid_protocol.Register.{
  trimmed_name, Metadata, MetaMember, Member, Values, PinResponse, Pinning, pinned, upload_foto,
  upload_file_to_pinata, upload_json_to_pinata, metadata_of, on_submit,
}
use masjid_protocol.Prelude.{
  ◌⊎◌, ◌∷◌, false, [], List, ◌>>=◌, or_default, true, ◌≡◌, refl, sym, ap, ◌∙◌, map, Option, none,
  some, String, Result, ok, thrown, arith, Bool-cases, inl, inr,
}
use masjid_protocol.Contracts.{Addresses}
use masjid_protocol.Contracts.Calls.{RegisterMasjidArgs}

-- The service took a document, and `uri` names it.
pub record Pinned (answer : Result String PinResponse) (uri : String) : Type 0 where
  pub response : PinResponse
  pub hash : String
  pub answered : answer ≡ ok response
  pub accepted : response.is_ok ≡ true
  pub read : response.ipfs_hash ≡ ok hash
  pub named : uri ≡ "ipfs://" +++ hash

bind-eq-ok :
    {A B : Type 0} (x : Result String A) (f : A → Result String B) (b : B)
    → (x >>= f) ≡ ok b
    → (a : A) × (x ≡ ok a) × (f a ≡ ok b)
bind-eq-ok (ok a) f b h = (a, refl, h)
bind-eq-ok (thrown e) f b h = ground (arith, h)

renamed : {x : Result String PinResponse} {u w : String} → Pinned x u → u ≡ w → Pinned x w
renamed d e = record {
  response = d.response;
  hash = d.hash;
  answered = d.answered;
  accepted = d.accepted;
  read = d.read;
  named = sym e ∙ d.named;
}

pinned-Pinned :
    (failure : String) (answer : Result String PinResponse) (uri : String)
    → (answer >>= pinned failure) ≡ ok uri
    → Pinned answer uri
pinned-Pinned failure answer uri h =
    let (res, answered, h1) = bind-eq-ok answer (pinned failure) uri h in
    elim (Bool-cases res.is_ok) [
      | inl yes' ↦
          let (hash, read, h2) =
            bind-eq-ok res.ipfs_hash (λ hash. ok ("ipfs://" +++ hash)) uri
              (rw (yes', pinned) at h1) in
          record {
            response = res;
            hash = hash;
            answered = answered;
            accepted = yes';
            read = read;
            named = ground (arith, h2);
          }
      | inr no' ↦ absurd (ground (arith, no', h1))
    ]

-- The photograph's part of the document: nothing without a file, else the name of the pinned file.
abbrev pub IsUploaded : {File : Type 0} → Pinning File → Option File → Option String → Type 0
IsUploaded service none uri = uri ≡ none
IsUploaded service (some file) uri =
    (u : String) × (uri ≡ some u) × Pinned (service.pin_file file) u

-- A member's name in the document: none where none was given or it is empty when trimmed.
abbrev IsNamed : (String → String) → (given stored : Option String) → Type 0
IsNamed trim none stored = stored ≡ none
IsNamed trim (some name) stored =
    ((is_empty (trim name) ≡ true) × (stored ≡ none))
    ⊎ ((is_empty (trim name) ≡ false) × (stored ≡ some (trim name)))

abbrev AllNamed : (String → String) → List Member → List MetaMember → Type 0
AllNamed trim [] [] = Unit
AllNamed trim (m ∷ ms) (n ∷ ns) = IsNamed trim m.member_name n.name × AllNamed trim ms ns
AllNamed trim _ _ = ⊥

-- The document has the form's name and address, its members' addresses with their names, trimmed and
-- left out where they are empty, and the photograph.
pub record Describes (trim : String → String) (v : Values) (foto_uri : Option String)
    (doc : Metadata) : Type 0 where
  pub name : doc.name ≡ v.name
  pub alamat : doc.alamat ≡ v.alamat
  pub addresses :
      map (λ (m : MetaMember). m.address) doc.board_members
      ≡ map (λ (m : Member). m.address) v.board_members
  pub names : AllNamed trim v.board_members doc.board_members
  pub foto : doc.foto ≡ foto_uri

-- The service took the document that describes the masjid, with the photograph's name.
pub record Sent {File : Type 0} (service : Pinning File) (trim : String → String) (a : Addresses)
    (v : Values) (foto : Option File) (args : RegisterMasjidArgs) : Type 0 where
  pub name : args.name ≡ v.name
  pub members : args.board_members ≡ map (λ (m : Member). m.address) v.board_members
  pub token : args.stablecoin ≡ a.idrx
  pub foto_uri : Option String
  pub photograph : IsUploaded service foto foto_uri
  pub metadata : Metadata
  pub described : Describes trim v foto_uri metadata
  pub made : metadata ≡ metadata_of service trim v foto_uri
  pub document : Pinned (service.pin_json metadata) args.metadata_uri

name_of-IsNamed :
    (trim : String → String) (name : Option String) → IsNamed trim name (trimmed_name trim name)
name_of-IsNamed trim none = refl
name_of-IsNamed trim (some name) = elim (Bool-cases (is_empty (trim name))) [
  | inl a ↦ inl (a, ground (arith, a))
  | inr b ↦ inr (b, ground (arith, b))
]

abbrev members_of : (String → String) → List Member → List MetaMember
members_of trim =
    map (λ (m : Member). record { address = m.address; name = trimmed_name trim m.member_name })

members_of-AllNamed :
    (trim : String → String) (ms : List Member)
    → AllNamed trim ms (members_of trim ms)
      × (map (λ (m : MetaMember). m.address) (members_of trim ms)
          ≡ map (λ (m : Member). m.address) ms)
members_of-AllNamed trim [] = (tt, refl)
members_of-AllNamed trim (m ∷ ms) =
    let (named, same) = members_of-AllNamed trim ms in
    ((name_of-IsNamed trim m.member_name, named), ap (λ l. m.address ∷ l) same)

metadata_of-Describes :
    {File : Type 0} (service : Pinning File) (trim : String → String) (v : Values)
    (foto_uri : Option String)
    → Describes trim v foto_uri (metadata_of service trim v foto_uri)
metadata_of-Describes service trim v foto_uri =
    let (named, same) = members_of-AllNamed trim v.board_members in
    record { name = refl; alamat = refl; addresses = same; names = named; foto = refl }

upload_foto-IsUploaded :
    {File : Type 0} (service : Pinning File) (foto : Option File) (uri : Option String)
    → upload_foto service foto ≡ ok uri
    → IsUploaded service foto uri
unfolding upload_file_to_pinata
upload_foto-IsUploaded service none uri h = ground (arith, h)
upload_foto-IsUploaded service (some file) uri h =
    let (u, uploaded, h1) =
      bind-eq-ok (service.pin_file file >>= pinned "Pinata upload gagal: ") (λ u. ok (some u)) uri
        h in
    (
      u,
      ground (arith, h1),
      pinned-Pinned "Pinata upload gagal: " (service.pin_file file) u uploaded,
    )

-- What the form sends has the form's name, its members' addresses in their order and the
-- configuration's stablecoin, and names a document that the pinning service took: with the form's
-- name and address, its members' addresses in their order with their names (trimmed, and none where
-- that leaves nothing), and the photograph that the service took before.
pub on_submit-Sent :
    {File : Type 0} (service : Pinning File) (trim : String → String) (a : Addresses) (v : Values)
    (foto : Option File) (args : RegisterMasjidArgs)
    → on_submit service trim a v foto ≡ ok args
    → Sent service trim a v foto args
unfolding on_submit upload_json_to_pinata
on_submit-Sent service trim a v foto args h =
    let (foto_uri, uploaded, h1) = bind-eq-ok (upload_foto service foto) _ args h in
    let (uri, stored, h2) =
      bind-eq-ok
        (service.pin_json (metadata_of service trim v foto_uri)
          >>= pinned "Pinata JSON upload gagal: ")
        _ args h1 in
    let document =
      pinned-Pinned "Pinata JSON upload gagal: "
        (service.pin_json (metadata_of service trim v foto_uri)) uri stored in
    let same = ap (or_default args) h2 in
    record {
      name = sym (ap (λ (r : RegisterMasjidArgs). r.name) same);
      members = sym (ap (λ (r : RegisterMasjidArgs). r.board_members) same);
      token = sym (ap (λ (r : RegisterMasjidArgs). r.stablecoin) same);
      foto_uri = foto_uri;
      photograph = upload_foto-IsUploaded service foto foto_uri uploaded;
      metadata = metadata_of service trim v foto_uri;
      described = metadata_of-Describes service trim v foto_uri;
      made = refl;
      document = renamed document (ap (λ (r : RegisterMasjidArgs). r.metadata_uri) same);
    }
