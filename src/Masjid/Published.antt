-- ===== src/Masjid/Published.antt =====
-- A registration and the page of its masjid: what the form pins is what the page reads.
use masjid_protocol.Prelude.{
  subst, ◌≡◌, refl, ap, ◌∙◌, true, false, Option, some, String, Result, ok, All,
}
use masjid_protocol.Masjid.{Bool, IpfsMetadata, Document, fetch_ipfs_metadata}
use text.Mathlib.Text.{starts_with}
use masjid_protocol.Prelude.Text.{◌+++◌}
use masjid_protocol.Contracts.{Addresses}
use masjid_protocol.Contracts.Calls.{RegisterMasjidArgs}
use masjid_protocol.Utils.{gateway, ipfs_to_http}
use masjid_protocol.Utils.Laws.{ipfs_to_http-pinned}
use masjid_protocol.Register.{
  Member, Values, Metadata, PinResponse, Pinning, validate, no_errors, metadata_of, trimmed_name,
  on_submit,
}
use masjid_protocol.Register.Laws.{no_errors_iff}
use masjid_protocol.Register.Submit.{Pinned, on_submit-Sent}
use masjid_protocol.Masjid.Names.{name_of}
use masjid_protocol.Masjid.Names.Laws.{read_back, name_of-metadata_of}

-- The pinning service and the gateway: a document that was taken is served as JSON.
pub record Storage (File : Type 0) : Type 0 where
  pub pinning : Pinning File
  pub fetch : String → Result String Document
  pub content_type : String
  pub is_document : starts_with content_type "image/" ≡ false
  pub serves :
      (d : Metadata) (res : PinResponse) (hash : String)
      → pinning.pin_json d ≡ ok res
      → res.is_ok ≡ true
      → res.ipfs_hash ≡ ok hash
      → fetch (gateway +++ hash)
        ≡ ok (record { is_ok = true; content_type = some content_type; json = ok (read_back d) })

module _ {File : Type 0} (storage : Storage File) where
  -- A document that was pinned is read back by its name.
  pub fetch_ipfs_metadata-Pinned :
      (d : Metadata) (uri : String)
      → Pinned (storage.pinning.pin_json d) uri
      → fetch_ipfs_metadata storage.fetch uri ≡ ok (some (read_back d))
  unfolding fetch_ipfs_metadata
  fetch_ipfs_metadata-Pinned d uri p =
      let served = storage.serves d p.response p.hash p.answered p.accepted p.read in
      let found : ipfs_to_http (some uri) ≡ some (gateway +++ p.hash) =
        ap (λ u. ipfs_to_http (some u)) p.named ∙ ipfs_to_http-pinned p.hash in
      rw (found, served, storage.is_document) refl

  -- If the registration form has no errors and is sent, then the page of the masjid reads the
  -- document that was pinned and has for each member the name that the form was given, trimmed, and
  -- none for a member without one.
  pub registered_names-shown :
      (is_address : String → Bool) (to_lower trim : String → String) (a : Addresses) (v : Values)
      (foto : Option File) (args : RegisterMasjidArgs)
      → no_errors (validate is_address to_lower v) ≡ true
      → on_submit storage.pinning trim a v foto ≡ ok args
      → (metadata : IpfsMetadata) × (fetch_ipfs_metadata storage.fetch args.metadata_uri
          ≡ ok (some metadata))
        × All
            (λ (m : Member).
              name_of to_lower (some metadata) m.address ≡ trimmed_name trim m.member_name)
            v.board_members
  registered_names-shown is_address to_lower trim a v foto args valid sent =
      let s = on_submit-Sent storage.pinning trim a v foto args sent in
      let (_, _, _, _, distinct) = (no_errors_iff is_address to_lower v).0 valid in
      (
        read_back (metadata_of storage.pinning trim v s.foto_uri),
        fetch_ipfs_metadata-Pinned (metadata_of storage.pinning trim v s.foto_uri) args.metadata_uri
            (subst (λ d. Pinned (storage.pinning.pin_json d) args.metadata_uri) s.made s.document),
        name_of-metadata_of to_lower trim storage.pinning v s.foto_uri distinct,
      )
