-- ===== src/Masjid/Names/Laws.antt =====
-- The names that the form of registration was given are the ones that the page shows.

use text.Mathlib.TextEquality.{eq_iff}
use masjid_protocol.Prelude.{
  ◌≡◌, ◌≢◌, refl, sym, ap, ◌∙◌, subst, List, [], ◌∷◌, map, Option, none, some, String, All, arith,
}
use masjid_protocol.ContractErrors.{lookup}
use masjid_protocol.Register.{
  Member, Values, Metadata, MetaMember, Pinning, metadata_of, trimmed_name,
}
use masjid_protocol.Register.Laws.{Distinct, differs_iff}
use masjid_protocol.Masjid.{NamedMember, IpfsMetadata}
use masjid_protocol.Masjid.Names.{Names, set_name, add_names, name_by_addr, name_of}

-- A document of the registration form, as the page reads it.
abbrev pub read_back : Metadata → IpfsMetadata
read_back d = record {
  foto = d.foto;
  board_members =
      some
        (map (λ (m : MetaMember). record { address = m.address; name = m.name }) d.board_members);
}

lookup-set_name_ne :
    (key k : String) (name : Option String) (names : Names)
    → k ≢ key
    → lookup key (set_name k name names) ≡ lookup key names
lookup-set_name_ne key k none names h = refl
lookup-set_name_ne key k (some name) names h = ground (arith, (differs_iff key k).1 h)

lookup-set_name_self :
    (key : String) (name : Option String) (trim : String → String) (names : Names)
    → lookup key names ≡ none
    → lookup key (set_name key (trimmed_name trim name) names) ≡ trimmed_name trim name
lookup-set_name_self key none trim names h = h
lookup-set_name_self key (some name) trim names h = ground (arith, (eq_iff key key).1 refl)

module _ (to_lower trim : String → String) where
  abbrev named : List Member → List NamedMember
  named ms =
      map (λ (m : Member). record { address = m.address; name = trimmed_name trim m.member_name })
        ms

  abbrev key : Member → String
  key m = to_lower m.address

  lookup-fresh :
      (k : String) (ms : List Member) (names : Names)
      → All (λ y. y ≢ k) (map key ms)
      → lookup k (add_names to_lower (named ms) names) ≡ lookup k names
  unfolding add_names
  lookup-fresh k [] names h = refl
  lookup-fresh k (m ∷ ms) names (h, hs) =
      lookup-fresh k ms _ hs
      ∙ lookup-set_name_ne k (key m) (trimmed_name trim m.member_name) names h

  Unnamed : Names → List Member → Type 0
  Unnamed names ms = All (λ (m : Member). lookup (key m) names ≡ none) ms

  Unnamed-set_name :
      (k : String) (name : Option String) (ms : List Member) (names : Names)
      → All (λ y. y ≢ k) (map key ms)
      → Unnamed names ms
      → Unnamed (set_name k name names) ms
  unfolding Unnamed
  Unnamed-set_name k name [] names h u = tt
  Unnamed-set_name k name (m ∷ ms) names (h, hs) (u, us) = (
    lookup-set_name_ne (key m) k name names (λ e. h (sym e)) ∙ u,
    Unnamed-set_name k name ms names hs us,
  )

  name_kept :
      (ms : List Member) (names : Names)
      → Distinct (map key ms)
      → Unnamed names ms
      → All
          (λ (m : Member).
            lookup (key m) (add_names to_lower (named ms) names) ≡ trimmed_name trim m.member_name)
          ms
  unfolding add_names Unnamed
  name_kept [] names d u = tt
  name_kept (m ∷ ms) names (d, ds) (u, us) =
      let own =
        lookup-fresh (key m) ms (set_name (key m) (trimmed_name trim m.member_name) names) d in
      (
        own ∙ lookup-set_name_self (key m) m.member_name trim names u,
        name_kept ms (set_name (key m) (trimmed_name trim m.member_name) names) ds
            (Unnamed-set_name (key m) (trimmed_name trim m.member_name) ms names d us),
      )

  Unnamed-nil : (ms : List Member) → Unnamed [] ms
  unfolding Unnamed
  Unnamed-nil [] = tt
  Unnamed-nil (m ∷ ms) = (refl, Unnamed-nil ms)

  map-read_back :
      (ms : List Member)
      → map
          (λ (m : MetaMember). record { address = m.address; name = m.name })
          (map
            (λ (m : Member). record { address = m.address; name = trimmed_name trim m.member_name })
            ms)
        ≡ named ms
  map-read_back [] = refl
  map-read_back (m ∷ ms) =
      ap (λ ns. record { address = m.address; name = trimmed_name trim m.member_name } ∷ ns)
        (map-read_back ms)

  -- If no two members of a registration have the same address up to case, then the page of the
  -- masjid, which reads the document that the registration pinned, has for each of them the name
  -- that the form was given, trimmed, and none for a member without one.
  pub name_of-metadata_of :
      {File : Type 0} (service : Pinning File) (v : Values) (foto : Option String)
      → Distinct (map key v.board_members)
      → All
          (λ (m : Member).
            name_of to_lower (some (read_back (metadata_of service trim v foto))) m.address
            ≡ trimmed_name trim m.member_name)
          v.board_members
  unfolding name_of name_by_addr
  name_of-metadata_of service v foto d =
      subst
        (λ ns.
          All
            (λ (m : Member).
              lookup (key m) (add_names to_lower ns []) ≡ trimmed_name trim m.member_name)
            v.board_members)
        (sym (map-read_back v.board_members))
        (name_kept v.board_members [] d (Unnamed-nil v.board_members))
