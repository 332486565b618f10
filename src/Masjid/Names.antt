-- ===== src/Masjid/Names.antt =====
-- The names that the page of a masjid shows for its members: `nameByAddr` of
-- front-end/src/app/masjid/[id]/ui.tsx, an object with the addresses in lower case as keys, here an
-- association list with the latest assignment first.
pub mod Laws
use masjid_protocol.Prelude.{List, [], ◌∷◌, Option, none, some, String, if◌then◌else◌}
use masjid_protocol.Prelude.Text.{is_empty}
use masjid_protocol.ContractErrors.{lookup}
use masjid_protocol.Masjid.{NamedMember, IpfsMetadata}

abbrev pub Names : Type 0
Names = List (String × String)

-- `if (bm.name) nameByAddr[…] = bm.name`.
abbrev set_name : String → Option String → Names → Names
set_name key none names = names
set_name key (some name) names = if is_empty name then names else (key, name) ∷ names

module _ (to_lower : String → String) where
  unfoldable pub add_names : List NamedMember → Names → Names
  add_names [] names = names
  add_names (bm ∷ rest) names = add_names rest (set_name (to_lower bm.address) bm.name names)

  unfoldable pub name_by_addr : Option IpfsMetadata → Names
  unfolding add_names
  name_by_addr none = []
  name_by_addr (some metadata) = elim metadata.board_members [
    | none ↦ []
    | some ms ↦ add_names ms []
  ]

  unfoldable pub name_of : Option IpfsMetadata → String → Option String
  unfolding name_by_addr
  name_of metadata member_addr = lookup (to_lower member_addr) (name_by_addr metadata)
