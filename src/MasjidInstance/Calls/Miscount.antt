-- ===== src/MasjidInstance/Calls/Miscount.antt =====
-- `setBoardMember` of smart-contract/src/protocol/MasjidInstance.sol counts down without looking
-- whether the account is a member.
use text.Mathlib.Text.{◌==◌ as str_eq}
use masjid_protocol.MasjidInstance.{
  AccessControl, Token, Message, State, board_role, admin_role, set_board_member,
}
use masjid_protocol.CashOut.Instance.{zero_address_text}
use masjid_protocol.Prelude.{◌-◌, ◌<◌, ◌≡◌, true, false, ok, String, arith}

module _ {R T : Type 0} (access : AccessControl R) (token : Token T) where
  removed_as :
      (msg : Message) (s : State R T) (member : String)
      → access.has_role admin_role msg.sender s.roles ≡ true
      → str_eq member zero_address_text ≡ false
      → s.cash_out_threshold < s.board_member_count
      → set_board_member access token msg s member false
        ≡ ok (record s {
          roles = access.revoke_role board_role member s.roles;
          board_member_count = s.board_member_count - 1;
        })
  unfolding set_board_member
  removed_as msg s member admin nonzero above = ground arith

  -- Let the admin take an account other than the zero address off the board, where the contract
  -- counts more members than the threshold. The call goes through, and the count goes down, also
  -- where the account is not on the board: then the roles stay as they are, and the contract counts
  -- one member less than before though no member has left.
  pub set_board_member-miscounts :
      (msg : Message) (s : State R T) (member : String)
      → access.has_role admin_role msg.sender s.roles ≡ true
      → str_eq member zero_address_text ≡ false
      → s.cash_out_threshold < s.board_member_count
      → access.has_role board_role member s.roles ≡ false
      → (s' : State R T) × (set_board_member access token msg s member false ≡ ok s')
        × (s'.roles ≡ s.roles)
        × (s'.board_member_count < s.board_member_count)
  set_board_member-miscounts msg s member admin nonzero above missing = (
    _,
    removed_as msg s member admin nonzero above,
    access.revoke-missing board_role member s.roles missing,
    omega arith,
  )
