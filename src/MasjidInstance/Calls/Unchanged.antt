-- ===== src/MasjidInstance/Calls/Unchanged.antt =====
-- The functions of the contract that have nothing to do with requests leave them alone.
use masjid_protocol.Prelude.{ap, String, ℕ, ◌≡◌, Bool, true, false, ok}
use masjid_protocol.CashOut.Instance.{
  duplicate_verifier, invalid_threshold, missing_role, transfer_failed, zero_address, amount_zero,
  panic,
}
use masjid_protocol.Contracts.{InstanceVerificationStatus}
use masjid_protocol.MasjidInstance.{
  cash_in, set_board_member, set_cash_out_threshold, set_admin, set_status, set_metadata_uri,
  AccessControl, Token, Message, State,
}
use masjid_protocol.MasjidInstance.Calls.Guards.{passed, returned}

module _ {R T : Type 0} (access : AccessControl R) (token : Token T) (msg : Message)
    (s : State R T) where
  pub cash_in-requests :
      (amount : ℕ) {s' : State R T}
      → cash_in access token msg s amount ≡ ok s'
      → s.cash_out_by_id ≡ s'.cash_out_by_id
  unfolding cash_in
  cash_in-requests amount h =
      let (c1, h1) = passed _ amount_zero _ h in
      let (c2, h2) = passed _ transfer_failed _ h1 in ap (λ x. x.cash_out_by_id) (returned h2)

  pub set_board_member-requests :
      (member : String) (allowed : Bool) {s' : State R T}
      → set_board_member access token msg s member allowed ≡ ok s'
      → s.cash_out_by_id ≡ s'.cash_out_by_id
  unfolding set_board_member
  set_board_member-requests member true h =
      let (c1, h1) = passed _ missing_role _ h in
      let (c2, h2) = passed _ zero_address _ h1 in
      let (c3, h3) = passed _ duplicate_verifier _ h2 in ap (λ x. x.cash_out_by_id) (returned h3)
  set_board_member-requests member false h =
      let (c1, h1) = passed _ missing_role _ h in
      let (c2, h2) = passed _ zero_address _ h1 in
      let (c3, h3) = passed _ panic _ h2 in
      let (c4, h4) = passed _ invalid_threshold _ h3 in ap (λ x. x.cash_out_by_id) (returned h4)

  pub set_cash_out_threshold-requests :
      (threshold : ℕ) {s' : State R T}
      → set_cash_out_threshold access token msg s threshold ≡ ok s'
      → s.cash_out_by_id ≡ s'.cash_out_by_id
  unfolding set_cash_out_threshold
  set_cash_out_threshold-requests threshold h =
      let (c1, h1) = passed _ missing_role _ h in
      let (c2, h2) = passed _ invalid_threshold _ h1 in
      let (c3, h3) = passed _ invalid_threshold _ h2 in ap (λ x. x.cash_out_by_id) (returned h3)

  pub set_admin-requests :
      (admin : String) {s' : State R T}
      → set_admin access token msg s admin ≡ ok s'
      → s.cash_out_by_id ≡ s'.cash_out_by_id
  unfolding set_admin
  set_admin-requests admin h =
      let (c1, h1) = passed _ missing_role _ h in
      let (c2, h2) = passed _ zero_address _ h1 in ap (λ x. x.cash_out_by_id) (returned h2)

  pub set_status-requests :
      (status : InstanceVerificationStatus) {s' : State R T}
      → set_status access token msg s status ≡ ok s'
      → s.cash_out_by_id ≡ s'.cash_out_by_id
  unfolding set_status
  set_status-requests status h =
      let (c1, h1) = passed _ missing_role _ h in ap (λ x. x.cash_out_by_id) (returned h1)

  pub set_metadata_uri-requests :
      (uri : String) {s' : State R T}
      → set_metadata_uri access token msg s uri ≡ ok s'
      → s.cash_out_by_id ≡ s'.cash_out_by_id
  unfolding set_metadata_uri
  set_metadata_uri-requests uri h =
      let (c1, h1) = passed _ missing_role _ h in ap (λ x. x.cash_out_by_id) (returned h1)
