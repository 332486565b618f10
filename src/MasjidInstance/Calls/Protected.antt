-- ===== src/MasjidInstance/Calls/Protected.antt =====
-- What only the protocol's contract can change in the contract of a masjid.
use masjid_protocol.Prelude.{
  subst, ◌≢◌, ◌≡◌, ◌∙◌, true, sym, refl, ok, not, inl, false, ap, String, Result,
}
use text.Mathlib.TextEquality.{eq_iff}
use text.Mathlib.Text.{◌==◌ as str_eq}
use masjid_protocol.MasjidInstance.{
  str_eq, set_status, set_metadata_uri, set_cash_out_threshold, set_board_member, set_admin,
  protocol_role, cash_in, board_role, Token, State, Message, AccessControl,
}
use masjid_protocol.Prelude.Reverts.{◌>>◌, revert_if, returned, really, passed}
use masjid_protocol.MasjidInstance.Calls.{
  setting_uri, setting_threshold, setting_status, setting_member, setting_admin, proposing, perform,
  executing, cashing_in, canceling, approving, Call,
}
use masjid_protocol.MasjidInstance.Calls.Guards.{
  propose-eq-ok, execute-eq-ok, cancel-eq-ok, approve-eq-ok,
}
use masjid_protocol.CashOut.Instance.{
  zero_address, transfer_failed, panic, missing_role, invalid_threshold, duplicate_verifier,
  amount_zero, Revert,
}

module _ {R T : Type 0} (access : AccessControl R) (token : Token T) (protocol : String) where
  -- The protocol's contract, and no other account, has the protocol's role.
  abbrev pub HasProtocol : R → Type 0
  HasProtocol roles =
      (account : String) → access.has_role protocol_role account roles ≡ str_eq protocol account

  -- The parts of the state that the protocol's contract decides on are as they were.
  pub record Untouched (s s' : State R T) : Type 0 where
    pub status : s'.status ≡ s.status
    pub masjid_admin : s'.masjid_admin ≡ s.masjid_admin
    pub masjid_name : s'.masjid_name ≡ s.masjid_name
    pub roles :
        (account : String)
        → access.has_role protocol_role account s'.roles
          ≡ access.has_role protocol_role account s.roles

  protocol_unlike_board : protocol_role ≢ board_role
  protocol_unlike_board h = cc

  -- A change of the parts apart from these.
  apart :
      (s s' : State R T)
      → s'.status ≡ s.status
      → s'.masjid_admin ≡ s.masjid_admin
      → s'.masjid_name ≡ s.masjid_name
      → s'.roles ≡ s.roles
      → Untouched s s'
  apart s s' e1 e2 e3 e4 = record {
    status = e1;
    masjid_admin = e2;
    masjid_name = e3;
    roles = λ account. ap (access.has_role protocol_role account) e4;
  }

  module _ (msg : Message) (s : State R T) (other : msg.sender ≢ protocol)
      (has : HasProtocol s.roles) where
    refused :
        {A : Type 0} (k : Result Revert A) {x : A}
        → (revert_if (not (access.has_role protocol_role msg.sender s.roles)) missing_role >> k)
          ≡ ok x
        → ⊥
    refused k h =
        let (c, _) = passed _ missing_role k h in
        other (sym ((eq_iff protocol msg.sender).0 (sym (has msg.sender) ∙ really _ c)))

    -- A call of any account but the protocol's contract leaves them.
    pub perform-Untouched :
        (call : Call) {s' : State R T} → perform access token msg call s ≡ ok s' → Untouched s s'
    unfolding perform cash_in set_board_member set_cash_out_threshold set_admin set_status
        set_metadata_uri
    perform-Untouched (cashing_in amount) h =
        let (c1, h1) = passed _ amount_zero _ h in
        let (c2, h2) = passed _ transfer_failed _ h1 in
        subst (Untouched s) (returned h2) (apart s _ refl refl refl refl)
    perform-Untouched (proposing p) h =
        subst (Untouched s) (sym (propose-eq-ok access token msg s p h))
          (apart s _ refl refl refl refl)
    perform-Untouched (approving id) h =
        subst (Untouched s) (sym ((approve-eq-ok access token msg s id h).1))
          (apart s _ refl refl refl refl)
    perform-Untouched (executing id) h =
        subst (Untouched s) (sym ((execute-eq-ok access token msg s id h).2))
          (apart s _ refl refl refl refl)
    perform-Untouched (canceling id) h =
        subst (Untouched s) (sym ((cancel-eq-ok access token msg s id h).3))
          (apart s _ refl refl refl refl)
    perform-Untouched (setting_member member true) h =
        let (c1, h1) = passed _ missing_role _ h in
        let (c2, h2) = passed _ zero_address _ h1 in
        let (c3, h3) = passed _ duplicate_verifier _ h2 in
        subst (Untouched s) (returned h3) (record {
          status = refl;
          masjid_admin = refl;
          masjid_name = refl;
          roles = λ account.
              access.grant-other protocol_role board_role account member s.roles
                (inl protocol_unlike_board);
        })
    perform-Untouched (setting_member member false) h =
        let (c1, h1) = passed _ missing_role _ h in
        let (c2, h2) = passed _ zero_address _ h1 in
        let (c3, h3) = passed _ panic _ h2 in
        let (c4, h4) = passed _ invalid_threshold _ h3 in
        subst (Untouched s) (returned h4) (record {
          status = refl;
          masjid_admin = refl;
          masjid_name = refl;
          roles = λ account.
              access.revoke-other protocol_role board_role account member s.roles
                (inl protocol_unlike_board);
        })
    perform-Untouched (setting_threshold threshold) h =
        let (c1, h1) = passed _ missing_role _ h in
        let (c2, h2) = passed _ invalid_threshold _ h1 in
        let (c3, h3) = passed _ invalid_threshold _ h2 in
        subst (Untouched s) (returned h3) (apart s _ refl refl refl refl)
    perform-Untouched (setting_admin admin) h = absurd (refused _ h)
    perform-Untouched (setting_status status) h = absurd (refused _ h)
    perform-Untouched (setting_uri uri) h = absurd (refused _ h)
