-- ===== src/MasjidInstance/Calls/ByProtocol.antt =====
-- The deployment of a masjid's contract, and the calls that the protocol's contract makes of it.
use masjid_protocol.Prelude.{
  ◌==◌, if◌then◌else◌, ◌^◌, ◌&&◌, ◌%◌, ◌≢◌, ◌≡◌, ◌∷◌, ◌∙◌, ℕ, true, sym, suc, subst, refl, ok, inr,
  inl, false, ap, [], String, List, Bool-cases,
}
use masjid_protocol.CashOut.Instance.{
  is_verified, zero_address, zero_address_text, invalid_threshold, duplicate_verifier,
}
use text.Mathlib.TextEquality.{eq_iff}
use text.Mathlib.Text.{◌==◌ as str_eq}
use masjid_protocol.MasjidInstance.{
  str_eq, InstanceVerificationStatus, set_status, set_admin, protocol_role, constructor',
  board_role, admin_role, add_members, Token, State, Message, AccessControl,
}
use masjid_protocol.Contracts.{InstanceVerificationStatus}
use masjid_protocol.MasjidInstance.Calls.Protected.{HasProtocol}
use masjid_protocol.MasjidInstance.Calls.Guards.{passed, returned, then_ok-eq-ok}

module _ {R T : Type 0} (access : AccessControl R) (token : Token T) where
  protocol_unlike_board : protocol_role ≢ board_role
  protocol_unlike_board h = cc

  protocol_unlike_admin : protocol_role ≢ admin_role
  protocol_unlike_admin h = cc

  add_members-protocol :
      (members : List String) (roles : R) (n : ℕ) (account : String) {added : R × ℕ}
      → add_members access token members roles n ≡ ok added
      → access.has_role protocol_role account added.0 ≡ access.has_role protocol_role account roles
  unfolding add_members
  add_members-protocol [] roles n account h =
      ap (λ (x : R × ℕ). access.has_role protocol_role account x.0) (sym (returned h))
  add_members-protocol (member ∷ members) roles n account h =
      let (c1, h1) = passed (str_eq member zero_address_text) zero_address _ h in
      let (c2, h2) = passed (access.has_role board_role member roles) duplicate_verifier _ h1 in
      add_members-protocol members (access.grant_role board_role member roles) (suc n) account h2
      ∙ access.grant-other protocol_role board_role account member roles (inl protocol_unlike_board)

  first_roles :
      (protocol admin account : String)
      → access.has_role protocol_role account (
          access.grant_role admin_role admin
            (access.grant_role protocol_role protocol access.no_roles))
        ≡ str_eq protocol account
  first_roles protocol admin account =
      access.grant-other protocol_role admin_role account admin _ (inl protocol_unlike_admin)
      ∙ elim (Bool-cases (str_eq protocol account)) [
        | inl same ↦
            subst
              (λ x.
                access.has_role protocol_role x
                  (access.grant_role protocol_role protocol access.no_roles)
                ≡ str_eq protocol account)
              ((eq_iff protocol account).0 same)
              (access.grant-has protocol_role protocol access.no_roles ∙ sym same)
        | inr apart ↦
            access.grant-other protocol_role protocol_role account protocol access.no_roles
              (inr (λ e. cc (apart, (eq_iff protocol account).1 (sym e))))
            ∙ access.none-has protocol_role account
            ∙ sym apart
      ]

  -- A new contract.
  pub record Made (protocol name admin : String) (c : State R T) : Type 0 where
    pub masjid_name : c.masjid_name ≡ name
    pub masjid_admin : c.masjid_admin ≡ admin
    pub roles : HasProtocol access token protocol c.roles

  pub constructor'-Made :
      (this protocol name uri admin stablecoin : String) (members : List String) (threshold : ℕ)
      (t : T) {c : State R T}
      → constructor' access token this protocol name uri admin stablecoin members threshold t ≡ ok c
      → Made protocol name admin c
  unfolding constructor'
  constructor'-Made this protocol name uri admin stablecoin members threshold t h =
      let (c1, h1) = passed _ zero_address _ h in
      let (c2, h2) = passed _ invalid_threshold _ h1 in
      let (c3, h3) = passed _ invalid_threshold _ h2 in
      let (added, h4, e) = then_ok-eq-ok _ _ h3 in
      record {
        masjid_name = ap (λ x. x.masjid_name) (sym e);
        masjid_admin = ap (λ x. x.masjid_admin) (sym e);
        roles = λ account.
            ap (λ x. access.has_role protocol_role account x.roles) (sym e)
            ∙ add_members-protocol members _ 0 account h4
            ∙ first_roles protocol admin account;
      }

  module _ (protocol : String) (timestamp : ℕ) (s : State R T)
      (has : HasProtocol access token protocol s.roles) where
    abbrev pub by_protocol : Message
    by_protocol = record { sender = protocol; timestamp = timestamp }

    allowed : access.has_role protocol_role protocol s.roles ≡ true
    allowed = has protocol ∙ (eq_iff protocol protocol).1 refl

    -- The protocol's contract may always set the status.
    pub set_status-accepted :
        (status : InstanceVerificationStatus)
        → (c : State R T) × (set_status access token by_protocol s status ≡ ok c)
          × (c.status ≡ status)
          × (c.masjid_admin ≡ s.masjid_admin)
          × (c.masjid_name ≡ s.masjid_name)
          × (c.roles ≡ s.roles)
    unfolding set_status
    set_status-accepted status =
        let c : State R T = record s {
          status = status;
          verified_at =
              if is_verified status && (s.verified_at == 0)
              then timestamp % 2 ^ 64
              else s.verified_at;
        } in
        (c, rw allowed refl, refl, refl, refl, refl)

    after_admin :
        (new_admin account : String)
        → access.has_role protocol_role account (
            access.grant_role admin_role new_admin
              (access.revoke_role admin_role s.masjid_admin s.roles))
          ≡ str_eq protocol account
    after_admin new_admin account =
        access.grant-other protocol_role admin_role account new_admin _ (inl protocol_unlike_admin)
        ∙ access.revoke-other protocol_role admin_role account s.masjid_admin s.roles
            (inl protocol_unlike_admin)
        ∙ has account

    pub set_admin-accepted :
        (new_admin : String)
        → str_eq new_admin zero_address_text ≡ false
        → (c : State R T) × (set_admin access token by_protocol s new_admin ≡ ok c)
          × (c.status ≡ s.status)
          × (c.masjid_admin ≡ new_admin)
          × (c.masjid_name ≡ s.masjid_name)
          × HasProtocol access token protocol c.roles
    unfolding set_admin
    set_admin-accepted new_admin nonzero =
        let c : State R T = record s {
          roles =
              access.grant_role admin_role new_admin
                (access.revoke_role admin_role s.masjid_admin s.roles);
          masjid_admin = new_admin;
        } in
        (c, rw (allowed, nonzero) refl, refl, refl, refl, after_admin new_admin)
