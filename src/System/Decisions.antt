-- ===== src/System/Decisions.antt =====
-- The administrators' calls at the protocol's contract, which call the contract of a masjid, and do
-- not fail there.
use masjid_protocol.Prelude.{
  ◌⊎◌, ◌≢◌, ◌∙◌, ◌&&◌, sym, not, inr, inl, ◌≡◌, ◌↔◌, ℕ, true, some, refl, ok, false, ap, String,
}
use masjid_protocol.Contracts.{MasjidStatus, InstanceVerificationStatus}
use masjid_protocol.Register.Laws.{differs_iff}
use masjid_protocol.MasjidProtocol.{
  is_verified, is_flagged, Instances, State, flag, unflag, revoke, transfer_admin, restated,
  transferred, not_admin, masjid_not_found, invalid_status, not_masjid_admin, zero_address,
}
use masjid_protocol.MasjidProtocol.Calls.Changes.{
  Restates, revokes_verified, revokes_flagged, is_verified_of, is_flagged_of, is_revocable_of,
}
use masjid_protocol.CashOut.Instance.{zero_address_text}
use text.Mathlib.TextEquality.{eq_iff}
use text.Mathlib.Text.{◌==◌ as str_eq}
use masjid_protocol.Contracts as Contracts
use masjid_protocol.MasjidInstance.{AccessControl, Token, Message}
use masjid_protocol.MasjidProtocol.Calls.{Hashes}
use masjid_protocol.MasjidFactory.{Deployments, deployments}
use masjid_protocol.MasjidFactory.Laws.{call_at-some}
use masjid_protocol.MasjidInstance.Calls.ByProtocol.{set_status-accepted, set_admin-accepted}
use masjid_protocol.System.{System, Reach}
use masjid_protocol.System.Linked.{CreatedAddresses, IsLinked, has_contract, has_of}
use masjid_protocol.MasjidInstance as Instance
use masjid_protocol.System.Sound.{Reach-IsLinked}
use masjid_protocol.Prelude.Reverts.{passed, really, put}

revoked_from :
    {from : MasjidStatus}
    → Restates from Contracts.revoked Contracts.revoked
    → (from ≡ Contracts.verified) ⊎ (from ≡ Contracts.flagged)
revoked_from revokes_verified = inl refl
revoked_from revokes_flagged = inr refl

revocable :
    (status : MasjidStatus)
    → (status ≡ Contracts.verified) ⊎ (status ≡ Contracts.flagged)
    → (not (is_verified status) && not (is_flagged status)) ≡ false
revocable status (inl v) = rw v refl
revocable status (inr f) = rw f refl

module _ {R T : Type 0} (access : AccessControl R) (token : Token T) (address_of : ℕ → String)
    (addresses : CreatedAddresses address_of) (this : String) (msg : Message)
    (s : State (Deployments R T))
    (l : IsLinked access token address_of this s.masjid_by_id s.instances) (id : String) where
  abbrev calls : Instances (Deployments R T)
  calls = deployments access token address_of this msg

  addressed :
      has_contract (s.masjid_by_id id).status ≡ true
      → str_eq (s.masjid_by_id id).instance_addr zero_address_text ≡ false
  addressed has =
      let held = (l.link id).held has in
      (differs_iff zero_address_text (s.masjid_by_id id).instance_addr).1
        (λ e. addresses.nonzero held.number (sym held.at ∙ e))

  -- A masjid with a contract has an address, and its contract takes every status.
  restatable :
      (to' : InstanceVerificationStatus)
      → has_contract (s.masjid_by_id id).status ≡ true
      → (str_eq (s.masjid_by_id id).instance_addr zero_address_text ≡ false)
        × (i : Deployments R T) × (calls.set_status
              (s.masjid_by_id id).instance_addr
              to'
              s.instances
            ≡ some i)
  restatable to' has =
      let held = (l.link id).held has in
      let (c, accepted, _, _, _, _) =
        set_status-accepted access token this msg.timestamp held.contract held.matches.roles to' in
      (
        addressed has,
        record s.instances {
          contracts = put (s.masjid_by_id id).instance_addr (some c) s.instances.contracts;
        },
        call_at-some access token address_of (s.masjid_by_id id).instance_addr _ s.instances
            held.contract c held.found accepted,
      )

  sent_by_admin : msg.sender ≡ s.admin → str_eq msg.sender s.admin ≡ true
  sent_by_admin e = (eq_iff msg.sender s.admin).1 e

  flag_iff :
      ((s' : State (Deployments R T)) × (flag calls msg s id ≡ ok s'))
      ↔ ((msg.sender ≡ s.admin) × ((s.masjid_by_id id).status ≡ Contracts.verified))
  unfolding flag
  flag_iff = (
    λ (s', h).
        let (c1, h1) = passed _ not_admin _ h in
        let (c2, h2) = passed _ masjid_not_found _ h1 in
        let (c3, h3) = passed _ invalid_status _ h2 in
        ((eq_iff msg.sender s.admin).0 (really _ c1), is_verified_of _ c3),
    λ (sent, status).
        let (nonzero, i, taken) = restatable Contracts.flagged (ap has_contract status) in
        (
          restated calls msg s id Contracts.flagged i,
          rw (sent_by_admin sent, nonzero, status, taken) refl,
        ),
  )

  unflag_iff :
      ((s' : State (Deployments R T)) × (unflag calls msg s id ≡ ok s'))
      ↔ ((msg.sender ≡ s.admin) × ((s.masjid_by_id id).status ≡ Contracts.flagged))
  unfolding unflag
  unflag_iff = (
    λ (s', h).
        let (c1, h1) = passed _ not_admin _ h in
        let (c2, h2) = passed _ masjid_not_found _ h1 in
        let (c3, h3) = passed _ invalid_status _ h2 in
        ((eq_iff msg.sender s.admin).0 (really _ c1), is_flagged_of _ c3),
    λ (sent, status).
        let (nonzero, i, taken) = restatable Contracts.verified (ap has_contract status) in
        (
          restated calls msg s id Contracts.verified i,
          rw (sent_by_admin sent, nonzero, status, taken) refl,
        ),
  )

  revoke_iff : ((s' : State (Deployments R T)) × (revoke calls msg s id ≡ ok s')) ↔ (
      (msg.sender ≡ s.admin)
      × (((s.masjid_by_id id).status ≡ Contracts.verified)
          ⊎ ((s.masjid_by_id id).status ≡ Contracts.flagged)))
  unfolding revoke
  revoke_iff = (
    λ (s', h).
        let (c1, h1) = passed _ not_admin _ h in
        let (c2, h2) = passed _ masjid_not_found _ h1 in
        let (c3, h3) = passed _ invalid_status _ h2 in
        ((eq_iff msg.sender s.admin).0 (really _ c1), revoked_from (is_revocable_of _ c3)),
    λ (sent, status).
        let (nonzero, i, taken) =
          restatable Contracts.revoked
            (elim status [ inl v ↦ ap has_contract v | inr f ↦ ap has_contract f ]) in
        (
          restated calls msg s id Contracts.revoked i,
          rw (sent_by_admin sent, nonzero, revocable _ status, taken) refl,
        ),
  )

  transfer_admin_iff :
      (new_admin : String)
      → ((s' : State (Deployments R T)) × (transfer_admin calls msg s id new_admin ≡ ok s')) ↔ (
          ((s.masjid_by_id id).masjid_admin ≡ msg.sender)
          × (has_contract (s.masjid_by_id id).status ≡ true)
          × (new_admin ≢ zero_address_text))
  unfolding transfer_admin
  transfer_admin_iff new_admin = (
    λ (s', h).
        let (c1, h1) = passed _ not_masjid_admin _ h in
        let (c2, h2) = passed _ masjid_not_found _ h1 in
        let (c3, h3) = passed _ zero_address _ h2 in
        (
          (eq_iff (s.masjid_by_id id).masjid_admin msg.sender).0 (really _ c1),
          has_of access token address_of this (s.masjid_by_id id) s.instances id (l.link id) c2,
          (differs_iff zero_address_text new_admin).0 c3,
        ),
    λ (own, has, nonzero).
        let held = (l.link id).held has in
        let new = (differs_iff zero_address_text new_admin).1 nonzero in
        let (c, accepted, _, _, _, _) =
          set_admin-accepted access token this msg.timestamp held.contract held.matches.roles
            new_admin new in
        let taken =
          call_at-some access token address_of (s.masjid_by_id id).instance_addr
            (λ c.
              Instance.set_admin access token (record { sender = this; timestamp = msg.timestamp })
                c new_admin)
            s.instances held.contract c held.found accepted in
        (
          transferred calls msg s id new_admin (record s.instances {
            contracts = put (s.masjid_by_id id).instance_addr (some c) s.instances.contracts;
          }),
          rw ((eq_iff (s.masjid_by_id id).masjid_admin msg.sender).1 own, addressed has, new, taken)
              refl,
        ),
  )

-- When the four calls go through.
abbrev pub AreDecided :
    {R T : Type 0} (calls : Instances (Deployments R T)) (msg : Message)
    (s : State (Deployments R T)) (id new_admin : String)
    → Type 0
AreDecided {R} {T} calls msg s id new_admin =
    (((s' : State (Deployments R T)) × (flag calls msg s id ≡ ok s'))
      ↔ ((msg.sender ≡ s.admin) × ((s.masjid_by_id id).status ≡ Contracts.verified)))
    × (((s' : State (Deployments R T)) × (unflag calls msg s id ≡ ok s'))
        ↔ ((msg.sender ≡ s.admin) × ((s.masjid_by_id id).status ≡ Contracts.flagged)))
    × (((s' : State (Deployments R T)) × (revoke calls msg s id ≡ ok s')) ↔ (
        (msg.sender ≡ s.admin)
        × (((s.masjid_by_id id).status ≡ Contracts.verified)
            ⊎ ((s.masjid_by_id id).status ≡ Contracts.flagged))))
    × (((s' : State (Deployments R T)) × (transfer_admin calls msg s id new_admin ≡ ok s')) ↔ (
        ((s.masjid_by_id id).masjid_admin ≡ msg.sender)
        × (has_contract (s.masjid_by_id id).status ≡ true)
        × (new_admin ≢ zero_address_text)))

-- In any system that transactions lead to: the protocol's administrator, and no other account, can
-- flag a masjid exactly if it is verified, lift the flag exactly if it is flagged, and revoke it
-- exactly if it is verified or flagged; and the masjid's own administrator, and no other account,
-- can pass the administration on exactly if the masjid is verified, flagged or revoked and the new
-- administrator is not the zero address. The calls of the masjid's contract that are part of these
-- never fail.
pub decisions-accepted_iff :
    {R T : Type 0} (hashes : Hashes) (access : AccessControl R) (token : Token T)
    (address_of : ℕ → String) (addresses : CreatedAddresses address_of) (this : String)
    {sys : System R T} (msg : Message) (id new_admin : String)
    → Reach hashes access token address_of this sys
    → AreDecided (deployments access token address_of this msg) msg sys.protocol id new_admin
decisions-accepted_iff hashes access token address_of addresses this {sys} msg id new_admin reach =
    let l = Reach-IsLinked hashes access token address_of addresses this reach in
    (
      flag_iff access token address_of addresses this msg sys.protocol l id,
      unflag_iff access token address_of addresses this msg sys.protocol l id,
      revoke_iff access token address_of addresses this msg sys.protocol l id,
      transfer_admin_iff access token address_of addresses this msg sys.protocol l id new_admin,
    )
