-- ===== src/System/Linked/Calls.antt =====
-- The calls of the protocol's contract keep the masjids linked to their contracts.

use masjid_protocol.System.Linked.{
  has_of, zero_address_text, CreatedAddresses, has_contract, instance_status, Bare, IsLinked,
}
use masjid_protocol.System.Linked.Changed.{bare-IsLinked, held-IsLinked}
use masjid_protocol.CashOut.Instance.{zero_address_text}
use text.Mathlib.Text.{◌==◌ as str_eq}
use masjid_protocol.Prelude.{
  suc, ◌≡◌, ◌∙◌, ℕ, true, sym, subst, some, refl, false, ap, String, Bool,
}
use masjid_protocol.Contracts as Contracts
use masjid_protocol.MasjidFactory.{created_with, Deployments, deployments}
use masjid_protocol.MasjidInstance.Calls.Protected.{HasProtocol}
use masjid_protocol.MasjidInstance.{protocol_role, AccessControl, Token, Message}
use masjid_protocol.System.Linked.Created.{after, created-IsLinked}
use masjid_protocol.Contracts.{pending, rejected, MasjidStatus, InstanceVerificationStatus}
use masjid_protocol.MasjidFactory.Laws.{call_at-eq-some, deploy-eq-some}
use masjid_protocol.MasjidInstance.Calls.ByProtocol.{
  set_status-accepted, set_admin-accepted, constructor'-Made,
}
use masjid_protocol.MasjidProtocol.{
  Masjid, Registry, State, Instances, voted, counted, now, rejected_at, restated, transferred,
  registered, new_masjid, verified_with,
}
use masjid_protocol.MasjidProtocol.Laws.{Counted, Deployed}
use masjid_protocol.MasjidProtocol.Calls.{Hashes}
use masjid_protocol.MasjidProtocol.Calls.Changes.{
  Changes, Restates, flags, unflags, revokes_verified, revokes_flagged, registers, counts, verifies,
  rejects, transfers, restates,
}
use masjid_protocol.MasjidProtocol.Calls.Names.{IsNamed}
use masjid_protocol.MasjidProtocol.Calls.Moves.{unused}
use masjid_protocol.Prelude.Reverts.{put, put-cases, put_twice-cases, put-same, returned}

Restates-contract :
    {from to : MasjidStatus} {to' : InstanceVerificationStatus}
    → Restates from to to'
    → (has_contract from ≡ true) × (has_contract to ≡ true) × (to' ≡ instance_status to)
Restates-contract flags = (refl, refl, refl)
Restates-contract unflags = (refl, refl, refl)
Restates-contract revokes_verified = (refl, refl, refl)
Restates-contract revokes_flagged = (refl, refl, refl)

module _ {R T : Type 0} (hashes : Hashes) (access : AccessControl R) (token : Token T)
    (address_of : ℕ → String) (addresses : CreatedAddresses address_of) (this : String) where
  abbrev Linked : (String → Masjid) → Deployments R T → Type 0
  Linked = IsLinked access token address_of this

  module _ (registry : Registry) (msg : Message) (s s' : State (Deployments R T)) where
    abbrev calls : Instances (Deployments R T)
    calls = deployments access token address_of this msg

    Bare-of :
        (id : String) (status : MasjidStatus)
        → (s.masjid_by_id id).status ≡ status
        → has_contract status ≡ false
        → Linked s.masjid_by_id s.instances
        → Bare access token address_of this (s.masjid_by_id id) s.instances id
    Bare-of id status e h l = (l.link id).bare (ap has_contract e ∙ h)

    verifies-Linked :
        (id : String) (support : Bool)
        → Counted calls msg s registry id
        → Deployed calls msg s id
            (voted calls msg s support (s.masjid_by_id id))
            (counted calls msg s id support)
            s'
        → Linked s.masjid_by_id s.instances
        → Linked s'.masjid_by_id s'.instances
    verifies-Linked id support c d l =
        let m = voted calls msg s support (s.masjid_by_id id) in
        let m' = record m {
          instance_addr = d.instance_addr;
          status = Contracts.verified;
          updated_at = now calls msg s;
        } in
        let b = Bare-of id pending c.waiting refl l in
        let made =
          deploy-eq-some access token address_of this msg s.instances id m.masjid_name
            m.metadata_uri m.proposer m.stablecoin (s.board_members id) m.cash_out_threshold
            d.instance_addr d.i d.deployed in
        let new =
          constructor'-Made access token (address_of s.instances.created) s.instances.protocol
            m.masjid_name m.metadata_uri m.proposer m.stablecoin (s.board_members id)
            m.cash_out_threshold s.instances.token made.made in
        let roles : HasProtocol access token this made.contract.roles =
          subst (λ x. HasProtocol access token x made.contract.roles) l.protocol new.roles in
        let i = created_with access token address_of id made.contract s.instances in
        let found : d.i.contracts d.instance_addr ≡ some made.contract =
          ap (λ (x : Deployments R T). x.contracts d.instance_addr) made.after
          ∙ ap i.contracts made.at
          ∙ put-same (address_of s.instances.created) (some made.contract) s.instances.contracts in
        let (c', e, e') =
          call_at-eq-some access token address_of d.instance_addr _ d.i made.contract found d.set in
        let (c2, accepted, e1, e2, e3, e4) =
          set_status-accepted access token this msg.timestamp made.contract roles
            Contracts.verified in
        let same = returned (sym accepted ∙ e) in
        let f' =
          (verified_with calls msg s d.instance_addr id m d.i'
            (counted calls msg s id support)).masjid_by_id in
        let d' =
          after access token address_of addresses this s.masjid_by_id f' s.instances id m'
            made.contract c' in
        let reached : d.i' ≡ d' =
          e'
          ∙ ap
              (λ (x : Deployments R T). record x {
                contracts = put d.instance_addr (some c') x.contracts;
              })
              made.after
          ∙ ap (λ x. record i { contracts = put x (some c') i.contracts }) made.at in
        rw d.after (
          subst (Linked f') (sym reached) (
            created-IsLinked access token address_of addresses this s.masjid_by_id f' s.instances id
              m' made.contract c' (λ k. put_twice-cases id k m' m s.masjid_by_id)
              (ap has_contract c.waiting) refl made.at roles
              (record {
                status = ap (λ x. x.status) (sym same) ∙ e1;
                masjid_admin =
                    ap (λ x. x.masjid_admin) (sym same) ∙ e2 ∙ new.masjid_admin ∙ sym b.own;
                masjid_name = ap (λ x. x.masjid_name) (sym same) ∙ e3 ∙ new.masjid_name;
                roles = λ account.
                    ap (λ x. access.has_role protocol_role account x.roles) (sym same)
                    ∙ ap (access.has_role protocol_role account) e4
                    ∙ roles account;
              })
              l))

    Restates-Linked :
        (id : String) (to : MasjidStatus) (to' : InstanceVerificationStatus) (i : Deployments R T)
        → Restates (s.masjid_by_id id).status to to'
        → calls.set_status (s.masjid_by_id id).instance_addr to' s.instances ≡ some i
        → Linked s.masjid_by_id s.instances
        → Linked (restated calls msg s id to i).masjid_by_id i
    Restates-Linked id to to' i r h l =
        let m = record (s.masjid_by_id id) { status = to; updated_at = now calls msg s } in
        let (before, after, status) = Restates-contract r in
        let held = (l.link id).held before in
        let (c', e, e') =
          call_at-eq-some access token address_of (s.masjid_by_id id).instance_addr _ s.instances
            held.contract held.found h in
        let (c2, accepted, e1, e2, e3, e4) =
          set_status-accepted access token this msg.timestamp held.contract held.matches.roles
            to' in
        let same = returned (sym accepted ∙ e) in
        subst (Linked (restated calls msg s id to i).masjid_by_id) (sym e') (
          held-IsLinked access token address_of this s.masjid_by_id
            (restated calls msg s id to i).masjid_by_id s.instances id m c'
            (λ k. put-cases id k m s.masjid_by_id) before after refl
            (record {
              status = ap (λ x. x.status) (sym same) ∙ e1 ∙ status;
              masjid_admin = ap (λ x. x.masjid_admin) (sym same) ∙ e2 ∙ held.matches.masjid_admin;
              masjid_name = ap (λ x. x.masjid_name) (sym same) ∙ e3 ∙ held.matches.masjid_name;
              roles = λ account.
                  ap (λ x. access.has_role protocol_role account x.roles) (sym same)
                  ∙ ap (access.has_role protocol_role account) e4
                  ∙ held.matches.roles account;
            })
            l)

    transfers-Linked :
        (id admin : String) (i : Deployments R T)
        → str_eq (s.masjid_by_id id).instance_addr zero_address_text ≡ false
        → str_eq admin zero_address_text ≡ false
        → calls.set_admin (s.masjid_by_id id).instance_addr admin s.instances ≡ some i
        → Linked s.masjid_by_id s.instances
        → Linked (transferred calls msg s id admin i).masjid_by_id i
    transfers-Linked id admin i c1 c2 h l =
        let m = record (s.masjid_by_id id) { masjid_admin = admin; updated_at = now calls msg s } in
        let before =
          has_of access token address_of this (s.masjid_by_id id) s.instances id (l.link id) c1 in
        let held = (l.link id).held before in
        let (c', e, e') =
          call_at-eq-some access token address_of (s.masjid_by_id id).instance_addr _ s.instances
            held.contract held.found h in
        let (c2, accepted, e1, e2, e3, e4) =
          set_admin-accepted access token this msg.timestamp held.contract held.matches.roles admin
            c2 in
        let same = returned (sym accepted ∙ e) in
        subst (Linked (transferred calls msg s id admin i).masjid_by_id) (sym e') (
          held-IsLinked access token address_of this s.masjid_by_id
            (transferred calls msg s id admin i).masjid_by_id s.instances id m c'
            (λ k. put-cases id k m s.masjid_by_id) before before refl
            (record {
              status = ap (λ x. x.status) (sym same) ∙ e1 ∙ held.matches.status;
              masjid_admin = ap (λ x. x.masjid_admin) (sym same) ∙ e2;
              masjid_name = ap (λ x. x.masjid_name) (sym same) ∙ e3 ∙ held.matches.masjid_name;
              roles = λ account.
                  ap (λ x. access.has_role protocol_role account x.roles) (sym same) ∙ e4 account;
            })
            l)

    pub Changes-Linked :
        Changes hashes calls registry msg s s'
        → IsNamed hashes s
        → Linked s.masjid_by_id s.instances
        → Linked s'.masjid_by_id s'.instances
    Changes-Linked (registers name uri coin board c1 c2 c3 e) n l =
        let name_hash = hashes.hash_name name in
        let id = hashes.hash_id (suc s.masjid_nonce) msg.sender name_hash in
        let m = new_masjid calls msg s name_hash id name uri coin board in
        rw e (
          bare-IsLinked access token address_of this s.masjid_by_id
            (registered calls msg s name_hash id name uri coin board).masjid_by_id s.instances id m
            (λ k. put-cases id k m s.masjid_by_id)
            (ap has_contract (unused hashes s msg.sender name_hash n)) refl refl refl l)
    Changes-Linked (counts id support c e) n l =
        let m = voted calls msg s support (s.masjid_by_id id) in
        let b = Bare-of id pending c.waiting refl l in
        rw e (
          bare-IsLinked access token address_of this s.masjid_by_id
            (counted calls msg s id support).masjid_by_id s.instances id m
            (λ k. put-cases id k m s.masjid_by_id) (ap has_contract c.waiting)
            (ap has_contract c.waiting) refl b.own l)
    Changes-Linked (verifies id support c d) n l = verifies-Linked id support c d l
    Changes-Linked (rejects id support c e) n l =
        let m = voted calls msg s support (s.masjid_by_id id) in
        let m' = record m { status = rejected; updated_at = now calls msg s } in
        let b = Bare-of id pending c.waiting refl l in
        rw e (
          bare-IsLinked access token address_of this s.masjid_by_id
            (rejected_at calls msg s id m (counted calls msg s id support)).masjid_by_id s.instances
            id m' (λ k. put_twice-cases id k m' m s.masjid_by_id) (ap has_contract c.waiting) refl
            refl b.own l)
    Changes-Linked (transfers id admin i c1 c2 c3 e) n l =
        rw e (transfers-Linked id admin i c1 c2 c3 l)
    Changes-Linked (restates id to to' i r h e) n l = rw e (Restates-Linked id to to' i r h l)
