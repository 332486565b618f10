-- ===== src/MasjidProtocol/Calls/Changes.antt =====
-- A call that goes through has made one of six changes: what it has checked, and the state that it
-- leaves.
use masjid_protocol.Prelude.{
  ◌&&◌, sym, refl, ok, not, leb, inr, inl, Bool-cases, ◌≡◌, suc, some, false, String, List, Bool,
}
use masjid_protocol.MasjidProtocol.{
  zero_address, unflag, transfer_admin, set_status, revoke, register, overflow, not_masjid_admin,
  not_admin, masjid_not_found, is_verified, is_flagged, invalid_status, flag, empty_name, decided,
  already_registered_name, zero_address_text, str_eq, is_empty, Message, voted, transferred,
  restated, rejected_at, registered, is_taken, counted,
}
use masjid_protocol.MasjidProtocol.Calls.{
  unflagging, transferring, revoking, registering, perform, flagging, attesting, Call, Hashes,
}
use masjid_protocol.MasjidProtocol.Laws.{
  verified_at-eq-ok, Deployed, called-eq-ok, attest-eq-ok, Counted,
}
use masjid_protocol.Contracts as Contracts
use masjid_protocol.Prelude.Reverts.{passed, returned}
use masjid_protocol.CashOut.Instance.{zero_address_text}
use text.Mathlib.Text.{◌==◌ as str_eq}
use masjid_protocol.Prelude.Text.{is_empty}
use masjid_protocol.MasjidInstance.{Message}
use masjid_protocol.MasjidProtocol.Storage.{State, Registry, Instances}
use masjid_protocol.Contracts.{MasjidStatus, InstanceVerificationStatus}

-- The administrator's decisions on a masjid that was verified.
pub data Restates : MasjidStatus → MasjidStatus → InstanceVerificationStatus → Type 0 where
  flags : Restates Contracts.verified Contracts.flagged Contracts.flagged
  unflags : Restates Contracts.flagged Contracts.verified Contracts.verified
  revokes_verified : Restates Contracts.verified Contracts.revoked Contracts.revoked
  revokes_flagged : Restates Contracts.flagged Contracts.revoked Contracts.revoked

module _ {I : Type 0} (hashes : Hashes) (contracts : Instances I) (registry : Registry)
    (msg : Message) (s s' : State I) where
  pub data Changes : Type 0 where
    registers :
        (masjid_name metadata_uri stablecoin : String) (board : List String)
        → is_empty masjid_name ≡ false
        → str_eq stablecoin zero_address_text ≡ false
        → is_taken contracts msg s (hashes.hash_name masjid_name) ≡ false
        → s'
          ≡ registered contracts msg s
              (hashes.hash_name masjid_name)
              (hashes.hash_id (suc s.masjid_nonce) msg.sender (hashes.hash_name masjid_name))
              masjid_name
              metadata_uri
              stablecoin
              board
        → Changes
    counts :
        (id : String) (support : Bool)
        → Counted contracts msg s registry id
        → s' ≡ counted contracts msg s id support
        → Changes
    verifies :
        (id : String) (support : Bool)
        → Counted contracts msg s registry id
        → Deployed contracts msg s id
            (voted contracts msg s support (s.masjid_by_id id))
            (counted contracts msg s id support)
            s'
        → Changes
    rejects :
        (id : String) (support : Bool)
        → Counted contracts msg s registry id
        → s'
          ≡ rejected_at contracts msg s id
              (voted contracts msg s support (s.masjid_by_id id))
              (counted contracts msg s id support)
        → Changes
    transfers :
        (id new_admin : String) (i : I)
        → str_eq (s.masjid_by_id id).instance_addr zero_address_text ≡ false
        → str_eq new_admin zero_address_text ≡ false
        → contracts.set_admin (s.masjid_by_id id).instance_addr new_admin s.instances ≡ some i
        → s' ≡ transferred contracts msg s id new_admin i
        → Changes
    restates :
        (id : String) (to : MasjidStatus) (to' : InstanceVerificationStatus) (i : I)
        → Restates (s.masjid_by_id id).status to to'
        → contracts.set_status (s.masjid_by_id id).instance_addr to' s.instances ≡ some i
        → s' ≡ restated contracts msg s id to i
        → Changes

pub is_verified_of :
    (status : MasjidStatus) → not (is_verified status) ≡ false → status ≡ Contracts.verified
is_verified_of Contracts.MasjidStatus.verified h = refl
is_verified_of Contracts.MasjidStatus.none_status h = cc
is_verified_of Contracts.MasjidStatus.pending h = cc
is_verified_of Contracts.MasjidStatus.rejected h = cc
is_verified_of Contracts.MasjidStatus.flagged h = cc
is_verified_of Contracts.MasjidStatus.revoked h = cc

pub is_flagged_of :
    (status : MasjidStatus) → not (is_flagged status) ≡ false → status ≡ Contracts.flagged
is_flagged_of Contracts.MasjidStatus.flagged h = refl
is_flagged_of Contracts.MasjidStatus.none_status h = cc
is_flagged_of Contracts.MasjidStatus.pending h = cc
is_flagged_of Contracts.MasjidStatus.rejected h = cc
is_flagged_of Contracts.MasjidStatus.verified h = cc
is_flagged_of Contracts.MasjidStatus.revoked h = cc

pub is_revocable_of :
    (status : MasjidStatus)
    → (not (is_verified status) && not (is_flagged status)) ≡ false
    → Restates status Contracts.revoked Contracts.revoked
is_revocable_of Contracts.MasjidStatus.flagged h = revokes_flagged
is_revocable_of Contracts.MasjidStatus.verified h = revokes_verified
is_revocable_of Contracts.MasjidStatus.none_status h = cc
is_revocable_of Contracts.MasjidStatus.pending h = cc
is_revocable_of Contracts.MasjidStatus.rejected h = cc
is_revocable_of Contracts.MasjidStatus.revoked h = cc

module _ {I : Type 0} (hashes : Hashes) (contracts : Message → Instances I) (registry : Registry)
    (msg : Message) (s : State I) where
  restated-Changes :
      (id : String) (to : MasjidStatus) (to' : InstanceVerificationStatus) {s' : State I}
      → Restates (s.masjid_by_id id).status to to'
      → set_status (contracts msg) msg s id to to' ≡ ok s'
      → Changes hashes (contracts msg) registry msg s s'
  restated-Changes id to to' r h =
      let (i, e, e') = called-eq-ok _ _ h in restates id to to' i r e (sym e')

  decided-Changes :
      (id : String) (support : Bool) {s' : State I}
      → Counted (contracts msg) msg s registry id
      → decided
          (contracts msg)
          msg
          s
          registry.quorum
          id
          (voted (contracts msg) msg s support (s.masjid_by_id id))
          (counted (contracts msg) msg s id support)
        ≡ ok s'
      → Changes hashes (contracts msg) registry msg s s'
  decided-Changes id support c h =
      let m = voted (contracts msg) msg s support (s.masjid_by_id id) in
      elim (Bool-cases (leb registry.quorum m.attest_yes)) [
        | inl a ↦
            verifies id support c (verified_at-eq-ok (contracts msg) msg s id m _ (rw (a) at h))
        | inr a ↦ elim (Bool-cases (leb registry.quorum m.attest_no)) [
          | inl b ↦ rejects id support c (sym (returned (rw (a, b) at h)))
          | inr b ↦ counts id support c (sym (returned (rw (a, b) at h)))
        ]
      ]

  pub perform-Changes :
      (call : Call) {s' : State I}
      → perform hashes contracts registry msg call s ≡ ok s'
      → Changes hashes (contracts msg) registry msg s s'
  unfolding perform register transfer_admin flag unflag revoke
  perform-Changes (registering masjid_name metadata_uri stablecoin board) h =
      let (c1, h1) = passed _ empty_name _ h in
      let (c2, h2) = passed _ zero_address _ h1 in
      let (c3, h3) = passed _ zero_address _ h2 in
      let (c4, h4) = passed _ already_registered_name _ h3 in
      let (c5, h5) = passed _ overflow _ h4 in
      registers masjid_name metadata_uri stablecoin board c1 c2 c4 (sym (returned h5))
  perform-Changes (attesting id support) h =
      let (c, h') = attest-eq-ok (contracts msg) msg s registry id support h in
      decided-Changes id support c h'
  perform-Changes (transferring id new_admin) h =
      let (c1, h1) = passed _ not_masjid_admin _ h in
      let (c2, h2) = passed _ masjid_not_found _ h1 in
      let (c3, h3) = passed _ zero_address _ h2 in
      let (i, e, e') = called-eq-ok _ _ h3 in transfers id new_admin i c2 c3 e (sym e')
  perform-Changes (flagging id) h =
      let (c1, h1) = passed _ not_admin _ h in
      let (c2, h2) = passed _ masjid_not_found _ h1 in
      let (c3, h3) = passed _ invalid_status _ h2 in
      restated-Changes id Contracts.flagged Contracts.flagged
        (rw (is_verified_of (s.masjid_by_id id).status c3) flags) h3
  perform-Changes (unflagging id) h =
      let (c1, h1) = passed _ not_admin _ h in
      let (c2, h2) = passed _ masjid_not_found _ h1 in
      let (c3, h3) = passed _ invalid_status _ h2 in
      restated-Changes id Contracts.verified Contracts.verified
        (rw (is_flagged_of (s.masjid_by_id id).status c3) unflags) h3
  perform-Changes (revoking id) h =
      let (c1, h1) = passed _ not_admin _ h in
      let (c2, h2) = passed _ masjid_not_found _ h1 in
      let (c3, h3) = passed _ invalid_status _ h2 in
      restated-Changes id _ _ (is_revocable_of _ c3) h3
