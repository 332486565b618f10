-- ===== src/MasjidProtocol/Calls/Names.antt =====
-- The numbers and the names of the masjids, and what keeps the index of the names right.
pub mod Unique
use masjid_protocol.Prelude.Reverts.{put, put-same, put-other, put_twice-cases, put-cases}
use masjid_protocol.Prelude.{
  ok, arith, Bool-cases, ◌&&◌, not, suc, List, ◌⊎◌, ◌≤◌, ◌≢◌, ◌≡◌, ◌∙◌, ℕ, true, sym, subst, refl,
  inr, inl, false, ap, String, Bool,
}
use masjid_protocol.MasjidProtocol.Calls.{transact_all, constructor', Transaction, Hashes}
use masjid_protocol.MasjidProtocol.Calls.Changes.{
  verifies, transfers, restates, rejects, registers, counts, Changes, unflags, revokes_verified,
  revokes_flagged, flags, Restates,
}
use masjid_protocol.MasjidProtocol.Calls.Kept.{transact_all-keeps, constructor'-eq-ok}
use text.Mathlib.TextEquality.{eq_iff}
use masjid_protocol.MasjidProtocol.{
  new_masjid, str_eq, zero_hash, transferred, is_rejected, Message, voted, verified_with, restated,
  rejected_at, registered, now, is_taken, counted, Registry, Instances, State, Masjid,
}
use text.Mathlib.Text.{◌==◌ as str_eq}
use masjid_protocol.MasjidInstance.{Message}
use masjid_protocol.Contracts as Contracts
use masjid_protocol.Contracts.{MasjidStatus, InstanceVerificationStatus}

abbrev pub is_live : MasjidStatus → Bool
is_live Contracts.MasjidStatus.none_status = false
is_live Contracts.MasjidStatus.rejected = false
is_live _ = true

pub is_live-ne-none :
    (status : MasjidStatus) → is_live status ≡ true → status ≢ Contracts.none_status
is_live-ne-none status h e = let h' = ap is_live e in cc

pub Restates-live :
    {from to : MasjidStatus} {to' : InstanceVerificationStatus}
    → Restates from to to'
    → (is_live from ≡ true) × (is_live to ≡ true)
Restates-live flags = (refl, refl)
Restates-live unflags = (refl, refl)
Restates-live revokes_verified = (refl, refl)
Restates-live revokes_flagged = (refl, refl)

module _ {I : Type 0} where
  -- The numbers of the masjids come from the nonces so far, and the index of the names leads from
  -- the name of a masjid that is not rejected to its number.
  pub record IsNamed (hashes : Hashes) (s : State I) : Type 0 where
    pub numbered :
        (id : String)
        → (s.masjid_by_id id).status ≢ Contracts.none_status
        → (n : ℕ) × (a : String) × (h : String) × (id ≡ hashes.hash_id n a h) × (n ≤ s.masjid_nonce)
    pub hashed :
        (id : String)
        → (s.masjid_by_id id).status ≢ Contracts.none_status
        → (s.masjid_by_id id).name_hash ≡ hashes.hash_name (s.masjid_by_id id).masjid_name
    pub indexed :
        (id : String)
        → is_live (s.masjid_by_id id).status ≡ true
        → s.id_by_name_hash (s.masjid_by_id id).name_hash ≡ id

  -- A change under one number that makes no masjid and brings none back.
  pub record Keeps (s s' : State I) : Type 0 where
    pub nonce : s'.masjid_nonce ≡ s.masjid_nonce
    pub ids : s'.id_by_name_hash ≡ s.id_by_name_hash
    pub hash : (k : String) → (s'.masjid_by_id k).name_hash ≡ (s.masjid_by_id k).name_hash
    pub name : (k : String) → (s'.masjid_by_id k).masjid_name ≡ (s.masjid_by_id k).masjid_name
    pub made :
        (k : String)
        → (s'.masjid_by_id k).status ≢ Contracts.none_status
        → (s.masjid_by_id k).status ≢ Contracts.none_status
    pub live :
        (k : String)
        → is_live (s'.masjid_by_id k).status ≡ true
        → is_live (s.masjid_by_id k).status ≡ true

  pub Keeps-IsNamed :
      (hashes : Hashes) (s s' : State I) → Keeps s s' → IsNamed hashes s → IsNamed hashes s'
  Keeps-IsNamed hashes s s' k n = record {
    numbered = λ id h. rw (k.nonce) (n.numbered id (k.made id h));
    hashed = λ id h. k.hash id ∙ n.hashed id (k.made id h) ∙ ap hashes.hash_name (sym (k.name id));
    indexed = λ id h. rw (k.ids, k.hash id) (n.indexed id (k.live id h));
  }

  -- A record replaced by one of the same name, where a masjid was already.
  pub put-Keeps :
      (s s' : State I) (id : String) (m : Masjid)
      → s'.masjid_nonce ≡ s.masjid_nonce
      → s'.id_by_name_hash ≡ s.id_by_name_hash
      → ((k : String)
          → ((k ≡ id) × (s'.masjid_by_id k ≡ m))
            ⊎ ((k ≢ id) × (s'.masjid_by_id k ≡ s.masjid_by_id k)))
      → m.name_hash ≡ (s.masjid_by_id id).name_hash
      → m.masjid_name ≡ (s.masjid_by_id id).masjid_name
      → (is_live m.status ≡ true → is_live (s.masjid_by_id id).status ≡ true)
      → (m.status ≢ Contracts.none_status → (s.masjid_by_id id).status ≢ Contracts.none_status)
      → Keeps s s'
  put-Keeps s s' id m e1 e2 at e3 e4 l n = record {
    nonce = e1;
    ids = e2;
    hash = λ k. elim (at k) [
      | inl (e, a) ↦ ap (λ x. x.name_hash) a ∙ e3 ∙ ap (λ x. (s.masjid_by_id x).name_hash) (sym e)
      | inr (ne, a) ↦ ap (λ x. x.name_hash) a
    ];
    name = λ k. elim (at k) [
      | inl (e, a) ↦
          ap (λ x. x.masjid_name) a ∙ e4 ∙ ap (λ x. (s.masjid_by_id x).masjid_name) (sym e)
      | inr (ne, a) ↦ ap (λ x. x.masjid_name) a
    ];
    made = λ k h. elim (at k) [
      | inl (e, a) ↦
          subst (λ x. (s.masjid_by_id x).status ≢ Contracts.none_status) (sym e)
            (n (subst (λ x. x.status ≢ Contracts.none_status) a h))
      | inr (ne, a) ↦ subst (λ x. x.status ≢ Contracts.none_status) a h
    ];
    live = λ k h. elim (at k) [
      | inl (e, a) ↦
          subst (λ x. is_live (s.masjid_by_id x).status ≡ true) (sym e)
            (l (subst (λ x. is_live x.status ≡ true) a h))
      | inr (ne, a) ↦ subst (λ x. is_live x.status ≡ true) a h
    ];
  }

  pub live-Keeps :
      (s s' : State I) (id : String) (m : Masjid)
      → s'.masjid_nonce ≡ s.masjid_nonce
      → s'.id_by_name_hash ≡ s.id_by_name_hash
      → ((k : String)
          → ((k ≡ id) × (s'.masjid_by_id k ≡ m))
            ⊎ ((k ≢ id) × (s'.masjid_by_id k ≡ s.masjid_by_id k)))
      → m.name_hash ≡ (s.masjid_by_id id).name_hash
      → m.masjid_name ≡ (s.masjid_by_id id).masjid_name
      → is_live (s.masjid_by_id id).status ≡ true
      → Keeps s s'
  live-Keeps s s' id m e1 e2 at e3 e4 l =
      put-Keeps s s' id m e1 e2 at e3 e4 (λ h. l)
        (λ h. is_live-ne-none (s.masjid_by_id id).status l)
