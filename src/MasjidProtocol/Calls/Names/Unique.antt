-- ===== src/MasjidProtocol/Calls/Names/Unique.antt =====
-- No two masjids that are not rejected have the same name.
use text.Mathlib.TextEquality.{eq_iff}
use masjid_protocol.MasjidProtocol.Calls.Names.{
  eq_iff, put-Keeps, live-Keeps, is_live, is_live-ne-none, Restates-live, Keeps-IsNamed, IsNamed,
}
use text.Mathlib.Text.{◌==◌ as str_eq}
use masjid_protocol.MasjidProtocol.{
  str_eq, zero_hash, Message, voted, verified_with, transferred, restated, rejected_at, registered,
  now, new_masjid, is_taken, is_rejected, counted, State, Registry, Instances,
}
use masjid_protocol.MasjidInstance.{Message}
use masjid_protocol.Prelude.{
  ◌≢◌, ◌≡◌, ◌∙◌, ◌&&◌, true, sym, suc, subst, refl, ok, not, inr, inl, false, arith, ap, String,
  List, Bool-cases,
}
use masjid_protocol.Prelude.Reverts.{put, put_twice-cases, put-same, put-other, put-cases}
use masjid_protocol.MasjidProtocol.Calls.{transact_all, constructor', Transaction, Hashes}
use masjid_protocol.MasjidProtocol.Calls.Kept.{transact_all-keeps, constructor'-eq-ok}
use masjid_protocol.MasjidProtocol.Calls.Changes.{
  verifies, transfers, restates, rejects, registers, counts, Changes,
}
use masjid_protocol.Contracts.{MasjidStatus}
use masjid_protocol.Contracts as Contracts

live-not-rejected : (status : MasjidStatus) → is_live status ≡ true → is_rejected status ≡ false
live-not-rejected Contracts.MasjidStatus.none_status h = refl
live-not-rejected Contracts.MasjidStatus.pending h = refl
live-not-rejected Contracts.MasjidStatus.rejected h = cc
live-not-rejected Contracts.MasjidStatus.verified h = refl
live-not-rejected Contracts.MasjidStatus.flagged h = refl
live-not-rejected Contracts.MasjidStatus.revoked h = refl

not_taken :
    (status : MasjidStatus) (k : String)
    → k ≢ zero_hash
    → is_live status ≡ true
    → (not (str_eq k zero_hash) && not (is_rejected status)) ≡ false
    → ⊥
not_taken status k z l h = elim (Bool-cases (str_eq k zero_hash)) [
  | inl a ↦ z ((eq_iff k zero_hash).0 a)
  | inr a ↦ let live = live-not-rejected status l in absurd (ground arith)
]

module _ {I : Type 0} where
  module _ (hashes : Hashes) (contracts : Instances I) (registry : Registry) (msg : Message)
      (s s' : State I) where
    -- A name that is free leads to no masjid that is not rejected.
    free :
        (n : IsNamed hashes s) (name_hash k : String)
        → is_taken contracts msg s name_hash ≡ false
        → is_live (s.masjid_by_id k).status ≡ true
        → (s.masjid_by_id k).name_hash ≢ name_hash
    free n name_hash k f l e =
        let at = ap s.id_by_name_hash (sym e) ∙ n.indexed k l in
        let (i, a, h, made, _) = n.numbered k (is_live-ne-none _ l) in
        let nonzero = λ (z : k ≡ zero_hash). hashes.hash_id-nonzero i a h (sym made ∙ z) in
        not_taken (s.masjid_by_id k).status k nonzero l (
          subst
            (λ x. (not (str_eq x zero_hash) && not (is_rejected (s.masjid_by_id x).status)) ≡ false)
            at f)

    registers-IsNamed :
        (masjid_name metadata_uri stablecoin : String) (board : List String)
        → is_taken contracts msg s (hashes.hash_name masjid_name) ≡ false
        → IsNamed hashes s
        → IsNamed hashes (
            registered contracts msg s
              (hashes.hash_name masjid_name)
              (hashes.hash_id (suc s.masjid_nonce) msg.sender (hashes.hash_name masjid_name))
              masjid_name
              metadata_uri
              stablecoin
              board)
    registers-IsNamed masjid_name metadata_uri stablecoin board f n =
        let name_hash = hashes.hash_name masjid_name in
        let id = hashes.hash_id (suc s.masjid_nonce) msg.sender name_hash in
        let m = new_masjid contracts msg s name_hash id masjid_name metadata_uri stablecoin board in
        let at = λ (k : String). put-cases id k m s.masjid_by_id in
        record {
          numbered = λ k h. elim (at k) [
            | inl (e, a) ↦ (suc s.masjid_nonce, msg.sender, name_hash, e, omega arith)
            | inr (ne, a) ↦
                let (i, b, c, made, le) =
                  n.numbered k (subst (λ x. x.status ≢ Contracts.none_status) a h) in
                (i, b, c, made, omega arith)
          ];
          hashed = λ k h. elim (at k) [
            | inl (e, a) ↦
                ap (λ x. x.name_hash) a ∙ ap (λ x. hashes.hash_name x.masjid_name) (sym a)
            | inr (ne, a) ↦
                ap (λ x. x.name_hash) a
                ∙ n.hashed k (subst (λ x. x.status ≢ Contracts.none_status) a h)
                ∙ ap (λ x. hashes.hash_name x.masjid_name) (sym a)
          ];
          indexed = λ k h. elim (at k) [
            | inl (e, a) ↦
                ap (λ x. put name_hash id s.id_by_name_hash x.name_hash) a
                ∙ put-same name_hash id s.id_by_name_hash
                ∙ sym e
            | inr (ne, a) ↦
                let l = subst (λ x. is_live x.status ≡ true) a h in
                ap (λ x. put name_hash id s.id_by_name_hash x.name_hash) a
                ∙ put-other name_hash _ id s.id_by_name_hash (free n name_hash k f l)
                ∙ n.indexed k l
          ];
        }

    pub Changes-IsNamed :
        Changes hashes contracts registry msg s s' → IsNamed hashes s → IsNamed hashes s'
    Changes-IsNamed (registers name uri coin board c1 c2 c3 e) n =
        rw e (registers-IsNamed name uri coin board c3 n)
    Changes-IsNamed (counts id support c e) n =
        let m = voted contracts msg s support (s.masjid_by_id id) in
        let s2 = counted contracts msg s id support in
        rw e (
          Keeps-IsNamed hashes s s2
            (live-Keeps s s2 id m refl refl (λ k. put-cases id k m s.masjid_by_id) refl refl
              (ap is_live c.waiting))
            n)
    Changes-IsNamed (verifies id support c d) n =
        let m = voted contracts msg s support (s.masjid_by_id id) in
        let m' = record m {
          instance_addr = d.instance_addr;
          status = Contracts.verified;
          updated_at = now contracts msg s;
        } in
        let s2 =
          verified_with contracts msg s d.instance_addr id m d.i'
            (counted contracts msg s id support) in
        rw d.after (
          Keeps-IsNamed hashes s s2
            (live-Keeps s s2 id m' refl refl (λ k. put_twice-cases id k m' m s.masjid_by_id) refl
              refl (ap is_live c.waiting))
            n)
    Changes-IsNamed (rejects id support c e) n =
        let m = voted contracts msg s support (s.masjid_by_id id) in
        let m' = record m { status = Contracts.rejected; updated_at = now contracts msg s } in
        let s2 = rejected_at contracts msg s id m (counted contracts msg s id support) in
        rw e (
          Keeps-IsNamed hashes s s2
            (live-Keeps s s2 id m' refl refl (λ k. put_twice-cases id k m' m s.masjid_by_id) refl
              refl (ap is_live c.waiting))
            n)
    Changes-IsNamed (transfers id admin i c1 c2 c3 e) n =
        let m = record (s.masjid_by_id id) {
          masjid_admin = admin;
          updated_at = now contracts msg s;
        } in
        let s2 = transferred contracts msg s id admin i in
        rw e (
          Keeps-IsNamed hashes s s2
            (put-Keeps s s2 id m refl refl (λ k. put-cases id k m s.masjid_by_id) refl refl (λ h. h)
              (λ h. h))
            n)
    Changes-IsNamed (restates id to to' i r h e) n =
        let m = record (s.masjid_by_id id) { status = to; updated_at = now contracts msg s } in
        let s2 = restated contracts msg s id to i in
        rw e (
          Keeps-IsNamed hashes s s2
            (live-Keeps s s2 id m refl refl (λ k. put-cases id k m s.masjid_by_id) refl refl
              (Restates-live r).0)
            n)

  pub deployed-IsNamed :
      (hashes : Hashes) (verifier_registry sender : String) (i : I) {s : State I}
      → constructor' verifier_registry sender i ≡ ok s
      → IsNamed hashes s
  deployed-IsNamed hashes verifier_registry sender i h =
      let (m, _, _, _, _) = constructor'-eq-ok verifier_registry sender i h in
      record {
        numbered = λ id h. absurd (h (ap (λ f. (f id).status) m));
        hashed = λ id h. absurd (h (ap (λ f. (f id).status) m));
        indexed = λ id h. absurd (is_live-ne-none _ h (ap (λ f. (f id).status) m));
      }

  pub transact_all-IsNamed :
      (hashes : Hashes) (contracts : Message → Instances I) (verifier_registry sender : String)
      (i : I) (txs : List (Transaction I)) {s : State I}
      → constructor' verifier_registry sender i ≡ ok s
      → IsNamed hashes (transact_all hashes contracts txs s)
  transact_all-IsNamed hashes contracts verifier_registry sender i txs {s} h =
      transact_all-keeps hashes contracts (IsNamed hashes)
        (λ registry msg s s' c n. Changes-IsNamed hashes (contracts msg) registry msg s s' c n)
        (λ s i n. record { numbered = n.numbered; hashed = n.hashed; indexed = n.indexed }) txs s
        (deployed-IsNamed hashes verifier_registry sender i h)

  -- Deploy the contract, and let any transactions follow. Then two masjids with the same name, both
  -- registered and neither of them rejected, are the same.
  pub transact_all-unique_name :
      (hashes : Hashes) (contracts : Message → Instances I) (verifier_registry sender : String)
      (i : I) (txs : List (Transaction I)) {s : State I} (a b : String)
      → constructor' verifier_registry sender i ≡ ok s
      → is_live ((transact_all hashes contracts txs s).masjid_by_id a).status ≡ true
      → is_live ((transact_all hashes contracts txs s).masjid_by_id b).status ≡ true
      → ((transact_all hashes contracts txs s).masjid_by_id a).masjid_name
        ≡ ((transact_all hashes contracts txs s).masjid_by_id b).masjid_name
      → a ≡ b
  transact_all-unique_name hashes contracts verifier_registry sender i txs {s} a b h la lb e =
      let s' = transact_all hashes contracts txs s in
      let n = transact_all-IsNamed hashes contracts verifier_registry sender i txs h in
      let same =
        n.hashed a (is_live-ne-none _ la)
        ∙ ap hashes.hash_name e
        ∙ sym (n.hashed b (is_live-ne-none _ lb)) in
      sym (n.indexed a la) ∙ ap s'.id_by_name_hash same ∙ n.indexed b lb
