-- ===== src/MasjidProtocol/Calls/Moves.antt =====
-- The life of a masjid: how one transaction may change the status that is stored of it.
use masjid_protocol.MasjidProtocol.{
  Message, voted, verified_with, transferred, restated, rejected_at, now, new_masjid, counted,
  State, Registry, Masjid, Instances,
}
use masjid_protocol.MasjidInstance.{Message}
use masjid_protocol.Prelude.{◌⊎◌, ◌≢◌, ◌≡◌, suc, refl, ok, inr, inl, arith, String, List}
use masjid_protocol.Prelude.Reverts.{put_twice-cases, put-cases}
use masjid_protocol.MasjidProtocol.Calls.{transact, transact_all, constructor', Transaction, Hashes}
use masjid_protocol.MasjidProtocol.Calls.Kept.{transact-from}
use masjid_protocol.MasjidProtocol.Calls.Changes.{
  verifies, transfers, restates, rejects, registers, counts, Restates, Changes,
}
use masjid_protocol.Contracts.{MasjidStatus, InstanceVerificationStatus}
use masjid_protocol.Contracts as Contracts
use masjid_protocol.MasjidProtocol as Protocol
use masjid_protocol.MasjidProtocol.Calls.Names.{IsNamed}
use masjid_protocol.MasjidProtocol.Calls.Names.Unique.{transact_all-IsNamed}

pub data Moves : MasjidStatus → MasjidStatus → Type 0 where
  stays : (status : MasjidStatus) → Moves status status
  registered : Moves Contracts.none_status Contracts.pending
  verified : Moves Contracts.pending Contracts.verified
  rejected : Moves Contracts.pending Contracts.rejected
  decided :
      {from to : MasjidStatus} {to' : InstanceVerificationStatus}
      → Restates from to to'
      → Moves from to

none_or_not :
    (status : MasjidStatus) → (status ≡ Contracts.none_status) ⊎ (status ≢ Contracts.none_status)
none_or_not Contracts.MasjidStatus.none_status = inl refl
none_or_not Contracts.MasjidStatus.pending = inr (λ e. cc)
none_or_not Contracts.MasjidStatus.rejected = inr (λ e. cc)
none_or_not Contracts.MasjidStatus.verified = inr (λ e. cc)
none_or_not Contracts.MasjidStatus.flagged = inr (λ e. cc)
none_or_not Contracts.MasjidStatus.revoked = inr (λ e. cc)

module _ {I : Type 0} where
  -- One record is replaced, by one whose status is a move away.
  put-Moves :
      (s s' : State I) (id : String) (m : Masjid)
      → ((k : String)
          → ((k ≡ id) × (s'.masjid_by_id k ≡ m))
            ⊎ ((k ≢ id) × (s'.masjid_by_id k ≡ s.masjid_by_id k)))
      → Moves (s.masjid_by_id id).status m.status
      → (k : String) → Moves (s.masjid_by_id k).status (s'.masjid_by_id k).status
  put-Moves s s' id m at moves k = elim (at k) [
    | inl (e, a) ↦ rw (a, e) moves
    | inr (ne, a) ↦ rw a (stays _)
  ]

  -- The number of a new masjid is not in use.
  pub unused :
      (hashes : Hashes) (s : State I) (a h : String)
      → IsNamed hashes s
      → (s.masjid_by_id (hashes.hash_id (suc s.masjid_nonce) a h)).status ≡ Contracts.none_status
  unused hashes s a h n =
      elim (none_or_not (s.masjid_by_id (hashes.hash_id (suc s.masjid_nonce) a h)).status) [
        | inl e ↦ e
        | inr ne ↦
            let (i, b, c, made, le) = n.numbered _ ne in
            let same = hashes.hash_id-differs (suc s.masjid_nonce) i a b h c made in
            absurd (omega arith)
      ]

  module _ (hashes : Hashes) (contracts : Instances I) (registry : Registry) (msg : Message)
      (s s' : State I) where
    Changes-Moves :
        Changes hashes contracts registry msg s s'
        → IsNamed hashes s
        → (k : String) → Moves (s.masjid_by_id k).status (s'.masjid_by_id k).status
    Changes-Moves (registers name uri coin board c1 c2 c3 e) n =
        let name_hash = hashes.hash_name name in
        let id = hashes.hash_id (suc s.masjid_nonce) msg.sender name_hash in
        let m = new_masjid contracts msg s name_hash id name uri coin board in
        rw e (
          put-Moves s (Protocol.registered contracts msg s name_hash id name uri coin board) id m
            (λ k. put-cases id k m s.masjid_by_id)
            (rw (unused hashes s msg.sender name_hash n) registered))
    Changes-Moves (counts id support c e) n =
        let m = voted contracts msg s support (s.masjid_by_id id) in
        rw e (
          put-Moves s (counted contracts msg s id support) id m
            (λ k. put-cases id k m s.masjid_by_id) (stays _))
    Changes-Moves (verifies id support c d) n =
        let m = voted contracts msg s support (s.masjid_by_id id) in
        let m' = record m {
          instance_addr = d.instance_addr;
          status = Contracts.verified;
          updated_at = now contracts msg s;
        } in
        rw d.after (
          put-Moves s
            (verified_with contracts msg s d.instance_addr id m d.i'
              (counted contracts msg s id support))
            id m' (λ k. put_twice-cases id k m' m s.masjid_by_id) (rw (c.waiting) verified))
    Changes-Moves (rejects id support c e) n =
        let m = voted contracts msg s support (s.masjid_by_id id) in
        let m' = record m { status = Contracts.rejected; updated_at = now contracts msg s } in
        rw e (
          put-Moves s (rejected_at contracts msg s id m (counted contracts msg s id support)) id m'
            (λ k. put_twice-cases id k m' m s.masjid_by_id) (rw (c.waiting) rejected))
    Changes-Moves (transfers id admin i c1 c2 c3 e) n =
        let m = record (s.masjid_by_id id) {
          masjid_admin = admin;
          updated_at = now contracts msg s;
        } in
        rw e (
          put-Moves s (transferred contracts msg s id admin i) id m
            (λ k. put-cases id k m s.masjid_by_id) (stays _))
    Changes-Moves (restates id to to' i r h e) n =
        let m = record (s.masjid_by_id id) { status = to; updated_at = now contracts msg s } in
        rw e (
          put-Moves s (restated contracts msg s id to i) id m (λ k. put-cases id k m s.masjid_by_id)
            (Moves.decided r))

  -- Deploy the contract, let any transactions follow, and then one more. Under every number that
  -- transaction leaves the status as it was, or makes a masjid that is pending where there was none,
  -- or verifies or rejects one that is pending, or flags one that is verified, or lifts the flag, or
  -- revokes one that is verified or flagged: so a masjid that is rejected or revoked stays so.
  pub transact-Moves :
      (hashes : Hashes) (contracts : Message → Instances I) (verifier_registry sender : String)
      (i : I) (txs : List (Transaction I)) (tx : Transaction I) {s : State I} (id : String)
      → constructor' verifier_registry sender i ≡ ok s
      → Moves
          ((transact_all hashes contracts txs s).masjid_by_id id).status
          ((transact hashes contracts tx (transact_all hashes contracts txs s)).masjid_by_id
            id).status
  transact-Moves hashes contracts verifier_registry sender i txs tx {s} id h =
      let s1 = transact_all hashes contracts txs s in
      transact-from hashes contracts
        (λ s2. Moves (s1.masjid_by_id id).status (s2.masjid_by_id id).status) s1
        (λ registry msg s2 c.
          Changes-Moves hashes (contracts msg) registry msg s1 s2 c
            (transact_all-IsNamed hashes contracts verifier_registry sender i txs h) id)
        (λ i. stays _) (stays _) tx
