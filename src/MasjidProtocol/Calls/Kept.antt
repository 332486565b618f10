-- ===== src/MasjidProtocol/Calls/Kept.antt =====
-- From the changes of single calls to transactions, and the state that a deployment leaves.
use masjid_protocol.MasjidProtocol.{Message, zero_address, State, Revert, Registry, Instances}
use masjid_protocol.MasjidInstance.{Message}
use masjid_protocol.Prelude.{◌≡◌, ◌∷◌, thrown, sym, refl, ok, ap, [], String, Result, List}
use masjid_protocol.Prelude.Reverts.{returned, passed}
use masjid_protocol.MasjidProtocol.Calls.{
  transact, transact_all, settle, perform, no_masjid, elsewhere, constructor', calling, Transaction,
  Hashes,
}
use masjid_protocol.MasjidProtocol.Calls.Changes.{perform-Changes, Changes}

from-settled :
    {I : Type 0} (hashes : Hashes) (contracts : Message → Instances I) (P : State I → Type 0)
    (r : Result Revert (State I)) (s : State I)
    → ((s' : State I) → r ≡ ok s' → P s')
    → P s
    → P (settle hashes contracts r s)
from-settled hashes contracts P (ok s') s h p = h s' refl
from-settled hashes contracts P (thrown e) s h p = p

-- What every change of the state `s` leads to, every transaction on it does.
pub transact-from :
    {I : Type 0} (hashes : Hashes) (contracts : Message → Instances I) (P : State I → Type 0)
    (s : State I)
    → ((registry : Registry) (msg : Message) (s' : State I)
        → Changes hashes (contracts msg) registry msg s s'
        → P s')
    → ((i : I) → P (record s { instances = i }))
    → P s
    → (tx : Transaction I) → P (transact hashes contracts tx s)
unfolding transact
transact-from hashes contracts P s kept apart p (calling registry msg call) =
    from-settled hashes contracts P (perform hashes contracts registry msg call s) s
      (λ s' h. kept registry msg s' (perform-Changes hashes contracts registry msg s call h)) p
transact-from hashes contracts P s kept apart p (elsewhere i) = apart i

module _ {I : Type 0} (hashes : Hashes) (contracts : Message → Instances I) (P : State I → Type 0)
    (kept : (registry : Registry) (msg : Message) (s s' : State I)
      → Changes hashes (contracts msg) registry msg s s'
      → P s
      → P s')
    (apart : (s : State I) (i : I) → P s → P (record s { instances = i })) where
  -- What every change keeps, every transaction keeps.
  pub transact-keeps : (tx : Transaction I) (s : State I) → P s → P (transact hashes contracts tx s)
  transact-keeps tx s p =
      transact-from hashes contracts P s (λ registry msg s' c. kept registry msg s s' c p)
        (λ i. apart s i p) p tx

  pub transact_all-keeps :
      (txs : List (Transaction I)) (s : State I) → P s → P (transact_all hashes contracts txs s)
  unfolding transact_all
  transact_all-keeps [] s p = p
  transact_all-keeps (tx ∷ txs) s p =
      transact_all-keeps txs (transact hashes contracts tx s) (transact-keeps tx s p)

-- The states that a deployment leaves.
pub constructor'-eq-ok :
    {I : Type 0} (verifier_registry sender : String) (i : I) {s : State I}
    → constructor' verifier_registry sender i ≡ ok s
    → (s.masjid_by_id ≡ (λ id. no_masjid))
      × (s.attesters ≡ (λ id. []))
      × (s.has_attested ≡ [])
      × (s.masjid_nonce ≡ 0)
      × (s.instances ≡ i)
unfolding constructor'
constructor'-eq-ok verifier_registry sender i h =
    let (c, h') = passed _ zero_address _ h in
    let e = returned h' in
    (
      sym (ap (λ x. x.masjid_by_id) e),
      sym (ap (λ x. x.attesters) e),
      sym (ap (λ x. x.has_attested) e),
      sym (ap (λ x. x.masjid_nonce) e),
      sym (ap (λ x. x.instances) e),
    )
