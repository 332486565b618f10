-- ===== src/MasjidProtocol/Calls/Votes.antt =====
-- The votes that a masjid's record counts are those of the accounts that have voted on it.
use masjid_protocol.Prelude.{
  ok, List, ◌∷◌, ◌++◌, [], suc, arith, ◌≡◌, ◌∙◌, ◌+◌, sym, refl, length, inr, inl, ap, String, Bool,
}
use masjid_protocol.MasjidProtocol.Calls.{transact_all, constructor', Transaction, Hashes}
use masjid_protocol.MasjidProtocol.Calls.Changes.{
  verifies, transfers, restates, rejects, registers, counts, Changes,
}
use masjid_protocol.MasjidProtocol.Calls.Kept.{transact_all-keeps, constructor'-eq-ok}
use masjid_protocol.VerifierRegistry.Accounts.{
  holds-append, append-AreDistinct, length-append, holds, AreDistinct,
}
use text.Mathlib.TextEquality.{eq_iff}
use masjid_protocol.MasjidProtocol.{counted, Message, attested, State, Registry, Instances}
use masjid_protocol.MasjidInstance.{Message}
use masjid_protocol.Prelude.Reverts.{put-cases}
use masjid_protocol.MasjidProtocol.Laws.{Counted}

module _ {I : Type 0} where
  -- The votes on one masjid: as many as there are accounts in the list of those who voted, no account
  -- in it twice, and the same accounts as in the mapping that a vote tests.
  pub record Tally (s : State I) (id : String) : Type 0 where
    pub counted :
        (s.masjid_by_id id).attest_yes + (s.masjid_by_id id).attest_no ≡ length (s.attesters id)
    pub distinct : AreDistinct (s.attesters id)
    pub same :
        (account : String) → attested id account s.has_attested ≡ holds account (s.attesters id)

  abbrev pub AreTallied : State I → Type 0
  AreTallied s = (id : String) → Tally s id

  module _ (contracts : Instances I) (msg : Message) (s : State I) where
    counted-AreTallied :
        (registry : Registry) (id : String) (support : Bool)
        → Counted contracts msg s registry id
        → AreTallied s
        → AreTallied (counted contracts msg s id support)
    counted-AreTallied registry id support c t k =
        let voters = s.attesters id ++ msg.sender ∷ [] in
        record {
          counted =
              ground (arith, (t k).counted, eq_iff k id, length-append (s.attesters id) msg.sender);
          distinct = elim (put-cases id k voters s.attesters) [
            | inl (e, at) ↦ rw at (
                append-AreDistinct (s.attesters id) msg.sender (t id).distinct
                  (sym ((t id).same msg.sender) ∙ c.first))
            | inr (ne, at) ↦ rw at ((t k).distinct)
          ];
          same = λ account. elim (put-cases id k voters s.attesters) [
            | inl (e, at) ↦
                let here = ap (λ x. holds account (s.attesters x)) e in
                rw at (
                  ground (
                    arith,
                    (t k).same account,
                    holds-append account (s.attesters id) (msg.sender ∷ []),
                    eq_iff id k,
                  ))
            | inr (ne, at) ↦ rw at (ground (arith, (t k).same account, eq_iff id k))
          ];
        }

  module _ (hashes : Hashes) (contracts : Instances I) (registry : Registry) (msg : Message)
      (s s' : State I) where
    pub Changes-AreTallied :
        Changes hashes contracts registry msg s s' → AreTallied s → AreTallied s'
    Changes-AreTallied (registers name uri coin board c1 c2 c3 e) t k = rw e (record {
      counted = ground (
        arith,
        (t k).counted,
        eq_iff k (hashes.hash_id (suc s.masjid_nonce) msg.sender (hashes.hash_name name)),
      );
      distinct = (t k).distinct;
      same = (t k).same;
    })
    Changes-AreTallied (counts id support c e) t k =
        rw e (counted-AreTallied contracts msg s registry id support c t k)
    Changes-AreTallied (verifies id support c d) t k =
        let t' = counted-AreTallied contracts msg s registry id support c t k in
        rw d.after (record {
          counted = ground (arith, t'.counted, eq_iff k id);
          distinct = t'.distinct;
          same = t'.same;
        })
    Changes-AreTallied (rejects id support c e) t k =
        let t' = counted-AreTallied contracts msg s registry id support c t k in
        rw e (record {
          counted = ground (arith, t'.counted, eq_iff k id);
          distinct = t'.distinct;
          same = t'.same;
        })
    Changes-AreTallied (transfers id admin i c1 c2 c3 e) t k = rw e (record {
      counted = ground (arith, (t k).counted, eq_iff k id);
      distinct = (t k).distinct;
      same = (t k).same;
    })
    Changes-AreTallied (restates id to to' i r h e) t k = rw e (record {
      counted = ground (arith, (t k).counted, eq_iff k id);
      distinct = (t k).distinct;
      same = (t k).same;
    })

  pub deployed-AreTallied :
      (verifier_registry sender : String) (i : I) {s : State I}
      → constructor' verifier_registry sender i ≡ ok s
      → AreTallied s
  deployed-AreTallied verifier_registry sender i h id =
      let (m, a, v, _, _) = constructor'-eq-ok verifier_registry sender i h in
      record { counted = rw (m, a) refl; distinct = rw a tt; same = λ account. rw (a, v) refl }

  -- Deploy the contract, and let any transactions follow, with any verifiers at each vote and
  -- whatever the masjids' contracts answer. Then the votes that are counted for and against a masjid
  -- are together as many as the accounts in the list of those who voted on it; no account is in that
  -- list twice; and those accounts are the ones that a further vote is refused for.
  pub transact_all-AreTallied :
      (hashes : Hashes) (contracts : Message → Instances I) (verifier_registry sender : String)
      (i : I) (txs : List (Transaction I)) {s : State I}
      → constructor' verifier_registry sender i ≡ ok s
      → AreTallied (transact_all hashes contracts txs s)
  transact_all-AreTallied hashes contracts verifier_registry sender i txs {s} h =
      transact_all-keeps hashes contracts AreTallied
        (λ registry msg s s' c t. Changes-AreTallied hashes (contracts msg) registry msg s s' c t)
        (λ s i t id. record {
          counted = (t id).counted;
          distinct = (t id).distinct;
          same = (t id).same;
        })
        txs s (deployed-AreTallied verifier_registry sender i h)
