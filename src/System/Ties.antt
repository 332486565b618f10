-- ===== src/System/Ties.antt =====
-- A masjid that every verifier has voted on.
use masjid_protocol.Prelude.{
  ◌≡◌, ◌∙◌, ◌<◌, ◌/◌, ◌+◌, ℕ, true, thrown, sym, length, inr, inl, arith, ap, String, Bool,
}
use masjid_protocol.VerifierRegistry as VerifierRegistry
use masjid_protocol.VerifierRegistry.Accounts.{holds, holds_all}
use masjid_protocol.VerifierRegistry.Laws.{Members, Represents}
use masjid_protocol.MasjidInstance.{Message}
use masjid_protocol.MasjidProtocol.{Instances, State, Revert, attest}
use masjid_protocol.MasjidProtocol.Laws.{attest-eq-ok}
use masjid_protocol.MasjidProtocol.Calls.Votes.{Tally}
use masjid_protocol.System.{view}
use masjid_protocol.Wallet.Laws.{Result-cases}

tied :
    (favour against count quorum : ℕ)
    → favour + against ≡ count
    → quorum ≡ count / 2 + 1
    → favour < quorum
    → against < quorum
    → favour ≡ against
tied favour against count quorum e q y n = omega arith

-- Let the votes on a masjid be counted right, let the registry represent a set of verifiers, and let
-- those who have voted on the masjid all be verifiers still, and as many as there are verifiers. If
-- neither side has reached the quorum, then the votes are tied; and every further vote on the masjid
-- reverts, whoever sends it, so it stays as it is.
pub all_voted-tied :
    {I : Type 0} (contracts : Instances I) (msg : Message) (s : State I)
    (r : VerifierRegistry.State) (m : Members) (id : String) (support : Bool)
    → Represents r m
    → Tally s id
    → ((a : String) → holds a (s.attesters id) ≡ true → holds a m.accounts ≡ true)
    → length (s.attesters id) ≡ length m.accounts
    → (s.masjid_by_id id).attest_yes < VerifierRegistry.quorum r
    → (s.masjid_by_id id).attest_no < VerifierRegistry.quorum r
    → ((s.masjid_by_id id).attest_yes ≡ (s.masjid_by_id id).attest_no)
      × ((e : Revert) × (attest contracts msg s (view r) id support ≡ thrown e))
unfolding VerifierRegistry.quorum
all_voted-tied contracts msg s r m id support represents tally within same_length favour against = (
  tied (s.masjid_by_id id).attest_yes (s.masjid_by_id id).attest_no (length m.accounts)
      (VerifierRegistry.quorum r) (tally.counted ∙ same_length)
      (ap (λ n. n / 2 + 1) represents.counted) favour against,
  elim (Result-cases (attest contracts msg s (view r) id support)) [
    | inr (e, h) ↦ (e, h)
    | inl (s', h) ↦
        let (c, _) = attest-eq-ok contracts msg s (view r) id support h in
        let entitled = sym (represents.same msg.sender) ∙ c.entitled in
        let voted =
          holds_all (s.attesters id) m.accounts tally.distinct represents.distinct within
            (omega (arith, same_length)) msg.sender entitled in
        let first = sym (tally.same msg.sender) ∙ c.first in absurd (cc (voted, first))
  ],
)
