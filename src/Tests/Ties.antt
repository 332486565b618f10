-- ===== src/Tests/Ties.antt =====
-- Two verifiers at odds about a masjid.
use masjid_protocol.Prelude.{ℕ, thrown, arith, ◌≡◌, ◌∷◌, ◌<◌, true, refl, [], String, List}
use masjid_protocol.VerifierRegistry as VerifierRegistry
use masjid_protocol.VerifierRegistry.{adding, removing}
use masjid_protocol.VerifierRegistry.Laws.{Members, Represents}
use masjid_protocol.MasjidProtocol as Protocol
use masjid_protocol.MasjidProtocol.{State, attest}
use masjid_protocol.MasjidProtocol.Calls as Calls
use masjid_protocol.MasjidProtocol.Calls.{registering, attesting, settle}
use masjid_protocol.MasjidProtocol.Calls.Votes.{Tally}
use masjid_protocol.System.{view}
use masjid_protocol.System.Ties.{all_voted-tied}
use masjid_protocol.Tests.Protocol.{message, contracts}
use masjid_protocol.Contracts.{pending}
use masjid_protocol.VerifierRegistry.Accounts.{holds}

-- Two verifiers, who have both voted.
abbrev both : List String
both = "0x3" ∷ "0x4" ∷ []

abbrev two_verifiers : VerifierRegistry.State
two_verifiers = record {
  authority = "0x6";
  verifier_count = 2;
  is_verifier = λ account. holds account both;
  verifier_label = λ account. "";
}

abbrev two_members : Members
two_members = record { authority = "0x6"; accounts = both }

two-Represents : Represents two_verifiers two_members
two-Represents = record {
  authority = refl;
  distinct = (refl, (refl, tt));
  same = λ account. refl;
  counted = refl;
}

abbrev at_odds : State ℕ
at_odds = record {
  admin = "0x6";
  masjid_nonce = 1;
  masjid_by_id = λ id. record Calls.no_masjid {
    status = pending;
    created_at = 100;
    attest_yes = 1;
    attest_no = 1;
  };
  id_by_name_hash = λ name_hash. "x";
  board_members = λ id. "0x7" ∷ [];
  attesters = λ id. both;
  has_attested = ("x", "0x3") ∷ ("x", "0x4") ∷ [];
  instances = 0;
}

at_odds-Tally : Tally at_odds "x"
at_odds-Tally = record { counted = refl; distinct = (refl, (refl, tt)); same = λ account. refl }

below_quorum : 1 < VerifierRegistry.quorum two_verifiers
unfolding VerifierRegistry.quorum
below_quorum = omega arith

all_voted-tied_example :
    ((at_odds.masjid_by_id "x").attest_yes ≡ (at_odds.masjid_by_id "x").attest_no)
    × ((e : Protocol.Revert) × (attest
            (contracts (message "0x4" 120))
            (message "0x4" 120)
            at_odds
            (view two_verifiers)
            "x"
            true
          ≡ thrown e))
all_voted-tied_example =
    all_voted-tied (contracts (message "0x4" 120)) (message "0x4" 120) at_odds two_verifiers
      two_members "x" true two-Represents at_odds-Tally (λ a h. h) refl below_quorum below_quorum
