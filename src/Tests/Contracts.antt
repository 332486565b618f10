-- ===== src/Tests/Contracts.antt =====
-- The contracts together: a verifier is added, and a masjid is registered and verified by the one
-- vote.
use masjid_protocol.Prelude.{
  suc, arith, ◌≤◌, ◌≡◌, ◌∷◌, ◌<◌, ◌+◌, true, refl, ok, length, false, [], String, List,
}
use masjid_protocol.VerifierRegistry as VerifierRegistry
use masjid_protocol.VerifierRegistry.{adding, removing}
use masjid_protocol.VerifierRegistry.Laws.{
  Members, Represents, next_all, perform_all-Represents, constructor'-Represents,
}
use masjid_protocol.MasjidInstance.{Message}
use masjid_protocol.MasjidInstance.Deployed.{threshold_of, AreNonzero}
use masjid_protocol.MasjidFactory as MasjidFactory
use masjid_protocol.MasjidFactory.{Deployments, deployed_by, deployments}
use masjid_protocol.MasjidProtocol as Protocol
use masjid_protocol.MasjidInstance as Instance
use masjid_protocol.MasjidProtocol.{State, attest}
use masjid_protocol.MasjidProtocol.Calls as Calls
use masjid_protocol.MasjidProtocol.Calls.{registering, attesting, settle}
use masjid_protocol.System.{System, Step, Reach, view, contracts as contracts_of}
use masjid_protocol.System.Linked.{IsLinked}
use masjid_protocol.System.Sound.{Reach-IsLinked}
use masjid_protocol.System.Decisions.{AreDecided, decisions-accepted_iff}
use masjid_protocol.System.Boards.{attest-AreNonzero}
use masjid_protocol.Tests.Ledger.{Holders, list_access, Transfers, willing_token}
use masjid_protocol.Tests.Unary.{unary, hashes, addresses}
use masjid_protocol.Tests.Protocol.{message}

abbrev calls : Message → Protocol.Instances (Deployments Holders Transfers)
calls = contracts_of hashes list_access willing_token unary "0x5"

abbrev new_registry : VerifierRegistry.State
new_registry = record {
  authority = "0x6";
  verifier_count = 0;
  is_verifier = λ account. false;
  verifier_label = λ account. "";
}

registry_made : VerifierRegistry.constructor' "0x6" ≡ ok new_registry
unfolding VerifierRegistry.constructor'
registry_made = refl

abbrev no_members : Members
no_members = record { authority = "0x6"; accounts = [] }

abbrev registry_calls : List (String × VerifierRegistry.Call)
registry_calls =
    ("0x6", adding "0x3" "Aisyah")
    ∷ ("0x7", adding "0x8" "Bilal")
    ∷ ("0x6", adding "0x4" "Umar")
    ∷ ("0x6", removing "0x3")
    ∷ []

perform_all-Represents_example :
    Represents
      (VerifierRegistry.perform_all registry_calls new_registry)
      (next_all registry_calls no_members)
    × (length (next_all registry_calls no_members).accounts
        < VerifierRegistry.quorum (VerifierRegistry.perform_all registry_calls new_registry)
          + VerifierRegistry.quorum (VerifierRegistry.perform_all registry_calls new_registry))
    × (1 ≤ length (next_all registry_calls no_members).accounts
        → VerifierRegistry.quorum (VerifierRegistry.perform_all registry_calls new_registry)
          ≤ length (next_all registry_calls no_members).accounts)
perform_all-Represents_example =
    perform_all-Represents registry_calls new_registry no_members
      (constructor'-Represents "0x6" registry_made)

abbrev first : State (Deployments Holders Transfers)
first = record {
  admin = "0x6";
  masjid_nonce = 0;
  masjid_by_id = λ id. Calls.no_masjid;
  id_by_name_hash = λ name_hash. Protocol.zero_hash;
  board_members = λ id. [];
  attesters = λ id. [];
  has_attested = [];
  instances = deployed_by "0x5" [];
}

factory_made :
    MasjidFactory.constructor' {R = Holders} {T = Transfers} "0x5" [] ≡ ok (deployed_by "0x5" [])
unfolding MasjidFactory.constructor'
factory_made = refl

protocol_made :
    Calls.constructor' "0x9" "0x6" (deployed_by {R = Holders} {T = Transfers} "0x5" []) ≡ ok first
unfolding Calls.constructor'
protocol_made = refl

abbrev one_verifier : VerifierRegistry.State
one_verifier =
    VerifierRegistry.settle (VerifierRegistry.perform "0x6" (adding "0x3" "Aisyah") new_registry)
      new_registry

verifier_added :
    VerifierRegistry.perform "0x6" (adding "0x3" "Aisyah") new_registry ≡ ok one_verifier
unfolding VerifierRegistry.perform VerifierRegistry.add_verifier
verifier_added = refl

abbrev registration : Calls.Call
registration = registering "Al-Ikhlas" "ipfs://q" "0xc" ("0x7" ∷ "0x8" ∷ [])

abbrev registered : State (Deployments Holders Transfers)
registered =
    settle hashes calls
      (Calls.perform hashes calls (view one_verifier) (message "0x7" 100) registration first) first

masjid_registered :
    Calls.perform hashes calls (view one_verifier) (message "0x7" 100) registration first
    ≡ ok registered
unfolding Calls.perform Protocol.register
masjid_registered = refl

abbrev verified : State (Deployments Holders Transfers)
verified =
    settle hashes calls
      (Calls.perform hashes calls (view one_verifier) (message "0x3" 110) (attesting "x" true)
        registered)
      registered

masjid_verified :
    Calls.perform hashes calls
      (view one_verifier)
      (message "0x3" 110)
      (attesting "x" true)
      registered
    ≡ ok verified
unfolding Calls.perform Protocol.register Protocol.attest MasjidFactory.deploy_masjid
    Instance.constructor' Instance.add_members Instance.set_status VerifierRegistry.perform
    VerifierRegistry.add_verifier VerifierRegistry.quorum threshold_of
masjid_verified = refl

abbrev system : System Holders Transfers
system = record { registry = one_verifier; protocol = verified }

reached : Reach hashes list_access willing_token unary "0x5" system
reached =
    Reach.next
      (Reach.next
        (Reach.next
          (Reach.deployed "0x6" "0x9" "0x6" [] new_registry (deployed_by "0x5" []) first
            registry_made factory_made protocol_made)
          (Step.registry "0x6" (adding "0x3" "Aisyah") one_verifier verifier_added))
        (Step.protocol (message "0x7" 100) registration registered masjid_registered))
      (Step.protocol (message "0x3" 110) (attesting "x" true) verified masjid_verified)

Reach-IsLinked_example :
    IsLinked list_access willing_token unary "0x5" verified.masjid_by_id verified.instances
Reach-IsLinked_example =
    Reach-IsLinked hashes list_access willing_token unary addresses "0x5" reached

decisions-accepted_iff_example :
    AreDecided
      (deployments list_access willing_token unary "0x5" (message "0x6" 120))
      (message "0x6" 120)
      verified
      "x"
      "0x9"
decisions-accepted_iff_example =
    decisions-accepted_iff hashes list_access willing_token unary addresses "0x5"
      (message "0x6" 120) "x" "0x9" reached

vote_ok :
    attest (calls (message "0x3" 110)) (message "0x3" 110) registered (view one_verifier) "x" true
    ≡ ok verified
unfolding Calls.perform
vote_ok = masjid_verified

quorum_reached : VerifierRegistry.quorum one_verifier ≤ suc (registered.masjid_by_id "x").attest_yes
unfolding Calls.perform Protocol.register VerifierRegistry.perform VerifierRegistry.add_verifier
    VerifierRegistry.quorum
quorum_reached = omega arith

attest-AreNonzero_example : AreNonzero (registered.board_members "x")
attest-AreNonzero_example =
    attest-AreNonzero list_access willing_token unary "0x5" (message "0x3" 110) registered
      (view one_verifier) "x" vote_ok quorum_reached
