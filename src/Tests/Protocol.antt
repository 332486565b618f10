-- ===== src/Tests/Protocol.antt =====
-- The contract of the registrations at work: a registration, two votes, and a name taken.
use masjid_protocol.Prelude.{◌≡◌, ◌∷◌, ℕ, true, suc, some, refl, ok, [], String, List}
use masjid_protocol.MasjidInstance.{Message}
use masjid_protocol.MasjidProtocol.{Instances, State, Registry, register, attest}
use masjid_protocol.MasjidProtocol.Calls.{
  Transaction, calling, registering, attesting, constructor', transact_all, transact, no_masjid,
}
use masjid_protocol.MasjidProtocol.Calls.Votes.{AreTallied, transact_all-AreTallied}
use masjid_protocol.MasjidProtocol.Calls.Names.{is_live}
use masjid_protocol.MasjidProtocol.Calls.Names.Unique.{transact_all-unique_name}
use masjid_protocol.MasjidProtocol.Calls.Moves.{Moves, transact-Moves}
use masjid_protocol.Tests.Unary.{hashes}

abbrev pub contracts : Message → Instances ℕ
contracts msg = record {
  deploy = λ id name uri admin stablecoin board threshold deployed. some ("0xnew", suc deployed);
  set_status = λ instance_addr status deployed. some deployed;
  set_admin = λ instance_addr admin deployed. some deployed;
}

abbrev registry : Registry
registry = record { is_verifier = λ account. true; quorum = 2 }

abbrev pub message : String → ℕ → Message
message sender timestamp = record { sender = sender; timestamp = timestamp }

abbrev first : State ℕ
first = record {
  admin = "0x6";
  masjid_nonce = 0;
  masjid_by_id = λ id. no_masjid;
  id_by_name_hash =
      λ name_hash. "0x0000000000000000000000000000000000000000000000000000000000000000";
  board_members = λ id. [];
  attesters = λ id. [];
  has_attested = [];
  instances = 0;
}

constructed : constructor' "0x5" "0x6" 0 ≡ ok first
unfolding constructor'
constructed = refl

-- The second registration and the second vote of 0x3 revert.
abbrev txs : List (Transaction ℕ)
txs =
    calling registry (message "0x7" 100) (registering "Al-Ikhlas" "ipfs://q" "0xc" ("0x7" ∷ []))
    ∷ calling registry (message "0x8" 110) (registering "Al-Ikhlas" "ipfs://r" "0xc" ("0x8" ∷ []))
    ∷ calling registry (message "0x3" 120) (attesting "x" true)
    ∷ calling registry (message "0x3" 130) (attesting "x" true)
    ∷ []

after_votes : ((transact_all hashes contracts txs first).masjid_by_id "x").attest_yes ≡ 1
unfolding transact_all transact register attest
after_votes = refl

live_still : is_live ((transact_all hashes contracts txs first).masjid_by_id "x").status ≡ true
unfolding transact_all transact register attest
live_still = refl

transact_all-AreTallied_example : AreTallied (transact_all hashes contracts txs first)
transact_all-AreTallied_example =
    transact_all-AreTallied hashes contracts "0x5" "0x6" 0 txs constructed

transact_all-unique_name_example : ◌≡◌ {A = String} "x" "x"
transact_all-unique_name_example =
    transact_all-unique_name hashes contracts "0x5" "0x6" 0 txs "x" "x" constructed live_still
      live_still refl

transact-Moves_example :
    Moves
      ((transact_all hashes contracts txs first).masjid_by_id "x").status
      ((transact hashes contracts
          (calling registry (message "0x4" 140) (attesting "x" true))
          (transact_all hashes contracts txs first)).masjid_by_id
        "x").status
transact-Moves_example =
    transact-Moves hashes contracts "0x5" "0x6" 0 txs
      (calling registry (message "0x4" 140) (attesting "x" true)) "x" constructed
