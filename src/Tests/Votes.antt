-- ===== src/Tests/Votes.antt =====
-- A registry with one verifier, a masjid that waits for its votes, and the vote that verifies it.
use masjid_protocol.Prelude.{suc, ok, [], ◌≡◌, ◌∷◌, some, ℕ, true, refl}
use masjid_protocol.MasjidProtocol.{voted, counted, State, Masjid, Registry, Instances, attest, put}
use masjid_protocol.Contracts as Contracts
use masjid_protocol.Contracts.{pending}
use masjid_protocol.MasjidInstance.{Message}
use masjid_protocol.MasjidProtocol.Laws.{Counted, Recorded, Decision, attest-Decision}

abbrev contracts : Instances ℕ
contracts = record {
  deploy = λ id name uri admin stablecoin board threshold deployed. some ("0xnew", suc deployed);
  set_status = λ instance_addr status deployed. some deployed;
  set_admin = λ instance_addr admin deployed. some deployed;
}

abbrev registry : Registry
registry = record { is_verifier = λ account. true; quorum = 2 }

abbrev waiting : Masjid
waiting = record {
  proposer = "0x7";
  masjid_admin = "0x7";
  instance_addr = "0x0000000000000000000000000000000000000000";
  stablecoin = "0xc";
  name_hash = "0x9";
  cash_out_threshold = 2;
  attest_yes = 1;
  attest_no = 1;
  status = pending;
  created_at = 100;
  updated_at = 100;
  masjid_name = "Al-Ikhlas";
  metadata_uri = "ipfs://q";
}

abbrev state : State ℕ
state = record {
  admin = "0x6";
  masjid_nonce = 1;
  masjid_by_id = λ id. waiting;
  id_by_name_hash = λ name_hash. "0x1";
  board_members = λ id. "0x7" ∷ "0x8" ∷ [];
  attesters = λ id. "0x5" ∷ "0x4" ∷ [];
  has_attested = ("0x1", "0x5") ∷ ("0x1", "0x4") ∷ [];
  instances = 0;
}

abbrev message : Message
message = record { sender = "0x3"; timestamp = 200 }

abbrev after : State ℕ
after = record (counted contracts message state "0x1" true) {
  masjid_by_id =
      put "0x1"
        (record (voted contracts message state true waiting) {
          instance_addr = "0xnew";
          status = Contracts.verified;
          updated_at = 200;
        })
        (counted contracts message state "0x1" true).masjid_by_id;
  instances = 1;
}

voted_ok : attest contracts message state registry "0x1" true ≡ ok after
unfolding attest
voted_ok = refl

attest-Decision_example :
    Counted contracts message state registry "0x1"
    × Recorded contracts message state "0x1" true after
    × Decision 2 (voted contracts message state true waiting) (after.masjid_by_id "0x1")
attest-Decision_example = attest-Decision contracts message state registry "0x1" true voted_ok
