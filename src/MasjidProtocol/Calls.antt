-- ===== src/MasjidProtocol/Calls.antt =====
-- The functions of smart-contract/src/protocol/MasjidProtocol.sol as calls, and any sequence of
-- transactions: a call that reverts leaves the state as it was, the verifiers may change between the
-- votes, and so may the masjids' contracts.
pub mod Changes
pub mod Kept
pub mod Votes
pub mod Names
pub mod Moves
use text.Mathlib.Text.{◌==◌ as str_eq}
use masjid_protocol.MasjidProtocol.{
  str_eq, zero_hash, zero_address_text, Message, unflag, transfer_admin, revoke, register, flag,
  attest,
}
use masjid_protocol.Prelude.Reverts.{◌>>◌, revert_if}
use masjid_protocol.MasjidInstance.{Message}
use masjid_protocol.CashOut.Instance.{zero_address_text}
use masjid_protocol.Prelude.{◌≢◌, ◌≡◌, ◌∷◌, ℕ, thrown, ok, [], String, Result, List, Bool}
use masjid_protocol.MasjidProtocol.Storage.{
  zero_address, State, Revert, Registry, Masjid, Instances,
}
use masjid_protocol.Contracts.{none_status}

-- The uses of `keccak256`, taken to be free of collisions: masjids with different nonces have
-- different numbers, none of which is 0.
pub record Hashes : Type 0 where
  pub hash_name : String → String
  pub hash_id : ℕ → String → String → String
  pub hash_id-differs : (m n : ℕ) (a b h k : String) → hash_id m a h ≡ hash_id n b k → m ≡ n
  pub hash_id-nonzero : (n : ℕ) (a h : String) → hash_id n a h ≢ zero_hash

pub data Call : Type 0 where
  registering : (masjid_name metadata_uri stablecoin : String) → List String → Call
  attesting : (masjid_id : String) → (support : Bool) → Call
  transferring : (masjid_id new_admin : String) → Call
  flagging unflagging revoking : (masjid_id : String) → Call

pub data Transaction (I : Type 0) : Type 0 where
  calling : Registry → Message → Call → Transaction I
  elsewhere : I → Transaction I

-- The deployed contract before the first registration.
abbrev pub no_masjid : Masjid
no_masjid = record {
  proposer = zero_address_text;
  masjid_admin = zero_address_text;
  instance_addr = zero_address_text;
  stablecoin = zero_address_text;
  name_hash = zero_hash;
  cash_out_threshold = 0;
  attest_yes = 0;
  attest_no = 0;
  status = none_status;
  created_at = 0;
  updated_at = 0;
  masjid_name = "";
  metadata_uri = "";
}

module _ {I : Type 0} where
  unfoldable pub constructor' : (verifier_registry sender : String) → I → Result Revert (State I)
  constructor' verifier_registry sender i = do
    revert_if (str_eq verifier_registry zero_address_text) zero_address
    ok (record {
      admin = sender;
      masjid_nonce = 0;
      masjid_by_id = λ id. no_masjid;
      id_by_name_hash = λ name_hash. zero_hash;
      board_members = λ id. [];
      attesters = λ id. [];
      has_attested = [];
      instances = i;
    })

  module _ (hashes : Hashes) (contracts : Message → Instances I) where
    unfoldable pub perform : Registry → Message → Call → State I → Result Revert (State I)
    perform registry msg (registering masjid_name metadata_uri stablecoin board) s =
        register (contracts msg) msg s hashes.hash_name hashes.hash_id masjid_name metadata_uri
          stablecoin board
    perform registry msg (attesting id support) s = attest (contracts msg) msg s registry id support
    perform registry msg (transferring id new_admin) s =
        transfer_admin (contracts msg) msg s id new_admin
    perform registry msg (flagging id) s = flag (contracts msg) msg s id
    perform registry msg (unflagging id) s = unflag (contracts msg) msg s id
    perform registry msg (revoking id) s = revoke (contracts msg) msg s id

    abbrev pub settle : Result Revert (State I) → State I → State I
    settle (ok s') s = s'
    settle (thrown e) s = s

    unfoldable pub transact : Transaction I → State I → State I
    unfolding perform
    transact (calling registry msg call) s = settle (perform registry msg call s) s
    transact (elsewhere i) s = record s { instances = i }

    unfoldable pub transact_all : List (Transaction I) → State I → State I
    transact_all [] s = s
    transact_all (tx ∷ txs) s = transact_all txs (transact tx s)
