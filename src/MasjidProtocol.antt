-- ===== src/MasjidProtocol.antt =====
-- smart-contract/src/protocol/MasjidProtocol.sol: the contract at which masjids are registered,
-- voted on, and flagged or revoked. The registry of verifiers is an argument of a vote; the factory
-- and the masjids' contracts are an interface, whose calls are `none` where they revert. Events are
-- left out.
mod Storage
pub mod Laws
pub mod Calls
use masjid_protocol.MasjidProtocol.Storage.{
  zero_address, overflow, not_masjid_admin, not_authorized_verifier, not_admin, masjid_not_found,
  is_verified, is_rejected, is_pending, is_flagged, invalid_status, empty_name, called, attested,
  already_registered_name, already_attested, State, Revert, Registry, Masjid, Instances,
}
pub use Storage.*
use text.Mathlib.Text.{◌==◌ as str_eq}
use masjid_protocol.Prelude.{
  ℕ, suc, ◌+◌, ◌%◌, ◌^◌, Bool, true, false, not, ◌&&◌, ◌||◌, List, [], ◌∷◌, ◌++◌, Option, none,
  some, String, Result, ok, thrown, leb, length, ◌==◌, ◌>>=◌, if◌then◌else◌,
}
use masjid_protocol.Prelude.Text.{is_empty}
pub use masjid_protocol.Prelude.Reverts.{◌>>◌, revert_if, put}
use masjid_protocol.Contracts as Contracts
use masjid_protocol.Contracts.{
  MasjidStatus, none_status, pending, rejected, InstanceVerificationStatus,
}
use masjid_protocol.CashOut.Instance.{zero_address_text}
use masjid_protocol.MasjidInstance.{Message}
use masjid_protocol.MasjidInstance.Deployed.{threshold_of}

module _ {I : Type 0} (contracts : Instances I) (msg : Message) (s : State I) where
  abbrev pub now : ℕ
  now = msg.timestamp % 2 ^ 64

  abbrev pub is_taken : (name_hash : String) → Bool
  is_taken name_hash =
      not (str_eq (s.id_by_name_hash name_hash) zero_hash)
      && not (is_rejected (s.masjid_by_id (s.id_by_name_hash name_hash)).status)

  abbrev pub new_masjid :
      (name_hash id masjid_name metadata_uri stablecoin : String) → List String → Masjid
  new_masjid name_hash id masjid_name metadata_uri stablecoin board = record (s.masjid_by_id id) {
    proposer = msg.sender;
    masjid_admin = msg.sender;
    stablecoin = stablecoin;
    name_hash = name_hash;
    cash_out_threshold = threshold_of board;
    status = pending;
    created_at = now;
    updated_at = now;
    masjid_name = masjid_name;
    metadata_uri = metadata_uri;
  }

  -- The state with a new masjid under its number.
  abbrev pub registered :
      (name_hash id masjid_name metadata_uri stablecoin : String) → List String → State I
  registered name_hash id masjid_name metadata_uri stablecoin board = record s {
    masjid_nonce = suc s.masjid_nonce;
    masjid_by_id =
        put id (new_masjid name_hash id masjid_name metadata_uri stablecoin board) s.masjid_by_id;
    board_members = put id board s.board_members;
    id_by_name_hash = put name_hash id s.id_by_name_hash;
  }

  -- `hash_name` and `hash_id` are the two uses of `keccak256`; what they hash is their argument, for
  -- the second without the chain and the address of the contract.
  unfoldable pub register :
      (hash_name : String → String) (hash_id : ℕ → String → String → String)
      (masjid_name metadata_uri stablecoin : String)
      → List String
      → Result Revert (State I)
  register hash_name hash_id masjid_name metadata_uri stablecoin board = do
    revert_if (is_empty masjid_name) empty_name
    revert_if (str_eq stablecoin zero_address_text) zero_address
    revert_if (length board == 0) zero_address
    let name_hash = hash_name masjid_name
    revert_if (is_taken name_hash) already_registered_name
    revert_if (leb (2 ^ 256) (suc s.masjid_nonce)) overflow
    let id = hash_id (suc s.masjid_nonce) msg.sender name_hash
    ok (registered name_hash id masjid_name metadata_uri stablecoin board)

  -- The state `s'` with the masjid `m` verified, its contract at the address.
  abbrev pub verified_with : (instance_addr id : String) → Masjid → I → State I → State I
  verified_with instance_addr id m i s' = record s' {
    masjid_by_id =
        put id
          (record m {
            instance_addr = instance_addr;
            status = Contracts.verified;
            updated_at = now;
          })
          s'.masjid_by_id;
    instances = i;
  }

  -- `_verified`, with the masjid `m` as the vote has left it, and `_rejected`.
  abbrev pub verified_at : String → Masjid → State I → Result Revert (State I)
  verified_at id m s' = do
    (instance_addr, i) ←
        called
          (contracts.deploy id m.masjid_name m.metadata_uri m.proposer m.stablecoin
            (s'.board_members id) m.cash_out_threshold s'.instances)
          (λ deployed. deployed)
    called (contracts.set_status instance_addr Contracts.verified i)
        (λ i'. verified_with instance_addr id m i' s')

  abbrev pub rejected_at : String → Masjid → State I → State I
  rejected_at id m s' = record s' {
    masjid_by_id = put id (record m { status = rejected; updated_at = now }) s'.masjid_by_id;
  }

  abbrev pub votes : Bool → Masjid → ℕ
  votes true m = m.attest_yes
  votes false m = m.attest_no

  -- The masjid with the vote.
  abbrev pub voted : Bool → Masjid → Masjid
  voted support m = record m {
    attest_yes = if support then suc m.attest_yes else m.attest_yes;
    attest_no = if support then m.attest_no else suc m.attest_no;
    updated_at = now;
  }

  -- The end of a vote: the masjid is verified or rejected once the quorum is reached.
  abbrev pub decided : (quorum : ℕ) → String → Masjid → State I → Result Revert (State I)
  decided quorum id m s' =
      if leb quorum m.attest_yes
      then verified_at id m s'
      else if leb quorum m.attest_no
      then ok (rejected_at id m s')
      else ok s'

  -- The state with the vote.
  abbrev pub counted : String → Bool → State I
  counted id support = record s {
    has_attested = (id, msg.sender) ∷ s.has_attested;
    attesters = put id (s.attesters id ++ msg.sender ∷ []) s.attesters;
    masjid_by_id = put id (voted support (s.masjid_by_id id)) s.masjid_by_id;
  }

  unfoldable pub attest :
      Registry → (masjid_id : String) → (support : Bool) → Result Revert (State I)
  attest registry id support = do
    revert_if (not (registry.is_verifier msg.sender)) not_authorized_verifier
    revert_if ((s.masjid_by_id id).created_at == 0) masjid_not_found
    revert_if (not (is_pending (s.masjid_by_id id).status)) invalid_status
    revert_if (attested id msg.sender s.has_attested) already_attested
    revert_if (leb (2 ^ 32) (suc (votes support (s.masjid_by_id id)))) overflow
    decided registry.quorum id (voted support (s.masjid_by_id id)) (counted id support)

  abbrev pub transferred : (id new_admin : String) → I → State I
  transferred id new_admin i = record s {
    masjid_by_id =
        put id (record (s.masjid_by_id id) { masjid_admin = new_admin; updated_at = now })
          s.masjid_by_id;
    instances = i;
  }

  unfoldable pub transfer_admin : (masjid_id new_admin : String) → Result Revert (State I)
  transfer_admin id new_admin =
      let m = s.masjid_by_id id in
      do
        revert_if (not (str_eq m.masjid_admin msg.sender)) not_masjid_admin
        revert_if (str_eq m.instance_addr zero_address_text) masjid_not_found
        revert_if (str_eq new_admin zero_address_text) zero_address
        called (contracts.set_admin m.instance_addr new_admin s.instances)
            (transferred id new_admin)

  abbrev pub restated : String → MasjidStatus → I → State I
  restated id new_status i = record s {
    masjid_by_id =
        put id (record (s.masjid_by_id id) { status = new_status; updated_at = now })
          s.masjid_by_id;
    instances = i;
  }

  -- `_setStatus`.
  abbrev pub set_status :
      String → MasjidStatus → InstanceVerificationStatus → Result Revert (State I)
  set_status id new_status instance_status =
      called (contracts.set_status (s.masjid_by_id id).instance_addr instance_status s.instances)
        (restated id new_status)

  abbrev pub only_admin : Result Revert (Unit {0})
  only_admin = revert_if (not (str_eq msg.sender s.admin)) not_admin

  unfoldable pub flag : (masjid_id : String) → Result Revert (State I)
  flag id = do
    only_admin
    revert_if (str_eq (s.masjid_by_id id).instance_addr zero_address_text) masjid_not_found
    revert_if (not (is_verified (s.masjid_by_id id).status)) invalid_status
    set_status id Contracts.flagged Contracts.flagged

  unfoldable pub unflag : (masjid_id : String) → Result Revert (State I)
  unflag id = do
    only_admin
    revert_if (str_eq (s.masjid_by_id id).instance_addr zero_address_text) masjid_not_found
    revert_if (not (is_flagged (s.masjid_by_id id).status)) invalid_status
    set_status id Contracts.verified Contracts.verified

  unfoldable pub revoke : (masjid_id : String) → Result Revert (State I)
  revoke id = do
    only_admin
    revert_if (str_eq (s.masjid_by_id id).instance_addr zero_address_text) masjid_not_found
    revert_if
        (not (is_verified (s.masjid_by_id id).status)
          && not (is_flagged (s.masjid_by_id id).status))
        invalid_status
    set_status id Contracts.revoked Contracts.revoked
