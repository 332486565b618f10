-- ===== src/System/Boards.antt =====
-- The board that a masjid is registered with, when its contract is deployed.
use masjid_protocol.Prelude.{◌≤◌, ◌≡◌, ℕ, true, suc, ok, leb, arith, String}
use masjid_protocol.MasjidInstance.{AccessControl, Token, Message}
use masjid_protocol.MasjidInstance.Deployed.{AreNonzero, constructor'-AreNonzero}
use masjid_protocol.MasjidProtocol.{State, Registry, attest, voted, counted}
use masjid_protocol.MasjidProtocol.Laws.{attest-eq-ok, verified_at-eq-ok}
use masjid_protocol.MasjidFactory.{Deployments, deployments}
use masjid_protocol.MasjidFactory.Laws.{deploy-eq-some}

at_quorum : (quorum favour : ℕ) → quorum ≤ suc favour → leb quorum (suc favour) ≡ true
at_quorum quorum favour h = ground arith

-- A vote in favour that reaches the quorum goes through only if no member of the board with which
-- the masjid was registered is the zero address; the registration does not test that.
pub attest-AreNonzero :
    {R T : Type 0} (access : AccessControl R) (token : Token T) (address_of : ℕ → String)
    (this : String) (msg : Message) (s : State (Deployments R T)) (registry : Registry)
    (id : String) {s' : State (Deployments R T)}
    → attest (deployments access token address_of this msg) msg s registry id true ≡ ok s'
    → registry.quorum ≤ suc (s.masjid_by_id id).attest_yes
    → AreNonzero (s.board_members id)
attest-AreNonzero access token address_of this msg s registry id h q =
    let calls = deployments access token address_of this msg in
    let m = voted calls msg s true (s.masjid_by_id id) in
    let (_, h') = attest-eq-ok calls msg s registry id true h in
    let d =
      verified_at-eq-ok calls msg s id m (counted calls msg s id true)
        (rw (at_quorum registry.quorum (s.masjid_by_id id).attest_yes q) at h') in
    let made =
      deploy-eq-some access token address_of this msg s.instances id m.masjid_name m.metadata_uri
        m.proposer m.stablecoin (s.board_members id) m.cash_out_threshold d.instance_addr d.i
        d.deployed in
    constructor'-AreNonzero access token (address_of s.instances.created) s.instances.protocol
      m.masjid_name m.metadata_uri m.proposer m.stablecoin (s.board_members id) m.cash_out_threshold
      s.instances.token made.made
