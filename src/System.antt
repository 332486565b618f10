-- ===== src/System.antt =====
-- The contracts of smart-contract/src/protocol together: the registry of verifiers, the contract of
-- the registrations, the factory, and the contracts of the masjids, as the transactions of any
-- accounts change them.
pub mod Linked
pub mod Sound
pub mod Decisions
pub mod Ties
pub mod Boards
use masjid_protocol.Prelude.{◌≢◌, ◌≡◌, ℕ, some, ok, String}
use masjid_protocol.Prelude.Reverts.{put}
use masjid_protocol.VerifierRegistry
use masjid_protocol.MasjidProtocol
use masjid_protocol.MasjidInstance
use masjid_protocol.MasjidFactory
use masjid_protocol.MasjidFactory.{Deployments, deployments}
use masjid_protocol.MasjidProtocol.{Registry, Instances}
use masjid_protocol.MasjidProtocol.Calls.{Hashes}
use masjid_protocol.MasjidInstance.{AccessControl, Token, Message, protocol_role}

pub record System (R T : Type 0) : Type 0 where
  pub registry : VerifierRegistry.State
  pub protocol : MasjidProtocol.State (Deployments R T)

-- What the protocol's contract reads of the registry.
abbrev pub view : VerifierRegistry.State → Registry
view r = record { is_verifier = r.is_verifier; quorum = VerifierRegistry.quorum r }

module _ {R T : Type 0} (hashes : Hashes) (access : AccessControl R) (token : Token T)
    (address_of : ℕ → String) (this : String) where
  abbrev pub contracts : Message → Instances (Deployments R T)
  contracts = deployments access token address_of this

  -- The system with other contracts of the masjids, or with one of them changed.
  abbrev pub with_deployments : System R T → Deployments R T → System R T
  with_deployments sys d = record sys { protocol = record sys.protocol { instances = d } }

  abbrev pub with_contract : System R T → String → MasjidInstance.State R T → System R T
  with_contract sys address contract =
      let d = sys.protocol.instances in
      with_deployments sys (record d { contracts = put address (some contract) d.contracts })

  -- One transaction that goes through. The token may change at any time; the roles of a contract
  -- change also by the functions of `AccessControl` itself, by which an account can give up its own
  -- role: the protocol's contract never does.
  pub data Step : System R T → System R T → Type 0 where
    registry :
        {sys : System R T} (sender : String) (call : VerifierRegistry.Call)
        (r : VerifierRegistry.State)
        → VerifierRegistry.perform sender call sys.registry ≡ ok r
        → Step sys (record sys { registry = r })
    protocol :
        {sys : System R T} (msg : Message) (call : MasjidProtocol.Calls.Call)
        (p : MasjidProtocol.State (Deployments R T))
        → MasjidProtocol.Calls.perform hashes contracts (view sys.registry) msg call sys.protocol
          ≡ ok p
        → Step sys (record sys { protocol = p })
    masjid :
        {sys : System R T} (address : String) (msg : Message) (call : MasjidInstance.Calls.Call)
        (c c' : MasjidInstance.State R T)
        → msg.sender ≢ this
        → sys.protocol.instances.contracts address ≡ some c
        → MasjidInstance.Calls.perform access token msg call c ≡ ok c'
        → Step sys (with_contract sys address c')
    elsewhere :
        {sys : System R T} (address : String) (c : MasjidInstance.State R T) (roles : R) (t : T)
        → sys.protocol.instances.contracts address ≡ some c
        → ((account : String)
            → access.has_role protocol_role account roles
              ≡ access.has_role protocol_role account c.roles)
        → Step sys (with_contract sys address (record c { roles = roles; token = t }))
    token_moves :
        {sys : System R T} (t : T)
        → Step sys (with_deployments sys (record sys.protocol.instances { token = t }))

  -- The states that transactions lead to after the deployment of the registry and of the protocol,
  -- which deploys the factory.
  pub data Reach : System R T → Type 0 where
    deployed :
        (authority verifier_registry sender : String) (t : T) (r : VerifierRegistry.State)
        (d : Deployments R T) (p : MasjidProtocol.State (Deployments R T))
        → VerifierRegistry.constructor' authority ≡ ok r
        → MasjidFactory.constructor' this t ≡ ok d
        → MasjidProtocol.Calls.constructor' verifier_registry sender d ≡ ok p
        → Reach (record { registry = r; protocol = p })
    next : {sys sys' : System R T} → Reach sys → Step sys sys' → Reach sys'
