-- ===== src/MasjidFactory.antt =====
-- smart-contract/src/protocol/MasjidFactory.sol: the contract that deploys the contracts of the
-- masjids, and these contracts at their addresses. The address of a new contract is a function of
-- how many the factory has created. Events are left out.
pub mod Laws
use masjid_protocol.Prelude.Text.{is_empty}
use text.Mathlib.Text.{◌==◌ as str_eq}
use masjid_protocol.Prelude.{
  ◌||◌, ℕ, thrown, suc, some, ok, not, none, String, Result, Option, List,
}
use masjid_protocol.Prelude.Reverts.{revert_if, put, ◌>>◌}
use masjid_protocol.MasjidInstance as Instance
use masjid_protocol.CashOut.Instance as Checks
use masjid_protocol.CashOut.Instance.{zero_address_text}
use masjid_protocol.MasjidInstance.{AccessControl, Token, Message}
use masjid_protocol.MasjidProtocol.{Instances}

pub data Revert : Type 0 where
  only_protocol empty_name zero_address already_deployed : Revert
  reverted : Checks.Revert → Revert

-- `contracts` are the contracts by address, and `token` is what a new contract finds of its token.
pub record Deployments (R T : Type 0) : Type 0 where
  pub protocol : String
  pub masjid_by_id : String → String
  pub created : ℕ
  pub contracts : String → Option (Instance.State R T)
  pub token : T

-- The factory right after its deployment, which the protocol's own contract makes.
abbrev pub deployed_by : {R T : Type 0} → (protocol : String) → T → Deployments R T
deployed_by protocol t = record {
  protocol = protocol;
  masjid_by_id = λ id. zero_address_text;
  created = 0;
  contracts = λ address. none;
  token = t;
}

unfoldable pub constructor' :
    {R T : Type 0} → (protocol : String) → T → Result Revert (Deployments R T)
constructor' protocol t = do
  revert_if (str_eq protocol zero_address_text) zero_address
  ok (deployed_by protocol t)

module _ {R T : Type 0} (access : AccessControl R) (token : Token T) (address_of : ℕ → String) where
  abbrev pub created_with : String → Instance.State R T → Deployments R T → Deployments R T
  created_with id contract d = record d {
    masjid_by_id = put id (address_of d.created) d.masjid_by_id;
    created = suc d.created;
    contracts = put (address_of d.created) (some contract) d.contracts;
  }

  abbrev pub add_created :
      String
      → Result Checks.Revert (Instance.State R T)
      → Deployments R T
      → Result Revert (String × Deployments R T)
  add_created id (ok contract) d = ok (address_of d.created, created_with id contract d)
  add_created id (thrown e) d = thrown (reverted e)

  unfoldable pub deploy_masjid :
      (sender : String)
      → Deployments R T
      → (masjid_id masjid_name metadata_uri masjid_admin stablecoin : String) → List String
      → (threshold : ℕ) → Result Revert (String × Deployments R T)
  deploy_masjid sender d id masjid_name metadata_uri masjid_admin stablecoin members threshold = do
    revert_if (not (str_eq sender d.protocol)) only_protocol
    revert_if (is_empty masjid_name) empty_name
    revert_if (str_eq masjid_admin zero_address_text || str_eq stablecoin zero_address_text)
        zero_address
    revert_if (not (str_eq (d.masjid_by_id id) zero_address_text)) already_deployed
    add_created id
        (Instance.constructor' access token (address_of d.created) d.protocol masjid_name
          metadata_uri masjid_admin stablecoin members threshold d.token)
        d

  -- A call of the contract at an address, which fails where there is none.
  abbrev pub updated :
      String
      → Result Checks.Revert (Instance.State R T)
      → Deployments R T
      → Option (Deployments R T)
  updated address (ok contract) d =
      some (record d { contracts = put address (some contract) d.contracts })
  updated address (thrown e) d = none

  abbrev pub call_of :
      String
      → (Instance.State R T → Result Checks.Revert (Instance.State R T))
      → Deployments R T
      → Option (Instance.State R T)
      → Option (Deployments R T)
  call_of address f d none = none
  call_of address f d (some contract) = updated address (f contract) d

  abbrev pub call_at :
      String
      → (Instance.State R T → Result Checks.Revert (Instance.State R T))
      → Deployments R T
      → Option (Deployments R T)
  call_at address f d = call_of address f d (d.contracts address)

  abbrev pub succeeded : {A : Type 0} → Result Revert A → Option A
  succeeded (ok a) = some a
  succeeded (thrown e) = none

  -- The calls that the protocol's contract at the address `this` makes, at the time of `msg`.
  abbrev pub deployments : (this : String) → Message → Instances (Deployments R T)
  deployments this msg = record {
    deploy = λ id masjid_name metadata_uri masjid_admin stablecoin members threshold d. succeeded (
        deploy_masjid this d id masjid_name metadata_uri masjid_admin stablecoin members threshold);
    set_status = λ address status d.
        call_at address
          (λ c.
            Instance.set_status access token (record { sender = this; timestamp = msg.timestamp }) c
              status)
          d;
    set_admin = λ address admin d.
        call_at address
          (λ c.
            Instance.set_admin access token (record { sender = this; timestamp = msg.timestamp }) c
              admin)
          d;
  }
