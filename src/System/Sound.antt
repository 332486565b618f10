-- ===== src/System/Sound.antt =====
-- What holds of the contracts together, whatever transactions they have taken.
use masjid_protocol.Prelude.{[], ◌≡◌, ℕ, subst, refl, ok, String, Result, Option}
use masjid_protocol.MasjidFactory.Laws as Factory
use masjid_protocol.VerifierRegistry.Laws.{
  constructor'-Represents, Members, Represents, Agrees, done, refused, perform-Agrees,
}
use masjid_protocol.MasjidProtocol.Calls.{no_masjid, Hashes}
use masjid_protocol.Prelude.Reverts.{returned}
use masjid_protocol.VerifierRegistry as VerifierRegistry
use masjid_protocol.MasjidProtocol.Calls.Names.{IsNamed}
use masjid_protocol.MasjidProtocol.Calls.Names.Unique.{Changes-IsNamed, deployed-IsNamed}
use masjid_protocol.MasjidProtocol.Calls.Votes.{AreTallied, Changes-AreTallied, deployed-AreTallied}
use masjid_protocol.MasjidProtocol.Calls.Changes.{perform-Changes}
use masjid_protocol.MasjidProtocol.Calls.Kept.{constructor'-eq-ok}
use masjid_protocol.MasjidInstance.{AccessControl, Token}
use masjid_protocol.MasjidInstance.Calls.Protected.{perform-Untouched}
use masjid_protocol.MasjidFactory.{Deployments, deployed_by}
use masjid_protocol.System.{System, Step, Reach, view, contracts, with_deployments}
use masjid_protocol.System.Linked.{CreatedAddresses, IsLinked}
use masjid_protocol.System.Linked.Changed.{Untouched-IsLinked}
use masjid_protocol.System.Linked.Calls.{Changes-Linked}

pub record IsSound {R T : Type 0} (hashes : Hashes) (access : AccessControl R) (token : Token T)
    (address_of : ℕ → String) (this : String) (sys : System R T) : Type 0 where
  pub members : Members
  pub registry : Represents sys.registry members
  pub named : IsNamed hashes sys.protocol
  pub tallied : AreTallied sys.protocol
  pub linked :
      IsLinked access token address_of this sys.protocol.masjid_by_id sys.protocol.instances

agreed :
    {s' : VerifierRegistry.State} (r : Result VerifierRegistry.Revert VerifierRegistry.State)
    (o : Option Members)
    → Agrees r o
    → r ≡ ok s'
    → (m : Members) × Represents s' m
agreed _ _ (done {s} {m} r) h = (m, subst (λ x. Represents x m) (returned h) r)
agreed _ _ (refused e) h = cc

module _ {R T : Type 0} (hashes : Hashes) (access : AccessControl R) (token : Token T)
    (address_of : ℕ → String) (addresses : CreatedAddresses address_of) (this : String) where
  abbrev Sound : System R T → Type 0
  Sound = IsSound hashes access token address_of this

  -- Other contracts of the masjids, linked as well.
  redeployed :
      (sys : System R T) (d : Deployments R T)
      → Sound sys
      → IsLinked access token address_of this sys.protocol.masjid_by_id d
      → Sound (with_deployments hashes access token address_of this sys d)
  redeployed sys d h l = record {
    members = h.members;
    registry = h.registry;
    named = record {
      numbered = h.named.numbered;
      hashed = h.named.hashed;
      indexed = h.named.indexed;
    };
    tallied = λ id. record {
      counted = (h.tallied id).counted;
      distinct = (h.tallied id).distinct;
      same = (h.tallied id).same;
    };
    linked = l;
  }

  Step-IsSound :
      {sys sys' : System R T}
      → Step hashes access token address_of this sys sys'
      → Sound sys
      → Sound sys'
  Step-IsSound (Step.registry {sys} sender call r e) h =
      let (m, represents) =
        agreed _ _ (perform-Agrees sender call sys.registry h.members h.registry) e in
      record {
        members = m;
        registry = represents;
        named = h.named;
        tallied = h.tallied;
        linked = h.linked;
      }
  Step-IsSound (Step.protocol {sys} msg call p e) h =
      let c =
        perform-Changes hashes (contracts hashes access token address_of this) (view sys.registry)
          msg sys.protocol call e in
      record {
        members = h.members;
        registry = h.registry;
        named =
            Changes-IsNamed hashes (contracts hashes access token address_of this msg)
              (view sys.registry) msg sys.protocol p c h.named;
        tallied =
            Changes-AreTallied hashes (contracts hashes access token address_of this msg)
              (view sys.registry) msg sys.protocol p c h.tallied;
        linked =
            Changes-Linked hashes access token address_of addresses this (view sys.registry) msg
              sys.protocol p c h.named h.linked;
      }
  Step-IsSound (Step.masjid {sys} address msg call c c' other found e) h = redeployed sys _ h (
      Untouched-IsLinked access token address_of this sys.protocol.masjid_by_id
        sys.protocol.instances address c c' found
        (perform-Untouched access token this msg c other (h.linked.protected address c found) call
          e)
        h.linked)
  Step-IsSound (Step.elsewhere {sys} address c roles t found same) h = redeployed sys _ h (
      Untouched-IsLinked access token address_of this sys.protocol.masjid_by_id
        sys.protocol.instances address c (record c { roles = roles; token = t }) found
        (record { status = refl; masjid_admin = refl; masjid_name = refl; roles = same }) h.linked)
  Step-IsSound (Step.token_moves {sys} t) h = redeployed sys _ h (record {
    protocol = h.linked.protocol;
    link = λ id. record {
      bare = λ b.
          let old = (h.linked.link id).bare b in
          record { no_address = old.no_address; unlisted = old.unlisted; own = old.own };
      held = λ b.
          let old = (h.linked.link id).held b in
          record {
            contract = old.contract;
            found = old.found;
            matches = old.matches;
            listed = old.listed;
            number = old.number;
            at = old.at;
            below = old.below;
          };
    };
    apart = h.linked.apart;
    protected = h.linked.protected;
  })

  first-Linked :
      (t : T) → IsLinked access token address_of this (λ id. no_masjid) (deployed_by this t)
  first-Linked t = record {
    protocol = refl;
    link = λ id. record {
      bare = λ b. record { no_address = refl; unlisted = refl; own = refl };
      held = λ b. absurd cc;
    };
    apart = λ a b h. absurd cc;
    protected = λ address c h. absurd cc;
  }

  pub Reach-IsSound : {sys : System R T} → Reach hashes access token address_of this sys → Sound sys
  Reach-IsSound (Reach.deployed authority verifier_registry sender t r d p e1 e2 e3) =
      let (m, _, _, _, i) = constructor'-eq-ok verifier_registry sender d e3 in
      record {
        members = record { authority = authority; accounts = [] };
        registry = constructor'-Represents authority e1;
        named = deployed-IsNamed hashes verifier_registry sender d e3;
        tallied = deployed-AreTallied verifier_registry sender d e3;
        linked = rw (m, i, Factory.constructor'-eq-ok this t e2) (first-Linked t);
      }
  Reach-IsSound (Reach.next reach step) = Step-IsSound step (Reach-IsSound reach)

  -- Deploy the registry of verifiers and the protocol's contract, which deploys the factory, and let
  -- any transactions of any accounts follow. Then a masjid that is verified, flagged or revoked has
  -- the contract at the address in its record, which the factory lists and created: a contract of
  -- the masjid's name, with the administrator of the record and in the status of the record, at
  -- which only the protocol's contract can change these; two masjids never share one. Any other
  -- masjid has no address, neither in its record nor at the factory.
  pub Reach-IsLinked :
      {sys : System R T}
      → Reach hashes access token address_of this sys
      → IsLinked access token address_of this sys.protocol.masjid_by_id sys.protocol.instances
  Reach-IsLinked reach = (Reach-IsSound reach).linked
