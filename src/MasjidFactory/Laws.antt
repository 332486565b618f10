-- ===== src/MasjidFactory/Laws.antt =====
-- What the factory has done when a deployment, or a call of a deployed contract, goes through.
use masjid_protocol.Prelude.{
  ◌∙◌, subst, ◌≡◌, ℕ, thrown, sym, some, refl, ok, ap, String, Result, Option, List,
}
use masjid_protocol.MasjidFactory.{
  constructor', deployed_by, Deployments, call_of, zero_address, updated, succeeded, only_protocol,
  empty_name, deployments, deploy_masjid, created_with, call_at, already_deployed, add_created,
  Revert,
}
use masjid_protocol.MasjidInstance as Instance
use masjid_protocol.MasjidInstance.{AccessControl, Token, Message}
use masjid_protocol.CashOut.Instance as Checks
use masjid_protocol.Prelude.Reverts.{put, passed, returned}

some-injective : {A : Type 0} {a b : A} → (h : ◌≡◌ {A = Option A} (some a) (some b)) → a ≡ b
some-injective h = cc

module _ {R T : Type 0} (access : AccessControl R) (token : Token T) (address_of : ℕ → String) where
  succeeded-eq-some :
      {A : Type 0} (r : Result Revert A) {a : A}
      → succeeded access token address_of r ≡ some a
      → r ≡ ok a
  succeeded-eq-some (ok a) h = ap ok (some-injective h)
  succeeded-eq-some (thrown e) h = cc

  -- The new contract, at the next address.
  pub record Deployment (d : Deployments R T) (id name uri admin stablecoin : String)
      (members : List String) (threshold : ℕ) (address : String) (d' : Deployments R T)
      : Type 0 where
    pub contract : Instance.State R T
    pub made :
        Instance.constructor' access token
          (address_of d.created)
          d.protocol
          name
          uri
          admin
          stablecoin
          members
          threshold
          d.token
        ≡ ok contract
    pub at : address ≡ address_of d.created
    pub after : d' ≡ created_with access token address_of id contract d

  added :
      (d : Deployments R T) (id name uri admin stablecoin : String) (members : List String)
      (threshold : ℕ) (r : Result Checks.Revert (Instance.State R T)) (address : String)
      (d' : Deployments R T)
      → Instance.constructor' access token
          (address_of d.created)
          d.protocol
          name
          uri
          admin
          stablecoin
          members
          threshold
          d.token
        ≡ r
      → add_created access token address_of id r d ≡ ok (address, d')
      → Deployment d id name uri admin stablecoin members threshold address d'
  added d id name uri admin stablecoin members threshold (ok c) address d' e h =
      let same = returned h in
      record {
        contract = c;
        made = e;
        at = sym (ap (λ x. x.0) same);
        after = sym (ap (λ x. x.1) same);
      }
  added d id name uri admin stablecoin members threshold (thrown x) address d' e h = cc

  pub deploy-eq-some :
      (this : String) (msg : Message) (d : Deployments R T) (id name uri admin stablecoin : String)
      (members : List String) (threshold : ℕ) (address : String) (d' : Deployments R T)
      → (deployments access token address_of this msg).deploy id name uri admin stablecoin members
          threshold d
        ≡ some (address, d')
      → Deployment d id name uri admin stablecoin members threshold address d'
  unfolding deploy_masjid
  deploy-eq-some this msg d id name uri admin stablecoin members threshold address d' h =
      let h0 = succeeded-eq-some _ h in
      let (c1, h1) = passed _ only_protocol _ h0 in
      let (c2, h2) = passed _ empty_name _ h1 in
      let (c3, h3) = passed _ zero_address _ h2 in
      let (c4, h4) = passed _ already_deployed _ h3 in
      added d id name uri admin stablecoin members threshold _ address d' refl h4

  updated-eq-some :
      (address : String) (d : Deployments R T) (r : Result Checks.Revert (Instance.State R T))
      {d' : Deployments R T}
      → updated access token address_of address r d ≡ some d'
      → (c' : Instance.State R T) × (r ≡ ok c')
        × (d' ≡ record d { contracts = put address (some c') d.contracts })
  updated-eq-some address d (ok c') h = (c', refl, sym (some-injective h))
  updated-eq-some address d (thrown e) h = cc

  pub call_at-eq-some :
      (address : String) (g : Instance.State R T → Result Checks.Revert (Instance.State R T))
      (d : Deployments R T) (c : Instance.State R T) {d' : Deployments R T}
      → d.contracts address ≡ some c
      → call_at access token address_of address g d ≡ some d'
      → (c' : Instance.State R T) × (g c ≡ ok c')
        × (d' ≡ record d { contracts = put address (some c') d.contracts })
  call_at-eq-some address g d c {d'} found h =
      updated-eq-some address d (g c)
        (subst (λ o. call_of access token address_of address g d o ≡ some d') found h)

  pub call_at-some :
      (address : String) (g : Instance.State R T → Result Checks.Revert (Instance.State R T))
      (d : Deployments R T) (c c' : Instance.State R T)
      → d.contracts address ≡ some c
      → g c ≡ ok c'
      → call_at access token address_of address g d
        ≡ some (record d { contracts = put address (some c') d.contracts })
  call_at-some address g d c c' found h =
      ap (call_of access token address_of address g d) found
      ∙ ap (λ r. updated access token address_of address r d) h

pub constructor'-eq-ok :
    {R T : Type 0} (protocol : String) (t : T) {d : Deployments R T}
    → constructor' protocol t ≡ ok d
    → d ≡ deployed_by protocol t
unfolding constructor'
constructor'-eq-ok protocol t h = let (c, h') = passed _ zero_address _ h in sym (returned h')
