-- ===== src/System/Linked/Changed.antt =====
-- What keeps the link between the records of the masjids and their contracts.

use masjid_protocol.Prelude.{ap, ◌≢◌, ◌≡◌, ◌∙◌, ℕ, true, sym, subst, some, inr, inl, false, String}
use masjid_protocol.MasjidInstance.{protocol_role, AccessControl, Token, Message}
use masjid_protocol.MasjidInstance as Instance
use masjid_protocol.MasjidProtocol.{Masjid}
use masjid_protocol.MasjidFactory.{Deployments}
use masjid_protocol.MasjidInstance.Calls.Protected.{Untouched}
use masjid_protocol.Prelude.Reverts.{put, put-cases, put-same, put-other}
use masjid_protocol.System.Linked as Linked
use masjid_protocol.System.Linked.{has_contract, some-injective, put-AreProtected}

module _ {R T : Type 0} (access : AccessControl R) (token : Token T) (address_of : ℕ → String)
    (this : String) where
  abbrev Matches : Masjid → Instance.State R T → Type 0
  Matches = Linked.Matches access token address_of this

  abbrev Held : Masjid → Deployments R T → String → Type 0
  Held = Linked.Held access token address_of this

  abbrev Link : Masjid → Deployments R T → String → Type 0
  Link = Linked.Link access token address_of this

  abbrev IsLinked : (String → Masjid) → Deployments R T → Type 0
  IsLinked = Linked.IsLinked access token address_of this

  abbrev AreApart : (String → Masjid) → Type 0
  AreApart = Linked.AreApart access token address_of this

  abbrev Replaces : (f f' : String → Masjid) → String → Masjid → Type 0
  Replaces = Linked.Replaces access token address_of this

  -- Under an address that a masjid does not have, contracts may change.
  Held-elsewhere :
      (m : Masjid) (d : Deployments R T) (id address : String) (c : Instance.State R T)
      → m.instance_addr ≢ address
      → Held m d id
      → Held m (record d { contracts = put address (some c) d.contracts }) id
  Held-elsewhere m d id address c ne h = record {
    contract = h.contract;
    found = put-other address m.instance_addr (some c) d.contracts ne ∙ h.found;
    matches = h.matches;
    listed = h.listed;
    number = h.number;
    at = h.at;
    below = h.below;
  }

  origin-apart :
      (f f' : String → Masjid) (id : String) (m : Masjid)
      → Replaces f f' id m
      → (has_contract m.status ≡ true → has_contract (f id).status ≡ true)
      → m.instance_addr ≡ (f id).instance_addr
      → AreApart f
      → AreApart f'
  origin-apart f f' id m at had same apart a b ha hb e =
      let origin : (k : String)
          → has_contract (f' k).status ≡ true
          → (has_contract (f k).status ≡ true) × ((f' k).instance_addr ≡ (f k).instance_addr) =
        λ k h. elim (at k) [
          | inl (i, ek) ↦
              subst
                (λ x.
                  (has_contract (f x).status ≡ true) × ((f' k).instance_addr ≡ (f x).instance_addr))
                (sym i)
                (
                  had (subst (λ x. has_contract x.status ≡ true) ek h),
                  ap (λ x. x.instance_addr) ek ∙ same,
                )
          | inr (i, ek) ↦
              (subst (λ x. has_contract x.status ≡ true) ek h, ap (λ x. x.instance_addr) ek)
        ] in
      apart a b (origin a ha).0 (origin b hb).0 (sym (origin a ha).1 ∙ e ∙ (origin b hb).1)

  -- A masjid without a contract gets another record without one.
  pub bare-IsLinked :
      (f f' : String → Masjid) (d : Deployments R T) (id : String) (m : Masjid)
      → Replaces f f' id m
      → has_contract (f id).status ≡ false
      → has_contract m.status ≡ false
      → m.instance_addr ≡ (f id).instance_addr
      → m.masjid_admin ≡ m.proposer
      → IsLinked f d
      → IsLinked f' d
  bare-IsLinked f f' d id m at before after same own l = record {
    protocol = l.protocol;
    link = λ k. elim (at k) [
      | inr (ne, e) ↦ subst (λ x. Link x d k) (sym e) (l.link k)
      | inl (e, e') ↦
          let b = (l.link id).bare before in
          subst (λ x. Link x d k) (sym e')
            (subst (λ x. Link m d x) (sym e)
              (record {
                bare = λ h. record {
                  no_address = same ∙ b.no_address;
                  unlisted = b.unlisted;
                  own = own;
                };
                held = λ h. absurd (cc after);
              }))
    ];
    apart = origin-apart f f' id m at (λ h. absurd (cc after)) same l.apart;
    protected = l.protected;
  }

  -- The record of a masjid changes together with its contract.
  pub held-IsLinked :
      (f f' : String → Masjid) (d : Deployments R T) (id : String) (m : Masjid)
      (c : Instance.State R T)
      → Replaces f f' id m
      → has_contract (f id).status ≡ true
      → has_contract m.status ≡ true
      → m.instance_addr ≡ (f id).instance_addr
      → Matches m c
      → IsLinked f d
      → IsLinked f' (record d { contracts = put (f id).instance_addr (some c) d.contracts })
  held-IsLinked f f' d id m c at before after same matches l =
      let address = (f id).instance_addr in
      let d' = record d { contracts = put address (some c) d.contracts } in
      record {
        protocol = l.protocol;
        link = λ k. elim (at k) [
          | inl (e, e') ↦
              let h = (l.link id).held before in
              subst (λ x. Link x d' k) (sym e')
                (subst (λ x. Link m d' x) (sym e)
                  (record {
                    bare = λ b. absurd (cc (b, after));
                    held = λ b. record {
                      contract = c;
                      found = ap d'.contracts same ∙ put-same address (some c) d.contracts;
                      matches = matches;
                      listed = h.listed ∙ sym same;
                      number = h.number;
                      at = same ∙ h.at;
                      below = h.below;
                    };
                  }))
          | inr (ne, e) ↦
              subst (λ x. Link x d' k) (sym e)
                (record {
                  bare = λ b. record {
                    no_address = ((l.link k).bare b).no_address;
                    unlisted = ((l.link k).bare b).unlisted;
                    own = ((l.link k).bare b).own;
                  };
                  held = λ b.
                      Held-elsewhere (f k) d k address c (λ same. ne (l.apart k id b before same))
                        ((l.link k).held b);
                })
        ];
        apart = origin-apart f f' id m at (λ h. before) same l.apart;
        protected =
            put-AreProtected access token address_of this d address c matches.roles l.protected;
      }

  -- A contract changes in parts that the record does not mirror.
  pub Untouched-IsLinked :
      (f : String → Masjid) (d : Deployments R T) (address : String) (c c' : Instance.State R T)
      → d.contracts address ≡ some c
      → Untouched access token this c c'
      → IsLinked f d
      → IsLinked f (record d { contracts = put address (some c') d.contracts })
  Untouched-IsLinked f d address c c' found u l = record {
    protocol = l.protocol;
    link = λ k. record {
      bare = λ b. record {
        no_address = ((l.link k).bare b).no_address;
        unlisted = ((l.link k).bare b).unlisted;
        own = ((l.link k).bare b).own;
      };
      held = λ b.
          let h = (l.link k).held b in
          elim (put-cases address (f k).instance_addr (some c') d.contracts) [
            | inr (ne, e) ↦ Held-elsewhere (f k) d k address c' ne h
            | inl (e, e') ↦
                let same : h.contract ≡ c =
                  some-injective (sym h.found ∙ ap d.contracts e ∙ found) in
                record {
                  contract = c';
                  found = e';
                  matches = record {
                    status = u.status ∙ ap (λ x. x.status) (sym same) ∙ h.matches.status;
                    masjid_admin =
                        u.masjid_admin
                        ∙ ap (λ x. x.masjid_admin) (sym same)
                        ∙ h.matches.masjid_admin;
                    masjid_name =
                        u.masjid_name ∙ ap (λ x. x.masjid_name) (sym same) ∙ h.matches.masjid_name;
                    roles = λ account.
                        u.roles account
                        ∙ ap (λ x. access.has_role protocol_role account x.roles) (sym same)
                        ∙ h.matches.roles account;
                  };
                  listed = h.listed;
                  number = h.number;
                  at = h.at;
                  below = h.below;
                }
          ];
    };
    apart = l.apart;
    protected =
        put-AreProtected access token address_of this d address c'
          (λ account. u.roles account ∙ l.protected address c found account) l.protected;
  }
