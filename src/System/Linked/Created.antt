-- ===== src/System/Linked/Created.antt =====
-- A masjid that is verified gets a contract, to which its record is linked.
use masjid_protocol.MasjidInstance.Calls.Protected.{HasProtocol}
use masjid_protocol.System.Linked.{
  put-AreProtected, CreatedAddresses, has_contract, Held, Matches, IsLinked, Link, Replaces,
}
use masjid_protocol.Prelude.{
  ◌≢◌, ◌≡◌, ◌∙◌, ℕ, true, sym, suc, subst, some, inr, inl, false, arith, ap, String,
}
use masjid_protocol.MasjidInstance as Instance
use masjid_protocol.MasjidInstance.{AccessControl, Token, Message}
use masjid_protocol.MasjidProtocol.{Masjid}
use masjid_protocol.MasjidFactory.{Deployments}
use masjid_protocol.Prelude.Reverts.{put, put-same, put-other}

module _ {R T : Type 0} (access : AccessControl R) (token : Token T) (address_of : ℕ → String)
    (addresses : CreatedAddresses address_of) (this : String) where
  -- The next address is that of no masjid.
  new_address :
      (m : Masjid) (d : Deployments R T) (id : String)
      → Held access token address_of this m d id
      → m.instance_addr ≢ address_of d.created
  new_address m d id h e =
      let same = addresses.differs h.number d.created (sym h.at ∙ e) in
      let below = h.below in absurd (omega arith)

  module _ (f f' : String → Masjid) (d : Deployments R T) (id : String) (m : Masjid)
      (c c' : Instance.State R T) where
    abbrev pub address : String
    address = address_of d.created

    abbrev pub after : Deployments R T
    after = record d {
      masjid_by_id = put id address d.masjid_by_id;
      created = suc d.created;
      contracts = put address (some c') (put address (some c) d.contracts);
    }

    kept :
        (k : String)
        → k ≢ id
        → Held access token address_of this (f k) d k
        → Held access token address_of this (f k) after k
    kept k ne h = record {
      contract = h.contract;
      found =
          put-other address (f k).instance_addr (some c') (put address (some c) d.contracts)
            (new_address (f k) d k h)
          ∙ put-other address (f k).instance_addr (some c) d.contracts (new_address (f k) d k h)
          ∙ h.found;
      matches = h.matches;
      listed = put-other id k address d.masjid_by_id ne ∙ h.listed;
      number = h.number;
      at = h.at;
      below = let b = h.below in omega arith;
    }

    old_address :
        IsLinked access token address_of this f d
        → (k : String) → has_contract (f k).status ≡ true
        → (f k).instance_addr ≢ address
    old_address l k h = new_address (f k) d k ((l.link k).held h)

    pub created-IsLinked :
        Replaces access token address_of this f f' id m
        → has_contract (f id).status ≡ false
        → has_contract m.status ≡ true
        → m.instance_addr ≡ address
        → HasProtocol access token this c.roles
        → Matches access token address_of this m c'
        → IsLinked access token address_of this f d
        → IsLinked access token address_of this f' after
    created-IsLinked at before now at_address roles matches l = record {
      protocol = l.protocol;
      link = λ k. elim (at k) [
        | inl (e, e') ↦
            subst (λ x. Link access token address_of this x after k) (sym e')
              (subst (λ x. Link access token address_of this m after x) (sym e)
                (record {
                  bare = λ b. absurd (cc (b, now));
                  held = λ b. record {
                    contract = c';
                    found =
                        ap after.contracts at_address
                        ∙ put-same address (some c') (put address (some c) d.contracts);
                    matches = matches;
                    listed = put-same id address d.masjid_by_id ∙ sym at_address;
                    number = d.created;
                    at = at_address;
                    below = omega arith;
                  };
                }))
        | inr (ne, e) ↦
            subst (λ x. Link access token address_of this x after k) (sym e)
              (record {
                bare = λ b.
                    let old = (l.link k).bare b in
                    record {
                      no_address = old.no_address;
                      unlisted = put-other id k address d.masjid_by_id ne ∙ old.unlisted;
                      own = old.own;
                    };
                held = λ b. kept k ne ((l.link k).held b);
              })
      ];
      apart = λ a b ha hb e. elim (at a) [
        | inl (i, ea) ↦ elim (at b) [
          | inl (j, eb) ↦ i ∙ sym j
          | inr (j, eb) ↦ absurd (
              old_address l b (subst (λ x. has_contract x.status ≡ true) eb hb) (
                ap (λ x. x.instance_addr) (sym eb)
                ∙ sym e
                ∙ ap (λ x. x.instance_addr) ea
                ∙ at_address))
        ]
        | inr (i, ea) ↦ elim (at b) [
          | inl (j, eb) ↦ absurd (
              old_address l a (subst (λ x. has_contract x.status ≡ true) ea ha) (
                ap (λ x. x.instance_addr) (sym ea) ∙ e ∙ ap (λ x. x.instance_addr) eb ∙ at_address))
          | inr (j, eb) ↦
              l.apart a b (subst (λ x. has_contract x.status ≡ true) ea ha)
                (subst (λ x. has_contract x.status ≡ true) eb hb)
                (ap (λ x. x.instance_addr) (sym ea) ∙ e ∙ ap (λ x. x.instance_addr) eb)
        ]
      ];
      protected =
          put-AreProtected access token address_of this
            (record d {
              masjid_by_id = put id address d.masjid_by_id;
              created = suc d.created;
              contracts = put address (some c) d.contracts;
            })
            address c' matches.roles
            (put-AreProtected access token address_of this d address c roles l.protected);
    }
