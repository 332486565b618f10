-- ===== src/MasjidProtocol/Laws.antt =====
-- Votes at MasjidProtocol.sol.
use masjid_protocol.Prelude.{
  if◌then◌else◌, ◌∷◌, ◌∙◌, ◌+◌, ◌++◌, [], sym, ℕ, ◌≤◌, ◌<◌, ◌≡◌, ◌≢◌, ◌⊎◌, inl, inr, refl, ap,
  subst, Bool, true, false, not, Option, none, some, String, ok, leb, Bool-cases, Option-cases,
  arith,
}
use masjid_protocol.MasjidProtocol.{
  verified_with, overflow, counted, not_authorized_verifier, masjid_not_found, invalid_status,
  already_attested, Masjid, Registry, Instances, State, attested, called, is_pending, decided,
  verified_at, voted, attest,
}
use masjid_protocol.Prelude.Reverts.{passed, returned, really, put-same}
use masjid_protocol.Contracts as Contracts
use masjid_protocol.MasjidInstance.{Message}
use masjid_protocol.MasjidInstance.Calls.Guards.{not_zero}
use masjid_protocol.Contracts.{MasjidStatus, none_status, pending, rejected}

pub called-eq-ok :
    {A B : Type 0} (o : Option A) (f : A → B) {x : B}
    → called o f ≡ ok x
    → (a : A) × (o ≡ some a) × (f a ≡ x)
called-eq-ok none f h = cc
called-eq-ok (some a) f h = (a, refl, returned h)

-- The three ends of a vote, by the counts that it leaves: the masjid is verified, with a contract
-- that has been deployed for it, or it is rejected, or it stays as it was.
abbrev pub Decision : (quorum : ℕ) → Masjid → Masjid → Type 0
Decision quorum m after =
    ((quorum ≤ m.attest_yes) × (after.status ≡ Contracts.verified))
    ⊎ ((m.attest_yes < quorum) × (quorum ≤ m.attest_no) × (after.status ≡ rejected))
    ⊎ ((m.attest_yes < quorum) × (m.attest_no < quorum) × (after.status ≡ m.status))

module _ {I : Type 0} (contracts : Instances I) (msg : Message) (s : State I) where
  -- What a verification has got from the factory and the new contract.
  pub record Deployed (id : String) (m : Masjid) (s0 s' : State I) : Type 0 where
    pub instance_addr : String
    pub i : I
    pub i' : I
    pub deployed :
        contracts.deploy id m.masjid_name m.metadata_uri m.proposer m.stablecoin
          (s0.board_members id)
          m.cash_out_threshold
          s0.instances
        ≡ some (instance_addr, i)
    pub set : contracts.set_status instance_addr Contracts.verified i ≡ some i'
    pub after : s' ≡ verified_with contracts msg s instance_addr id m i' s0

  pub verified_at-eq-ok :
      (id : String) (m : Masjid) (s0 : State I) {s' : State I}
      → verified_at contracts msg s id m s0 ≡ ok s'
      → Deployed id m s0 s'
  verified_at-eq-ok id m s0 h =
      elim (Option-cases (
        contracts.deploy id m.masjid_name m.metadata_uri m.proposer m.stablecoin
          (s0.board_members id) m.cash_out_threshold s0.instances)) [
            | inl none' ↦ let refused = rw (none') at h in absurd cc
            | inr (d, deployed) ↦
                elim (Option-cases (contracts.set_status d.0 Contracts.verified d.1)) [
                  | inl none' ↦ let refused = rw (deployed, none') at h in absurd cc
                  | inr (i', set) ↦ record {
                    instance_addr = d.0;
                    i = d.1;
                    i' = i';
                    deployed = deployed;
                    set = set;
                    after = sym (returned (rw (deployed, set) at h));
                  }
                ]
          ]

  verified_at-status :
      (id : String) (m : Masjid) (s0 : State I) {s' : State I}
      → verified_at contracts msg s id m s0 ≡ ok s'
      → (s'.masjid_by_id id).status ≡ Contracts.verified
  verified_at-status id m s0 h =
      subst (λ x. (x.masjid_by_id id).status ≡ Contracts.verified)
        (sym (verified_at-eq-ok id m s0 h).after)
        (ap (λ x. x.status) (put-same id _ s0.masjid_by_id))

  decided-Decision :
      (quorum : ℕ) (id : String) (m : Masjid) (s0 : State I) {s' : State I}
      → s0.masjid_by_id id ≡ m
      → decided contracts msg s quorum id m s0 ≡ ok s'
      → Decision quorum m (s'.masjid_by_id id)
  decided-Decision quorum id m s0 at h = elim (Bool-cases (leb quorum m.attest_yes)) [
    | inl a ↦ inl (ground (arith, a), verified_at-status id m s0 (rw (a) at h))
    | inr a ↦ elim (Bool-cases (leb quorum m.attest_no)) [
      | inl b ↦
          let e = returned (rw (a, b) at h) in
          inr (
            inl (
              ground (arith, a),
              ground (arith, b),
              subst (λ x. (x.masjid_by_id id).status ≡ rejected) e
                  (ap (λ x. x.status) (put-same id _ s0.masjid_by_id)),
            ))
      | inr b ↦
          let e = returned (rw (a, b) at h) in
          inr (
            inr (
              ground (arith, a),
              ground (arith, b),
              subst (λ x. (x.masjid_by_id id).status ≡ m.status) e (ap (λ x. x.status) at),
            ))
    ]
  ]

  -- What a vote that goes through has checked.
  pub record Counted (registry : Registry) (id : String) : Type 0 where
    pub entitled : registry.is_verifier msg.sender ≡ true
    pub exists : (s.masjid_by_id id).created_at ≢ 0
    pub waiting : (s.masjid_by_id id).status ≡ pending
    pub first : attested id msg.sender s.has_attested ≡ false

  waiting_of : (status : MasjidStatus) → not (is_pending status) ≡ false → status ≡ pending
  waiting_of pending h = refl
  waiting_of none_status h = cc
  waiting_of rejected h = cc
  waiting_of Contracts.MasjidStatus.verified h = cc
  waiting_of Contracts.MasjidStatus.flagged h = cc
  waiting_of Contracts.MasjidStatus.revoked h = cc

  pub attest-eq-ok :
      (registry : Registry) (id : String) (support : Bool) {s' : State I}
      → attest contracts msg s registry id support ≡ ok s'
      → Counted registry id
        × (decided contracts msg s registry.quorum id
              (voted contracts msg s support (s.masjid_by_id id))
              (counted contracts msg s id support)
            ≡ ok s')
  unfolding attest
  attest-eq-ok registry id support h =
      let (c1, h1) = passed _ not_authorized_verifier _ h in
      let (c2, h2) = passed _ masjid_not_found _ h1 in
      let (c3, h3) = passed _ invalid_status _ h2 in
      let (c4, h4) = passed _ already_attested _ h3 in
      let (c5, h5) = passed _ overflow _ h4 in
      (
        record {
          entitled = really _ c1;
          exists = not_zero _ c2;
          waiting = waiting_of _ c3;
          first = c4;
        },
        h5,
      )

  -- What the decision leaves of the votes.
  abbrev Keeps : String → Masjid → (s0 s' : State I) → Type 0
  Keeps id m s0 s' =
      (s'.has_attested ≡ s0.has_attested)
      × (s'.attesters ≡ s0.attesters)
      × ((s'.masjid_by_id id).attest_yes ≡ m.attest_yes)
      × ((s'.masjid_by_id id).attest_no ≡ m.attest_no)

  decided-Keeps :
      (quorum : ℕ) (id : String) (m : Masjid) (s0 : State I) {s' : State I}
      → s0.masjid_by_id id ≡ m
      → decided contracts msg s quorum id m s0 ≡ ok s'
      → Keeps id m s0 s'
  decided-Keeps quorum id m s0 at h = elim (Bool-cases (leb quorum m.attest_yes)) [
    | inl a ↦
        let d = verified_at-eq-ok id m s0 (rw (a) at h) in
        subst (Keeps id m s0) (sym d.after) (
          refl,
          refl,
          ap (λ x. x.attest_yes) (put-same id _ s0.masjid_by_id),
          ap (λ x. x.attest_no) (put-same id _ s0.masjid_by_id),
        )
    | inr a ↦ elim (Bool-cases (leb quorum m.attest_no)) [
      | inl b ↦ subst (Keeps id m s0) (returned (rw (a, b) at h)) (
        refl,
        refl,
        ap (λ x. x.attest_yes) (put-same id _ s0.masjid_by_id),
        ap (λ x. x.attest_no) (put-same id _ s0.masjid_by_id),
      )
      | inr b ↦
          subst (Keeps id m s0) (returned (rw (a, b) at h))
            (refl, refl, ap (λ x. x.attest_yes) at, ap (λ x. x.attest_no) at)
    ]
  ]

  voted-yes :
      (support : Bool) (m : Masjid)
      → (voted contracts msg s support m).attest_yes ≡ (if support then 1 else 0) + m.attest_yes
  voted-yes true m = omega arith
  voted-yes false m = omega arith

  voted-no :
      (support : Bool) (m : Masjid)
      → (voted contracts msg s support m).attest_no ≡ (if support then 0 else 1) + m.attest_no
  voted-no true m = omega arith
  voted-no false m = omega arith

  -- The vote, as it stands in the state afterwards: the verifier is recorded as one who has voted
  -- on the masjid, at the end of its list of voters, and its side has one vote more.
  pub record Recorded (id : String) (support : Bool) (s' : State I) : Type 0 where
    pub noted : s'.has_attested ≡ (id, msg.sender) ∷ s.has_attested
    pub listed : s'.attesters id ≡ s.attesters id ++ msg.sender ∷ []
    pub favour :
        (s'.masjid_by_id id).attest_yes
        ≡ (if support then 1 else 0) + (s.masjid_by_id id).attest_yes
    pub against :
        (s'.masjid_by_id id).attest_no ≡ (if support then 0 else 1) + (s.masjid_by_id id).attest_no

  counted-Recorded :
      (id : String) (support : Bool) {s' : State I}
      → Keeps id
          (voted contracts msg s support (s.masjid_by_id id))
          (counted contracts msg s id support)
          s'
      → Recorded id support s'
  counted-Recorded id support (noted, listed, favour, against) = record {
    noted = noted;
    listed = ap (λ f. f id) listed ∙ put-same id _ s.attesters;
    favour = favour ∙ voted-yes support (s.masjid_by_id id);
    against = against ∙ voted-no support (s.masjid_by_id id);
  }

  -- A vote that goes through is that of a verifier, on a masjid that exists and is pending, and the
  -- verifier's first on it. Afterwards the verifier is recorded as one who has voted on the masjid,
  -- at the end of its list of voters, its side has one vote more, and the other as many as before.
  -- By these counts the masjid is verified exactly if the votes in favour reach the quorum; else it
  -- is rejected exactly if those against do; else it stays pending.
  pub attest-Decision :
      (registry : Registry) (id : String) (support : Bool) {s' : State I}
      → attest contracts msg s registry id support ≡ ok s'
      → Counted registry id
        × Recorded id support s'
        × Decision registry.quorum
            (voted contracts msg s support (s.masjid_by_id id))
            (s'.masjid_by_id id)
  attest-Decision registry id support h =
      let (c, h') = attest-eq-ok registry id support h in
      (
        c,
        counted-Recorded id support (
            decided-Keeps registry.quorum id (voted contracts msg s support (s.masjid_by_id id))
              (counted contracts msg s id support) (put-same id _ s.masjid_by_id) h'),
        decided-Decision registry.quorum id (voted contracts msg s support (s.masjid_by_id id))
            (counted contracts msg s id support) (put-same id _ s.masjid_by_id) h',
      )
