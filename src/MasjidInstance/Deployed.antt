-- ===== src/MasjidInstance/Deployed.antt =====
-- A registration and the contract that it leads to: `register` of
-- smart-contract/src/protocol/MasjidProtocol.sol computes the threshold from the members that the
-- form of registration sends, and once the masjid is verified the contract is deployed with both.
-- An address is the same account in whatever case it is written, so the contract's accounts are the
-- addresses in lower case.
use text.Mathlib.Text.{◌==◌ as str_eq}
use masjid_protocol.Prelude.{
  ℕ, suc, ◌+◌, ◌/◌, ◌≤◌, ◌≡◌, ◌≢◌, ◌↔◌, ◌∙◌, refl, ap, inl, inr, Bool, true, false, ◌||◌, List, [],
  ◌∷◌, map, String, ok, length, ltb, ◌==◌, All, arith,
}
use masjid_protocol.CashOut.Instance.{
  zero_address_text, zero_address, duplicate_verifier, invalid_threshold,
}
use masjid_protocol.Register.{Member, Values, validate, no_errors}
use masjid_protocol.Register.Laws.{Distinct, differs_iff, no_errors_iff}
use masjid_protocol.MasjidInstance.{
  AccessControl, Token, State, admin_role, board_role, protocol_role, add_members, constructor',
}
use masjid_protocol.Wallet.Laws.{Result-cases}
use masjid_protocol.MasjidInstance.Calls.Guards.{passed, then_ok-eq-ok}

-- `boardMembers.length / 2 + 1`.
unfoldable pub threshold_of : List String → ℕ
threshold_of members = length members / 2 + 1

threshold_of-le :
    (members : List String) → 1 ≤ length members → threshold_of members ≤ length members
unfolding threshold_of
threshold_of-le members h = omega arith

-- The members' addresses as accounts.
abbrev pub accounts : (String → String) → List Member → List String
accounts to_lower members = map (λ (m : Member). to_lower m.address) members

abbrev pub AreNonzero : List String → Type 0
AreNonzero members = All (λ member. member ≢ zero_address_text) members

module _ {R T : Type 0} (access : AccessControl R) (token : Token T) where
  abbrev AreOutside : R → List String → Type 0
  AreOutside roles members = All (λ member. access.has_role board_role member roles ≡ false) members

  -- Giving the role to one account leaves the others outside.
  outside_still :
      (member : String) (roles : R) (members : List String)
      → All (λ y. y ≢ member) members
      → AreOutside roles members
      → AreOutside (access.grant_role board_role member roles) members
  outside_still member roles [] d o = tt
  outside_still member roles (m ∷ ms) (d, ds) (o, os) = (
    access.grant-other board_role board_role m member roles (inr d) ∙ o,
    outside_still member roles ms ds os,
  )

  add_members-accepted :
      (members : List String) (roles : R) (n : ℕ)
      → AreNonzero members
      → Distinct members
      → AreOutside roles members
      → (added : R × ℕ) × (add_members access token members roles n ≡ ok added)
  unfolding add_members
  add_members-accepted [] roles n z d o = ((roles, n), refl)
  add_members-accepted (member ∷ members) roles n (z, zs) (d, ds) (o, os) =
      let (added, rest) =
        add_members-accepted members (access.grant_role board_role member roles) (suc n) zs ds
          (outside_still member roles members d os) in
      (added, rw ((differs_iff zero_address_text member).1 z, o) rest)

  add_members-AreNonzero :
      (members : List String) (roles : R) (n : ℕ) {added : R × ℕ}
      → add_members access token members roles n ≡ ok added
      → AreNonzero members
  unfolding add_members
  add_members-AreNonzero [] roles n h = tt
  add_members-AreNonzero (member ∷ members) roles n h =
      let (c1, h1) = passed (str_eq member zero_address_text) zero_address _ h in
      let (c2, h2) = passed (access.has_role board_role member roles) duplicate_verifier _ h1 in
      (
        (differs_iff zero_address_text member).0 c1,
        add_members-AreNonzero members (access.grant_role board_role member roles) (suc n) h2,
      )

  board_unlike_admin : board_role ≢ admin_role
  board_unlike_admin h = cc

  board_unlike_protocol : board_role ≢ protocol_role
  board_unlike_protocol h = cc

  -- Before the loop only the protocol and the admin have roles.
  outside_first :
      (protocol admin : String) (members : List String)
      → AreOutside
          (access.grant_role admin_role admin
            (access.grant_role protocol_role protocol access.no_roles))
          members
  outside_first protocol admin [] = tt
  outside_first protocol admin (m ∷ ms) = (
    access.grant-other board_role admin_role m admin _ (inl board_unlike_admin)
        ∙ access.grant-other board_role protocol_role m protocol _ (inl board_unlike_protocol)
        ∙ access.none-has board_role m,
    outside_first protocol admin ms,
  )

  length-accounts :
      (to_lower : String → String) (members : List Member)
      → length (accounts to_lower members) ≡ length members
  length-accounts to_lower [] = refl
  length-accounts to_lower (m ∷ ms) = ap suc (length-accounts to_lower ms)

  pub constructor'-AreNonzero :
      (this protocol name uri admin stablecoin : String) (members : List String) (threshold : ℕ)
      (t : T) {s : State R T}
      → constructor' access token this protocol name uri admin stablecoin members threshold t ≡ ok s
      → AreNonzero members
  unfolding constructor'
  constructor'-AreNonzero this protocol name uri admin stablecoin members threshold t h =
      let (c1, h1) =
        passed
          (str_eq protocol zero_address_text
            || str_eq admin zero_address_text
            || str_eq stablecoin zero_address_text)
          zero_address _ h in
      let (c2, h2) = passed (threshold == 0) invalid_threshold _ h1 in
      let (c3, h3) = passed (ltb (length members) threshold) invalid_threshold _ h2 in
      let (added, h4, e) =
        then_ok-eq-ok
          (add_members access token members
            (access.grant_role admin_role admin
              (access.grant_role protocol_role protocol access.no_roles))
            0)
          _ h3 in
      add_members-AreNonzero members _ 0 h4

  module _ (this protocol name uri admin stablecoin : String) (members : List String) (t : T) where
    -- The deployment that follows from a registration of these members.
    abbrev pub Deploys : Type 0
    Deploys =
        (s : State R T) × (constructor' access token this protocol name uri admin stablecoin members
            (threshold_of members) t
          ≡ ok s)

    Deploys-AreNonzero : Deploys → AreNonzero members
    Deploys-AreNonzero (s, h) =
        constructor'-AreNonzero this protocol name uri admin stablecoin members
          (threshold_of members) t h

    positive : (threshold_of members == 0) ≡ false
    unfolding threshold_of
    positive = ground arith

    enough :
        threshold_of members ≤ length members → ltb (length members) (threshold_of members) ≡ false
    enough h = ground arith

    AreNonzero-Deploys :
        protocol ≢ zero_address_text
        → admin ≢ zero_address_text
        → stablecoin ≢ zero_address_text
        → 1 ≤ length members
        → Distinct members
        → AreNonzero members
        → Deploys
    unfolding constructor'
    AreNonzero-Deploys p a c l d z =
        let (added, e) =
          add_members-accepted members
            (access.grant_role admin_role admin
              (access.grant_role protocol_role protocol access.no_roles))
            0 z d (outside_first protocol admin members) in
        elim (Result-cases (
          constructor' access token this protocol name uri admin stablecoin members
            (threshold_of members) t)) [
              | inl (s, h) ↦ (s, h)
              | inr (x, h) ↦
                  let refused =
                    rw
                      (
                        (differs_iff zero_address_text protocol).1 p,
                        (differs_iff zero_address_text admin).1 a,
                        (differs_iff zero_address_text stablecoin).1 c,
                        positive,
                        enough (threshold_of-le members l),
                        e,
                      )
                      at h in
                  absurd cc
            ]

  -- If the form of registration has no errors, and neither the protocol, nor the proposer, nor the
  -- stablecoin is the zero address, then the deployment with the form's members and the threshold
  -- of the registration goes through exactly when none of these members is the zero address, which
  -- the form does not test.
  pub constructor'-accepted_iff :
      (is_address : String → Bool) (to_lower : String → String) (v : Values)
      (this protocol uri admin stablecoin : String) (t : T)
      → no_errors (validate is_address to_lower v) ≡ true
      → protocol ≢ zero_address_text
      → admin ≢ zero_address_text
      → stablecoin ≢ zero_address_text
      → Deploys this protocol v.name uri admin stablecoin (accounts to_lower v.board_members) t
        ↔ AreNonzero (accounts to_lower v.board_members)
  constructor'-accepted_iff is_address to_lower v this protocol uri admin stablecoin t valid p a c =
      let members = accounts to_lower v.board_members in
      let (_, _, some_member, _, distinct) = (no_errors_iff is_address to_lower v).0 valid in
      let same = length-accounts to_lower v.board_members in
      (
        Deploys-AreNonzero this protocol v.name uri admin stablecoin members t,
        AreNonzero-Deploys this protocol v.name uri admin stablecoin members t p a c
            (omega (arith, some_member, same)) distinct,
      )
