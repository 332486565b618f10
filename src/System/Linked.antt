-- ===== src/System/Linked.antt =====
-- The link between the record of a masjid and the contract that was deployed for it.
pub mod Changed
pub mod Created
pub mod Calls
use text.Mathlib.TextEquality.{eq_iff}
use text.Mathlib.Text.{◌==◌ as str_eq}
use masjid_protocol.Prelude.{
  zero, Bool-cases, ap, Option, ◌⊎◌, ◌≢◌, ◌≡◌, ◌∙◌, ◌<◌, ℕ, true, sym, subst, some, inr, inl, false,
  String, Bool,
}
use masjid_protocol.MasjidInstance.{protocol_role, AccessControl, Token, Message}
use masjid_protocol.Contracts.{Addresses, MasjidStatus, InstanceVerificationStatus}
use masjid_protocol.CashOut.Instance.{zero_address_text}
use masjid_protocol.Contracts as Contracts
use masjid_protocol.MasjidInstance as Instance
use masjid_protocol.MasjidProtocol.{Masjid}
use masjid_protocol.MasjidFactory.{Deployments}
use masjid_protocol.MasjidInstance.Calls.Protected.{HasProtocol, Untouched}
use masjid_protocol.Prelude.Reverts.{put, put-cases, put-same, put-other}

abbrev pub has_contract : MasjidStatus → Bool
has_contract Contracts.MasjidStatus.verified = true
has_contract Contracts.MasjidStatus.flagged = true
has_contract Contracts.MasjidStatus.revoked = true
has_contract _ = false

-- The status that the contract of a masjid has when the record has this one.
abbrev pub instance_status : MasjidStatus → InstanceVerificationStatus
instance_status Contracts.MasjidStatus.verified = Contracts.verified
instance_status Contracts.MasjidStatus.flagged = Contracts.flagged
instance_status Contracts.MasjidStatus.revoked = Contracts.revoked
instance_status _ = Contracts.unverified

pub some-injective : {A : Type 0} {a b : A} → (h : ◌≡◌ {A = Option A} (some a) (some b)) → a ≡ b
some-injective h = cc

-- The addresses of new contracts: all different, and none of them the zero address.
pub record CreatedAddresses (address_of : ℕ → String) : Type 0 where
  pub differs : (m n : ℕ) → address_of m ≡ address_of n → m ≡ n
  pub nonzero : (n : ℕ) → address_of n ≢ zero_address_text

module _ {R T : Type 0} (access : AccessControl R) (token : Token T) (address_of : ℕ → String)
    (this : String) where
  -- The contract is that of the masjid: of its name, with its administrator, in its status, and with
  -- the protocol's contract as the one account that can change these.
  pub record Matches (m : Masjid) (c : Instance.State R T) : Type 0 where
    pub status : c.status ≡ instance_status m.status
    pub masjid_admin : c.masjid_admin ≡ m.masjid_admin
    pub masjid_name : c.masjid_name ≡ m.masjid_name
    pub roles : HasProtocol access token this c.roles

  pub record Held (m : Masjid) (d : Deployments R T) (id : String) : Type 0 where
    pub contract : Instance.State R T
    pub found : d.contracts m.instance_addr ≡ some contract
    pub matches : Matches m contract
    pub listed : d.masjid_by_id id ≡ m.instance_addr
    pub number : ℕ
    pub at : m.instance_addr ≡ address_of number
    pub below : number < d.created

  pub record Bare (m : Masjid) (d : Deployments R T) (id : String) : Type 0 where
    pub no_address : m.instance_addr ≡ zero_address_text
    pub unlisted : d.masjid_by_id id ≡ zero_address_text
    pub own : m.masjid_admin ≡ m.proposer

  pub record Link (m : Masjid) (d : Deployments R T) (id : String) : Type 0 where
    pub bare : has_contract m.status ≡ false → Bare m d id
    pub held : has_contract m.status ≡ true → Held m d id

  abbrev pub AreApart : (String → Masjid) → Type 0
  AreApart f =
      (a b : String)
      → has_contract (f a).status ≡ true
      → has_contract (f b).status ≡ true
      → (f a).instance_addr ≡ (f b).instance_addr
      → a ≡ b

  -- Where there is an address, there is a contract.
  pub has_of :
      (m : Masjid) (d : Deployments R T) (id : String)
      → Link m d id
      → str_eq m.instance_addr zero_address_text ≡ false
      → has_contract m.status ≡ true
  has_of m d id l h = elim (Bool-cases (has_contract m.status)) [
    | inl has ↦ has
    | inr hasnt ↦
        let zero = (eq_iff m.instance_addr zero_address_text).1 (l.bare hasnt).no_address in
        absurd (cc (h, zero))
  ]

  -- No account but the protocol's contract has the protocol's role at any of the contracts.
  abbrev pub AreProtected : Deployments R T → Type 0
  AreProtected d =
      (address : String) (c : Instance.State R T)
      → d.contracts address ≡ some c
      → HasProtocol access token this c.roles

  pub put-AreProtected :
      (d : Deployments R T) (address : String) (c : Instance.State R T)
      → HasProtocol access token this c.roles
      → AreProtected d
      → AreProtected (record d { contracts = put address (some c) d.contracts })
  put-AreProtected d address c roles p a c' found account =
      elim (put-cases address a (some c) d.contracts) [
        | inl (e, e') ↦
            ap (λ x. access.has_role protocol_role account x.roles)
              (some-injective (sym found ∙ e'))
            ∙ roles account
        | inr (ne, e') ↦ p a c' (sym e' ∙ found) account
      ]

  pub record IsLinked (f : String → Masjid) (d : Deployments R T) : Type 0 where
    pub protocol : d.protocol ≡ this
    pub link : (id : String) → Link (f id) d id
    pub apart : AreApart f
    pub protected : AreProtected d

  -- `f'` is `f` with the record `m` under `id`.
  abbrev pub Replaces : (f f' : String → Masjid) → String → Masjid → Type 0
  Replaces f f' id m = (k : String) → ((k ≡ id) × (f' k ≡ m)) ⊎ ((k ≢ id) × (f' k ≡ f k))
