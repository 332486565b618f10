-- ===== src/VerifierRegistry/Laws.antt =====
-- The registry as a set of accounts: who is in it, how many there are, and what a quorum is.
use masjid_protocol.Prelude.{
  subst, ℕ, leb, inr, inl, Bool-cases, or_else, ◌^◌, refl, [], ltb, ◌≤◌, not, ◌+◌, ◌&&◌, thrown,
  suc, none, ◌<◌, true, some, ok, arith, ◌≡◌, ◌∷◌, length, false, Option, String, Result, List,
  Bool,
}
use masjid_protocol.VerifierRegistry.{
  constructor', settle, perform_all, zero_address, panic, not_verifier, not_authority,
  already_verifier, perform, add_verifier, adding, transferring, removing, transfer_authority,
  remove_verifier, Revert, Call, quorum, State,
}
use masjid_protocol.Prelude.Reverts.{passed, returned}
use masjid_protocol.VerifierRegistry.Accounts.{
  one_less, without, without-AreDistinct, put-without, put-holds, not_empty, holds, AreDistinct,
}
use masjid_protocol.CashOut.Instance.{zero_address_text}
use text.Mathlib.Text.{◌==◌ as str_eq}

-- The registry as it is meant: an authority, and a set of accounts.
pub record Members : Type 0 where
  pub authority : String
  pub accounts : List String

pub record Represents (s : State) (m : Members) : Type 0 where
  pub authority : s.authority ≡ m.authority
  pub distinct : AreDistinct m.accounts
  pub same : (account : String) → s.is_verifier account ≡ holds account m.accounts
  pub counted : s.verifier_count ≡ length m.accounts

abbrev allowed : Bool → Members → Option Members
allowed true m = some m
allowed false m = none

-- What a call is meant to do: `none` where it is refused.
abbrev pub next : (sender : String) → Call → Members → Option Members
next sender (transferring new_authority) m =
    allowed (str_eq sender m.authority && (not (str_eq new_authority zero_address_text) && true))
      (record m { authority = new_authority })
next sender (adding verifier label) m =
    allowed
      (str_eq sender m.authority
        && not (str_eq verifier zero_address_text)
        && not (holds verifier m.accounts)
        && ltb (suc (length m.accounts)) (2 ^ 256))
      (record m { accounts = verifier ∷ m.accounts })
next sender (removing verifier) m =
    allowed (str_eq sender m.authority && (holds verifier m.accounts && true))
      (record m { accounts = without verifier m.accounts })

pub data Agrees : Result Revert State → Option Members → Type 0 where
  done : {s : State} {m : Members} → Represents s m → Agrees (ok s) (some m)
  refused : (e : Revert) → Agrees (thrown e) none

leb-not-ltb : (a b : ℕ) → leb a b ≡ not (ltb b a)
leb-not-ltb a b = ground arith

-- One call does what is meant, and reverts exactly where that refuses.
pub perform-Agrees :
    (sender : String) (call : Call) (s : State) (m : Members)
    → Represents s m
    → Agrees (perform sender call s) (next sender call m)
unfolding perform transfer_authority add_verifier remove_verifier
perform-Agrees sender (transferring new_authority) s m r =
    elim (Bool-cases (str_eq sender m.authority)) [
      | inr a ↦ rw (r.authority, a) (refused not_authority)
      | inl a ↦ elim (Bool-cases (str_eq new_authority zero_address_text)) [
        | inl b ↦ rw (r.authority, a, b) (refused zero_address)
        | inr b ↦
            rw (r.authority, a, b)
              (done (record {
                authority = refl;
                distinct = r.distinct;
                same = r.same;
                counted = r.counted;
              }))
      ]
    ]
perform-Agrees sender (adding verifier label) s m r =
    elim (Bool-cases (str_eq sender m.authority)) [
      | inr a ↦ rw (r.authority, a) (refused not_authority)
      | inl a ↦ elim (Bool-cases (str_eq verifier zero_address_text)) [
        | inl b ↦ rw (r.authority, a, b) (refused zero_address)
        | inr b ↦ elim (Bool-cases (holds verifier m.accounts)) [
          | inl c ↦ rw (r.authority, a, b, r.same verifier, c) (refused already_verifier)
          | inr c ↦ elim (Bool-cases (ltb (suc (length m.accounts)) (2 ^ 256))) [
            | inr d ↦
                rw
                  (
                    r.authority,
                    a,
                    b,
                    r.same verifier,
                    c,
                    r.counted,
                    leb-not-ltb (2 ^ 256) (suc (length m.accounts)),
                    d,
                  )
                  (refused panic)
            | inl d ↦
                rw
                  (
                    r.authority,
                    a,
                    b,
                    r.same verifier,
                    c,
                    r.counted,
                    leb-not-ltb (2 ^ 256) (suc (length m.accounts)),
                    d,
                  )
                  (done (record {
                    authority = refl;
                    distinct = (c, r.distinct);
                    same = λ account.
                        put-holds verifier account s.is_verifier m.accounts (r.same account);
                    counted = refl;
                  }))
          ]
        ]
      ]
    ]
perform-Agrees sender (removing verifier) s m r = elim (Bool-cases (str_eq sender m.authority)) [
  | inr a ↦ rw (r.authority, a) (refused not_authority)
  | inl a ↦ elim (Bool-cases (holds verifier m.accounts)) [
    | inr b ↦ rw (r.authority, a, r.same verifier, b) (refused not_verifier)
    | inl b ↦
        rw (r.authority, a, r.same verifier, b, r.counted, not_empty verifier m.accounts b)
          (done (record {
            authority = refl;
            distinct = without-AreDistinct verifier m.accounts r.distinct;
            same =
                λ account. put-without verifier account s.is_verifier m.accounts (r.same account);
            counted = one_less verifier m.accounts r.distinct b;
          }))
  ]
]

-- A new registry is the empty set.
pub constructor'-Represents :
    (authority : String) {s : State}
    → constructor' authority ≡ ok s
    → Represents s (record { authority = authority; accounts = [] })
unfolding constructor'
constructor'-Represents authority h =
    let (c, h') = passed _ zero_address _ h in
    subst (λ x. Represents x (record { authority = authority; accounts = [] })) (returned h')
      (record { authority = refl; distinct = tt; same = λ account. refl; counted = refl })

-- A quorum is a majority of the verifiers, and they can reach it if there is one.
quorum_majority :
    (s : State) (m : Members)
    → Represents s m
    → (length m.accounts < quorum s + quorum s)
      × (1 ≤ length m.accounts → quorum s ≤ length m.accounts)
unfolding quorum
quorum_majority s m r = let e = r.counted in (omega arith, λ h. omega arith)

pub settle-Represents :
    (r : Result Revert State) (o : Option Members) {s : State} {m : Members}
    → Agrees r o
    → Represents s m
    → Represents (settle r s) (or_else o m)
settle-Represents _ _ (done r') r = r'
settle-Represents _ _ (refused e) r = r

-- What a sequence of calls is meant to do.
abbrev pub next_all : List (String × Call) → Members → Members
next_all [] m = m
next_all ((sender, call) ∷ calls) m = next_all calls (or_else (next sender call m) m)

-- From a registry that represents a set of accounts with an authority, any sequence of calls, by
-- anyone, leaves one that represents what the calls do to the set: the authority alone adds an
-- account that is not the zero address, not in the set yet, and for which the counter has room,
-- removes one that is in the set, or passes its authority on to an account that is not the zero
-- address; every other call changes nothing. The counter is the size of the set, so removing never
-- fails for lack of it; and the quorum is more than half of the verifiers, and within their number
-- if there is one.
pub perform_all-Represents :
    (calls : List (String × Call)) (s : State) (m : Members)
    → Represents s m
    → Represents (perform_all calls s) (next_all calls m)
      × (length (next_all calls m).accounts
          < quorum (perform_all calls s) + quorum (perform_all calls s))
      × (1 ≤ length (next_all calls m).accounts
          → quorum (perform_all calls s) ≤ length (next_all calls m).accounts)
unfolding perform_all
perform_all-Represents [] s m r = (r, (quorum_majority s m r).0, (quorum_majority s m r).1)
perform_all-Represents ((sender, call) ∷ calls) s m r =
    perform_all-Represents calls (settle (perform sender call s) s) (or_else (next sender call m) m)
      (settle-Represents _ _ (perform-Agrees sender call s m r) r)
