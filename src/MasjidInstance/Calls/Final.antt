-- ===== src/MasjidInstance/Calls/Final.antt =====
-- What was proposed stays as it is: no function changes the terms of a request, takes an approval
-- back or reopens a settled one.
use masjid_protocol.MasjidInstance.Calls.Sound.Kept.{
  constructor-Sound, transact-Sound, transacted_from,
}
use masjid_protocol.CashOut.Instance.{Revert}
use masjid_protocol.MasjidInstance.{
  constructor', AccessControl, Token, Message, State, put, propose_cash_out, approve_cash_out,
  execute_cash_out, cancel_cash_out,
}
use masjid_protocol.MasjidInstance.Calls.{
  Call, Transaction, calling, elsewhere, cashing_in, proposing, approving, executing, canceling,
  setting_member, setting_threshold, setting_admin, setting_status, setting_uri, perform, settle,
  transact, transact_all,
}
use masjid_protocol.MasjidInstance.Calls.Unchanged.{
  cash_in-requests, set_admin-requests, set_board_member-requests, set_cash_out_threshold-requests,
  set_metadata_uri-requests, set_status-requests,
}
use masjid_protocol.MasjidInstance.Calls.Guards.{
  made_of, propose-eq-ok, approve-eq-ok, execute-eq-ok, cancel-eq-ok,
}
use masjid_protocol.MasjidInstance.Calls.Sound.{Sound, put-elim}
use masjid_protocol.Contracts.{CashOutRequest}
use masjid_protocol.Contracts.Calls.{ProposeCashOutArgs}
use masjid_protocol.Prelude.{
  ℕ, suc, ◌<◌, ◌≤◌, ◌≡◌, ◌≢◌, ◌⊎◌, inl, inr, ◌∙◌, refl, sym, ap, subst, Bool, true, false, List, [],
  ◌∷◌, String, Result, ok, thrown, arith,
}

-- The request `r` has become `r'`.
pub record Grown (r r' : CashOutRequest) : Type 0 where
  pub terms :
      record r' { approvals = r.approvals; executed = r.executed; canceled = r.canceled } ≡ r
  pub more : r.approvals ≤ r'.approvals
  pub paid : r.executed ≡ true → r'.executed ≡ true
  pub closed : r.canceled ≡ true → r'.canceled ≡ true
  pub final : (r.executed ≡ true) ⊎ (r.canceled ≡ true) → r' ≡ r

Grown-refl : {r r' : CashOutRequest} → r ≡ r' → Grown r r'
Grown-refl {r = r} e =
    subst (Grown r) e (record {
      terms = refl;
      more = omega arith;
      paid = λ x. x;
      closed = λ x. x;
      final = λ x. refl;
    })

Grown-trans : {r r' r'' : CashOutRequest} → Grown r r' → Grown r' r'' → Grown r r''
Grown-trans {r = r} {r' = r'} {r'' = r''} g h =
    let still : (r.executed ≡ true) ⊎ (r.canceled ≡ true)
        → (r'.executed ≡ true) ⊎ (r'.canceled ≡ true) =
      λ x. elim x [ inl e ↦ inl (g.paid e) | inr c ↦ inr (g.closed c) ] in
    let more = g.more in
    let more' = h.more in
    record {
      terms =
          ap
            (λ (x : CashOutRequest). record x {
              approvals = r.approvals;
              executed = r.executed;
              canceled = r.canceled;
            })
            h.terms
          ∙ g.terms;
      more = omega arith;
      paid = λ e. h.paid (g.paid e);
      closed = λ c. h.closed (g.closed c);
      final = λ x. h.final (still x) ∙ g.final x;
    }

-- Storing a request that has grown out of the one that was there, or one under another number.
put-Grown :
    (id : ℕ) (r : CashOutRequest) (by_id : ℕ → CashOutRequest) (i : ℕ)
    → (i ≡ id → Grown (by_id id) r)
    → Grown (by_id i) (put id r by_id i)
put-Grown id r by_id i g =
    put-elim (Grown (by_id i)) id r by_id i (λ e. subst (λ j. Grown (by_id j) r) (sym e) (g e))
      (λ ne. Grown-refl refl)

unlike : {b : Bool} → b ≡ false → b ≡ true → ⊥
unlike h k = cc

module _ {R T : Type 0} (access : AccessControl R) (token : Token T) where
  module _ (msg : Message) (s : State R T) (h : Sound s) (i : ℕ)
      (made : (s.cash_out_by_id i).created_at ≢ 0) where
    -- The request number `i` from `s` on to `s'`.
    abbrev GrownIn : State R T → Type 0
    GrownIn s' = Grown (s.cash_out_by_id i) (s'.cash_out_by_id i)

    propose-Grown :
        (p : ProposeCashOutArgs) {s' : State R T}
        → propose_cash_out access token msg s p ≡ ok s'
        → GrownIn s'
    propose-Grown p r = subst GrownIn (sym (propose-eq-ok access token msg s p r)) (
        put-Grown (suc s.cash_out_nonce) (made_of msg s.cash_out_nonce p) s.cash_out_by_id i (λ e.
          absurd (made (h.0.unmade i (subst (λ j. s.cash_out_nonce < j) (sym e) (omega arith))).0)))

    approve-Grown :
        (id : ℕ) {s' : State R T} → approve_cash_out access token msg s id ≡ ok s' → GrownIn s'
    approve-Grown id r =
        let (q, e) = approve-eq-ok access token msg s id r in
        subst GrownIn (sym e) (
          put-Grown id _ s.cash_out_by_id i (λ same. record {
            terms = refl;
            more = omega arith;
            paid = λ x. x;
            closed = λ x. x;
            final = λ x. elim x [
              | inl paid ↦ absurd (unlike q.unpaid paid)
              | inr closed ↦ absurd (unlike q.open_still closed)
            ];
          }))

    settled-Grown :
        (id : ℕ) (executed canceled : Bool)
        → (s.cash_out_by_id id).executed ≡ false
        → (s.cash_out_by_id id).canceled ≡ false
        → Grown (s.cash_out_by_id i) (
            put id
              (record (s.cash_out_by_id id) { executed = executed; canceled = canceled })
              s.cash_out_by_id
              i)
    settled-Grown id executed canceled unpaid open_still =
        put-Grown id _ s.cash_out_by_id i (λ same. record {
          terms = refl;
          more = omega arith;
          paid = λ x. absurd (unlike unpaid x);
          closed = λ x. absurd (unlike open_still x);
          final = λ x. elim x [
            | inl paid ↦ absurd (unlike unpaid paid)
            | inr closed ↦ absurd (unlike open_still closed)
          ];
        })

    execute-Grown :
        (id : ℕ) {s' : State R T} → execute_cash_out access token msg s id ≡ ok s' → GrownIn s'
    execute-Grown id r =
        let (t, q, e) = execute-eq-ok access token msg s id r in
        subst GrownIn (sym e) (settled-Grown id true _ q.unpaid q.open_still)

    cancel-Grown :
        (id : ℕ) {s' : State R T} → cancel_cash_out access token msg s id ≡ ok s' → GrownIn s'
    cancel-Grown id r =
        let (exists, unpaid, open_still, e) = cancel-eq-ok access token msg s id r in
        subst GrownIn (sym e) (settled-Grown id _ true unpaid open_still)

    perform-Grown :
        (call : Call) {s' : State R T} → perform access token msg call s ≡ ok s' → GrownIn s'
    unfolding perform
    perform-Grown (proposing p) r = propose-Grown p r
    perform-Grown (approving id) r = approve-Grown id r
    perform-Grown (executing id) r = execute-Grown id r
    perform-Grown (canceling id) r = cancel-Grown id r
    perform-Grown (cashing_in amount) r =
        Grown-refl (ap (λ by_id. by_id i) (cash_in-requests access token msg s amount r))
    perform-Grown (setting_member member allowed) r =
        Grown-refl
          (ap (λ by_id. by_id i) (set_board_member-requests access token msg s member allowed r))
    perform-Grown (setting_threshold threshold) r =
        Grown-refl
          (ap (λ by_id. by_id i) (set_cash_out_threshold-requests access token msg s threshold r))
    perform-Grown (setting_admin admin) r =
        Grown-refl (ap (λ by_id. by_id i) (set_admin-requests access token msg s admin r))
    perform-Grown (setting_status status) r =
        Grown-refl (ap (λ by_id. by_id i) (set_status-requests access token msg s status r))
    perform-Grown (setting_uri uri) r =
        Grown-refl (ap (λ by_id. by_id i) (set_metadata_uri-requests access token msg s uri r))

  settle-Grown :
      (r : Result Revert (State R T)) (s : State R T) (i : ℕ)
      → ((s' : State R T) → r ≡ ok s' → Grown (s.cash_out_by_id i) (s'.cash_out_by_id i))
      → Grown (s.cash_out_by_id i) ((settle access token r s).cash_out_by_id i)
  settle-Grown (ok s') s i k = k s' refl
  settle-Grown (thrown e) s i k = Grown-refl refl

  pub transact-Grown :
      (tx : Transaction R T) (s : State R T) (i : ℕ)
      → Sound s
      → (s.cash_out_by_id i).created_at ≢ 0
      → Grown (s.cash_out_by_id i) ((transact access token tx s).cash_out_by_id i)
  unfolding transact
  transact-Grown (calling msg call) s i h made =
      settle-Grown _ s i (λ s' r. perform-Grown msg s h i made call r)
  transact-Grown (elsewhere roles t) s i h made = Grown-refl refl

  terms_kept :
      (txs : List (Transaction R T)) (s : State R T) (i : ℕ)
      → Sound s
      → (s.cash_out_by_id i).created_at ≢ 0
      → Grown (s.cash_out_by_id i) ((transact_all access token txs s).cash_out_by_id i)
  unfolding transact_all
  terms_kept [] s i h made = Grown-refl refl
  terms_kept (tx ∷ txs) s i h made =
      let g = transact-Grown tx s i h made in
      let s' = transact access token tx s in
      Grown-trans g (
        terms_kept txs s' i (transact-Sound access token tx s h)
          (subst (λ x. x ≢ 0) (sym (ap (λ r. r.created_at) g.terms)) made))

  -- Deploy a contract and let any transactions follow, by whomever and at whatever times, with the
  -- token and the roles changing in any way between them. A request that exists by then keeps its
  -- receiver, amount, note, proposer and times whatever transactions come later; its approvals only
  -- grow; and once it is executed or canceled nothing of it changes any more.
  pub transact_all-Grown :
      (this protocol masjid_name metadata_uri masjid_admin stablecoin : String)
      (members : List String) (threshold : ℕ) (t : T) {s : State R T}
      → constructor' access token this protocol masjid_name metadata_uri masjid_admin stablecoin
          members threshold t
        ≡ ok s
      → (before after : List (Transaction R T)) (id : ℕ)
      → ((transact_all access token before s).cash_out_by_id id).created_at ≢ 0
      → Grown
          ((transact_all access token before s).cash_out_by_id id)
          ((transact_all access token after (transact_all access token before s)).cash_out_by_id id)
  transact_all-Grown this protocol name uri admin stablecoin members threshold t {s = s} h before
        after id made =
      terms_kept after (transact_all access token before s) id
        (transacted_from access token before s (
          constructor-Sound access token this protocol name uri admin stablecoin members threshold t
            h))
        made
