-- ===== src/MasjidInstance/Calls/Progress.antt =====
-- Money can leave the contract: enough members who approve, and the admin, get a request paid.
use masjid_protocol.MasjidInstance.Calls.{
  Call, Transaction, calling, approving, executing, perform, transact, transact_all,
}
use masjid_protocol.Prelude.{
  ap, sym, refl, subst, ◌++◌, length, ◌+◌, All, ℕ, suc, ◌^◌, ◌<◌, ◌≤◌, ◌≡◌, ◌≢◌, true, false, List,
  [], ◌∷◌, String, ok, arith,
}
use masjid_protocol.MasjidInstance.{
  AccessControl, Token, Message, State, board_role, admin_role, approved, put, approve_cash_out,
  execute_cash_out,
}
use masjid_protocol.CashOut.Instance.{is_verified}
use masjid_protocol.CashOut.Instance as Checks
use masjid_protocol.Contracts.{CashOutRequest}

-- None of the members has approved the request yet, and none is there twice.
abbrev pub HaveYetToApprove : ℕ → List String → List (ℕ × String) → Type 0
HaveYetToApprove id [] pairs = Unit
HaveYetToApprove id (member ∷ members) pairs =
    (approved id member pairs ≡ false) × HaveYetToApprove id members ((id, member) ∷ pairs)

module _ {R T : Type 0} (access : AccessControl R) (token : Token T) (now id : ℕ) where
  -- The request `r` is there under its number, unsettled and not expired, in a verified masjid, and
  -- the token would accept its transfer.
  pub record Payable (s : State R T) (r : CashOutRequest) : Type 0 where
    pub there : s.cash_out_by_id id ≡ r
    pub is_open : is_verified s.status ≡ true
    pub exists : r.created_at ≢ 0
    pub open_still : r.canceled ≡ false
    pub unpaid : r.executed ≡ false
    pub in_time : now ≤ r.expires_at
    pub transferable : (token.transfer s.this r.to r.amount s.token).0 ≡ true

  abbrev after_approval : String → State R T → CashOutRequest → State R T
  after_approval member s r = record s {
    has_approved = (id, member) ∷ s.has_approved;
    cash_out_by_id = put id (record r { approvals = suc r.approvals }) s.cash_out_by_id;
  }

  abbrev by : String → Message
  by sender = record { sender = sender; timestamp = now }

  approve-accepted :
      (member : String) (s : State R T) (r : CashOutRequest)
      → Payable s r
      → access.has_role board_role member s.roles ≡ true
      → approved id member s.has_approved ≡ false
      → suc r.approvals < 2 ^ 32
      → approve_cash_out access token (by member) s id ≡ ok (after_approval member s r)
  unfolding approve_cash_out
  approve-accepted member s r p role new bound =
      let there = p.there in
      let is_open = p.is_open in
      let exists = p.exists in
      let open_still = p.open_still in
      let unpaid = p.unpaid in let in_time = p.in_time in ground arith

  execute-accepted :
      (admin : String) (s : State R T) (r : CashOutRequest)
      → Payable s r
      → access.has_role admin_role admin s.roles ≡ true
      → s.cash_out_threshold ≤ r.approvals
      → execute_cash_out access token (by admin) s id
        ≡ ok (record s {
          cash_out_by_id = put id (record r { executed = true }) s.cash_out_by_id;
          token = (token.transfer s.this r.to r.amount s.token).1;
        })
  unfolding execute_cash_out Checks.execute_cash_out
  execute-accepted admin s r p role enough =
      let there = p.there in
      let is_open = p.is_open in
      let exists = p.exists in
      let open_still = p.open_still in
      let unpaid = p.unpaid in
      let in_time = p.in_time in let transferable = p.transferable in ground arith

  put-same : (r : CashOutRequest) (by_id : ℕ → CashOutRequest) → put id r by_id id ≡ r
  put-same r by_id = ground arith

  approved-Payable :
      (member : String) (s : State R T) (r : CashOutRequest)
      → Payable s r
      → Payable (after_approval member s r) (record r { approvals = suc r.approvals })
  approved-Payable member s r p = record {
    there = put-same _ s.cash_out_by_id;
    is_open = p.is_open;
    exists = p.exists;
    open_still = p.open_still;
    unpaid = p.unpaid;
    in_time = p.in_time;
    transferable = p.transferable;
  }

  abbrev pub approvals_of : List String → List (Transaction R T)
  approvals_of [] = []
  approvals_of (member ∷ members) = calling (by member) (approving id) ∷ approvals_of members

  -- The request number `id` was paid: the token is as its transfer left it.
  pub record Paid (before after : State R T) (r : CashOutRequest) : Type 0 where
    pub executed : (after.cash_out_by_id id).executed ≡ true
    pub transferred : after.token ≡ (token.transfer before.this r.to r.amount before.token).1

  transact-ok :
      (sender : String) (call : Call) (s : State R T) {s' : State R T}
      → perform access token (by sender) call s ≡ ok s'
      → transact access token (calling (by sender) call) s ≡ s'
  unfolding transact
  transact-ok sender call s h = rw (h) refl

  approve_then_execute :
      (members : List String) (admin : String) (s : State R T) (r : CashOutRequest)
      → Payable s r
      → access.has_role admin_role admin s.roles ≡ true
      → All (λ member. access.has_role board_role member s.roles ≡ true) members
      → HaveYetToApprove id members s.has_approved
      → s.cash_out_threshold ≤ r.approvals + length members
      → r.approvals + length members < 2 ^ 32
      → Paid s
          (transact_all access token
            (approvals_of members ++ calling (by admin) (executing id) ∷ [])
            s)
          r
  unfolding transact_all perform
  approve_then_execute [] admin s r p role board new enough bound =
      subst (λ x. Paid s x r)
        (sym (transact-ok admin (executing id) s (execute-accepted admin s r p role (omega arith))))
        (record {
          executed =
              ap (λ x. x.executed) (put-same (record r { executed = true }) s.cash_out_by_id);
          transferred = refl;
        })
  approve_then_execute (member ∷ members) admin s r p role (board, boards) (new, news) enough
        bound =
      let step =
        transact-ok member (approving id) s
          (approve-accepted member s r p board new (omega arith)) in
      subst
        (λ x.
          Paid s
            (transact_all access token
              (approvals_of members ++ calling (by admin) (executing id) ∷ []) x)
            r)
        (sym step)
        (paid_of_rest (
          approve_then_execute members admin (after_approval member s r)
            (record r { approvals = suc r.approvals }) (approved-Payable member s r p) role boards
            news (omega arith) (omega arith)))
    where
      paid_of_rest :
          {after : State R T}
          → Paid (after_approval member s r) after (record r { approvals = suc r.approvals })
          → Paid s after r
      paid_of_rest q = record { executed = q.executed; transferred = q.transferred }

  -- Let a request exist, be unsettled and not expired, the masjid verified, and the token ready to
  -- transfer its amount to its receiver. Let the members listed have the board's role, have not
  -- approved it and be different, let their number and the approvals that it has reach the
  -- threshold (and stay below 2^32), and let the admin have the admin's role. If they call the
  -- contract at a time at which the request has not expired, each member to approve it and then the
  -- admin to execute it, the request is executed, and the token has made exactly that transfer.
  pub transact_all-Paid :
      (members : List String) (admin : String) (s : State R T)
      → Payable s (s.cash_out_by_id id)
      → access.has_role admin_role admin s.roles ≡ true
      → All (λ member. access.has_role board_role member s.roles ≡ true) members
      → HaveYetToApprove id members s.has_approved
      → s.cash_out_threshold ≤ (s.cash_out_by_id id).approvals + length members
      → (s.cash_out_by_id id).approvals + length members < 2 ^ 32
      → Paid s
          (transact_all access token
            (approvals_of members ++ calling (by admin) (executing id) ∷ [])
            s)
          (s.cash_out_by_id id)
  transact_all-Paid members admin s p role board new enough bound =
      approve_then_execute members admin s (s.cash_out_by_id id) p role board new enough bound
