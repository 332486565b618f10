-- ===== src/MasjidInstance/Calls/Guards.antt =====
-- A call that succeeds has passed its checks and made its change: one lemma for each function that
-- changes requests or thresholds.
use masjid_protocol.CashOut.Instance.{
  undecodable, duplicate_verifier, invalid_threshold, Revert, ◌>>◌, revert_if, missing_role,
  invalid_status, cash_out_not_found, cash_out_is_canceled, cash_out_already_executed,
  cash_out_expired, cash_out_threshold_not_reached, transfer_failed, zero_address, amount_zero,
  invalid_expiry, cash_out_already_approved, panic,
}
use masjid_protocol.Prelude.{
  ap, ltb, ◌==◌, ℕ, suc, ◌+◌, ◌%◌, ◌^◌, ◌≤◌, ◌≡◌, ◌≢◌, ◌∙◌, refl, sym, true, false, ◌∷◌, Result, ok,
  thrown, arith,
}
use masjid_protocol.CashOut.Instance as Checks
pub use masjid_protocol.Prelude.Reverts.{passed, returned}
use masjid_protocol.Contracts.{CashOutRequest}
use masjid_protocol.MasjidInstance.{
  AccessControl, Token, Message, State, put, approved, then_ok, propose_cash_out, approve_cash_out,
  execute_cash_out, cancel_cash_out,
}
use masjid_protocol.Contracts.Calls.{ProposeCashOutArgs}

pub then_ok-eq-ok :
    {A B : Type 0} (r : Result Revert A) (f : A → B) {x : B}
    → then_ok r f ≡ ok x
    → (a : A) × (r ≡ ok a) × (f a ≡ x)
then_ok-eq-ok (ok a) f h = (a, refl, returned h)
then_ok-eq-ok (thrown e) f h = cc

pub not_zero : (n : ℕ) → (n == 0) ≡ false → n ≢ 0
not_zero n h = ground arith

pub not_below : (m n : ℕ) → ltb m n ≡ false → n ≤ m
not_below m n h = ground arith

-- The changes that the functions make to the requests.
abbrev pub made_of : Message → ℕ → ProposeCashOutArgs → CashOutRequest
made_of msg nonce p = record {
  to = p.to;
  amount = p.amount;
  note_hash = p.note_hash;
  proposer = msg.sender;
  created_at = msg.timestamp % 2 ^ 64;
  expires_at = (msg.timestamp + p.ttl) % 2 ^ 64;
  approvals = 0;
  executed = false;
  canceled = false;
}

module _ {R T : Type 0} (access : AccessControl R) (token : Token T) (msg : Message)
    (s : State R T) where
  pub propose-eq-ok :
      (p : ProposeCashOutArgs) {s' : State R T}
      → propose_cash_out access token msg s p ≡ ok s'
      → s' ≡ record s {
        cash_out_nonce = suc s.cash_out_nonce;
        cash_out_by_id =
            put (suc s.cash_out_nonce) (made_of msg s.cash_out_nonce p) s.cash_out_by_id;
      }
  unfolding propose_cash_out Checks.propose_cash_out
  propose-eq-ok p h =
      let (made, h1, e) = then_ok-eq-ok _ _ h in
      let (c0, h0) = passed _ undecodable _ h1 in
      let (c1, h2) = passed _ missing_role _ h0 in
      let (c2, h3) = passed _ invalid_status _ h2 in
      let (c3, h4) = passed _ zero_address _ h3 in
      let (c4, h5) = passed _ amount_zero _ h4 in
      let (c5, h6) = passed _ invalid_expiry _ h5 in let m = returned h6 in sym e ∙ rw (sym m) refl

  -- What an approval that succeeds has checked of the request.
  pub record Approvable (id : ℕ) : Type 0 where
    pub exists : (s.cash_out_by_id id).created_at ≢ 0
    pub open_still : (s.cash_out_by_id id).canceled ≡ false
    pub unpaid : (s.cash_out_by_id id).executed ≡ false
    pub unseen : approved id msg.sender s.has_approved ≡ false

  pub approve-eq-ok :
      (id : ℕ) {s' : State R T}
      → approve_cash_out access token msg s id ≡ ok s'
      → Approvable id
        × (s' ≡ record s {
          has_approved = (id, msg.sender) ∷ s.has_approved;
          cash_out_by_id =
              put id
                (record (s.cash_out_by_id id) { approvals = suc (s.cash_out_by_id id).approvals })
                s.cash_out_by_id;
        })
  unfolding approve_cash_out
  approve-eq-ok id h =
      let (c1, h1) = passed _ missing_role _ h in
      let (c2, h2) = passed _ invalid_status _ h1 in
      let (c3, h3) = passed _ cash_out_not_found _ h2 in
      let (c4, h4) = passed _ cash_out_is_canceled _ h3 in
      let (c5, h5) = passed _ cash_out_already_executed _ h4 in
      let (c6, h6) = passed _ cash_out_expired _ h5 in
      let (c7, h7) = passed _ cash_out_already_approved _ h6 in
      let (c8, h8) = passed _ panic _ h7 in
      (
        record { exists = not_zero _ c3; open_still = c4; unpaid = c5; unseen = c7 },
        sym (returned h8),
      )

  -- What an execution, or a cancellation, that succeeds has checked of the request.
  pub record Executable (id : ℕ) : Type 0 where
    pub exists : (s.cash_out_by_id id).created_at ≢ 0
    pub open_still : (s.cash_out_by_id id).canceled ≡ false
    pub unpaid : (s.cash_out_by_id id).executed ≡ false
    pub enough : s.cash_out_threshold ≤ (s.cash_out_by_id id).approvals

  pub execute-eq-ok :
      (id : ℕ) {s' : State R T}
      → execute_cash_out access token msg s id ≡ ok s'
      → (t : T) × Executable id
        × (s' ≡ record s {
          cash_out_by_id =
              put id (record (s.cash_out_by_id id) { executed = true }) s.cash_out_by_id;
          token = t;
        })
  unfolding execute_cash_out Checks.execute_cash_out
  execute-eq-ok id h =
      let (request, h0, e) = then_ok-eq-ok _ _ h in
      let (c1, h1) = passed _ missing_role _ h0 in
      let (c2, h2) = passed _ invalid_status _ h1 in
      let (c3, h3) = passed _ cash_out_not_found _ h2 in
      let (c4, h4) = passed _ cash_out_is_canceled _ h3 in
      let (c5, h5) = passed _ cash_out_already_executed _ h4 in
      let (c6, h6) = passed _ cash_out_expired _ h5 in
      let (c7, h7) = passed _ cash_out_threshold_not_reached _ h6 in
      let (c8, h8) = passed _ transfer_failed _ h7 in
      let t =
        (token.transfer s.this (s.cash_out_by_id id).to (s.cash_out_by_id id).amount s.token).1 in
      (
        t,
        record { exists = not_zero _ c3; open_still = c4; unpaid = c5; enough = not_below _ _ c7 },
        sym e
            ∙ ap (λ r. record s { cash_out_by_id = put id r s.cash_out_by_id; token = t })
                (sym (returned h8)),
      )

  pub cancel-eq-ok :
      (id : ℕ) {s' : State R T}
      → cancel_cash_out access token msg s id ≡ ok s'
      → ((s.cash_out_by_id id).created_at ≢ 0)
        × ((s.cash_out_by_id id).executed ≡ false)
        × ((s.cash_out_by_id id).canceled ≡ false)
        × (s' ≡ record s {
          cash_out_by_id =
              put id (record (s.cash_out_by_id id) { canceled = true }) s.cash_out_by_id;
        })
  unfolding cancel_cash_out Checks.cancel_cash_out
  cancel-eq-ok id h =
      let (request, h0, e) = then_ok-eq-ok _ _ h in
      let (c1, h1) = passed _ missing_role _ h0 in
      let (c2, h2) = passed _ cash_out_not_found _ h1 in
      let (c3, h3) = passed _ cash_out_already_executed _ h2 in
      let (c4, h4) = passed _ cash_out_is_canceled _ h3 in
      (
        not_zero _ c2,
        c3,
        c4,
        sym e
            ∙ ap (λ r. record s { cash_out_by_id = put id r s.cash_out_by_id }) (sym (returned h4)),
      )
