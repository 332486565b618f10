-- ===== src/MasjidInstance/Calls/Sound.antt =====
-- The state of a masjid's contract is sound at all times: approvals are counted right, a request
-- is settled at most once and never paid without an approval, and the threshold can be reached.
pub mod Kept
pub mod Refused
pub mod Settled
use masjid_protocol.MasjidInstance.{State, Message, put, approved}
use masjid_protocol.MasjidInstance.Calls.Guards.{made_of}
use masjid_protocol.Contracts.{CashOutRequest}
use masjid_protocol.Contracts.Calls.{ProposeCashOutArgs}
use masjid_protocol.Prelude.{
  ℕ, suc, ◌<◌, ◌≤◌, ◌≡◌, ◌≢◌, ◌∙◌, sym, ap, subst, inl, inr, Bool, true, false, List, [], ◌∷◌,
  String, ◌==◌, if◌then◌else◌, Bool-cases, arith,
}

abbrev pub count : ℕ → List (ℕ × String) → ℕ
count id [] = 0
count id ((i, account) ∷ pairs) = let rest = count id pairs in if i == id then suc rest else rest

-- No pair is there twice.
abbrev pub AreDistinct : List (ℕ × String) → Type 0
AreDistinct [] = Unit
AreDistinct ((i, account) ∷ pairs) = (approved i account pairs ≡ false) × AreDistinct pairs

pub record RequestsSound (nonce : ℕ) (by_id : ℕ → CashOutRequest) (pairs : List (ℕ × String))
    : Type 0 where
  pub distinct : AreDistinct pairs
  pub counted : (id : ℕ) → (by_id id).approvals ≡ count id pairs
  pub settled_once : (id : ℕ) → ¬ (((by_id id).executed ≡ true) × ((by_id id).canceled ≡ true))
  pub backed : (id : ℕ) → (by_id id).executed ≡ true → (by_id id).approvals ≢ 0
  pub unmade : (id : ℕ) → nonce < id → ((by_id id).created_at ≡ 0) × (count id pairs ≡ 0)

pub record BoardSound (threshold members : ℕ) : Type 0 where
  pub positive : threshold ≢ 0
  pub reachable : threshold ≤ members

abbrev pub Sound : {R T : Type 0} → State R T → Type 0
Sound s =
    RequestsSound s.cash_out_nonce s.cash_out_by_id s.has_approved
    × BoardSound s.cash_out_threshold s.board_member_count

pub put-elim :
    (P : CashOutRequest → Type 0) (id : ℕ) (r : CashOutRequest) (by_id : ℕ → CashOutRequest) (i : ℕ)
    → (i ≡ id → P r)
    → (i ≢ id → P (by_id i))
    → P (put id r by_id i)
put-elim P id r by_id i new old = elim (Bool-cases (i == id)) [
  | inl yes' ↦ rw (yes') (new (ground arith))
  | inr no' ↦ rw (no') (old (ground arith))
]

count-same :
    (id i : ℕ) (account : String) (pairs : List (ℕ × String))
    → i ≡ id
    → count i ((id, account) ∷ pairs) ≡ suc (count i pairs)
count-same id i account pairs e = ground arith

count-other :
    (id i : ℕ) (account : String) (pairs : List (ℕ × String))
    → i ≢ id
    → count i ((id, account) ∷ pairs) ≡ count i pairs
count-other id i account pairs e = ground arith

module _ {nonce : ℕ} {by_id : ℕ → CashOutRequest} {pairs : List (ℕ × String)}
    (h : RequestsSound nonce by_id pairs) where
  proposed-Sound :
      (msg : Message) (p : ProposeCashOutArgs)
      → RequestsSound (suc nonce) (put (suc nonce) (made_of msg nonce p) by_id) pairs
  proposed-Sound msg p = record {
    distinct = h.distinct;
    counted = λ i.
        put-elim (λ r. r.approvals ≡ count i pairs) (suc nonce) _ by_id i
          (λ e. sym (h.unmade i (ground arith)).1) (λ ne. h.counted i);
    settled_once = λ i.
        put-elim (λ r. ¬ ((r.executed ≡ true) × (r.canceled ≡ true))) (suc nonce) _ by_id i
          (λ e both. absurd (ground arith)) (λ ne. h.settled_once i);
    backed = λ i.
        put-elim (λ r. r.executed ≡ true → r.approvals ≢ 0) (suc nonce) _ by_id i
          (λ e x. absurd (ground arith)) (λ ne. h.backed i);
    unmade = λ i above.
        put-elim (λ r. (r.created_at ≡ 0) × (count i pairs ≡ 0)) (suc nonce) _ by_id i
          (λ e. absurd (ground arith)) (λ ne. h.unmade i (ground arith));
  }

  approved-Sound :
      (id : ℕ) (account : String)
      → approved id account pairs ≡ false
      → (by_id id).created_at ≢ 0
      → (by_id id).executed ≡ false
      → RequestsSound nonce
          (put id (record (by_id id) { approvals = suc (by_id id).approvals }) by_id)
          ((id, account) ∷ pairs)
  approved-Sound id account new exists unpaid = record {
    distinct = (new, h.distinct);
    counted = λ i.
        put-elim (λ r. r.approvals ≡ count i ((id, account) ∷ pairs)) id _ by_id i
          (λ e.
            ap suc (subst (λ j. (by_id j).approvals ≡ count i pairs) e (h.counted i))
            ∙ sym (count-same id i account pairs e))
          (λ ne. h.counted i ∙ sym (count-other id i account pairs ne));
    settled_once = λ i.
        put-elim (λ r. ¬ ((r.executed ≡ true) × (r.canceled ≡ true))) id _ by_id i
          (λ e. h.settled_once id) (λ ne. h.settled_once i);
    backed = λ i.
        put-elim (λ r. r.executed ≡ true → r.approvals ≢ 0) id _ by_id i (λ e x. ground arith)
          (λ ne. h.backed i);
    unmade = λ i above.
        put-elim (λ r. (r.created_at ≡ 0) × (count i ((id, account) ∷ pairs) ≡ 0)) id _ by_id i
          (λ e. absurd (exists (subst (λ j. (by_id j).created_at ≡ 0) e (h.unmade i above).0)))
          (λ ne. ((h.unmade i above).0, count-other id i account pairs ne ∙ (h.unmade i above).1));
  }

  -- A request is settled: its flags change, and nothing else of it.
  settled-Sound :
      (id : ℕ) (executed canceled : Bool)
      → ¬ ((executed ≡ true) × (canceled ≡ true))
      → (executed ≡ true → (by_id id).approvals ≢ 0)
      → RequestsSound nonce
          (put id (record (by_id id) { executed = executed; canceled = canceled }) by_id)
          pairs
  settled-Sound id executed canceled once backed = record {
    distinct = h.distinct;
    counted = λ i.
        put-elim (λ r. r.approvals ≡ count i pairs) id _ by_id i
          (λ e. subst (λ j. (by_id j).approvals ≡ count i pairs) e (h.counted i))
          (λ ne. h.counted i);
    settled_once = λ i.
        put-elim (λ r. ¬ ((r.executed ≡ true) × (r.canceled ≡ true))) id _ by_id i (λ e. once)
          (λ ne. h.settled_once i);
    backed = λ i.
        put-elim (λ r. r.executed ≡ true → r.approvals ≢ 0) id _ by_id i (λ e. backed)
          (λ ne. h.backed i);
    unmade = λ i above.
        put-elim (λ r. (r.created_at ≡ 0) × (count i pairs ≡ 0)) id _ by_id i
          (λ e. subst (λ j. ((by_id j).created_at ≡ 0) × (count i pairs ≡ 0)) e (h.unmade i above))
          (λ ne. h.unmade i above);
  }
