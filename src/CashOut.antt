-- ===== src/CashOut.antt =====
-- Cash-out requests on the board's dashboard: `useCashOutRequests` of front-end/src/app/board/hooks.ts,
-- `cashOutStatusBadge` and `CashOutActions` of front-end/src/app/board/ui.tsx.
-- Amounts, times and counts are natural numbers; `Number(…)` of one is exact below 2^53.
pub mod Instance
pub mod Decoding
pub mod Laws
use masjid_protocol.Prelude.{
  ℕ, zero, suc, ◌+◌, ◌/◌, Bool, true, false, not, ◌&&◌, ◌||◌, List, [], ◌∷◌, Option, none, some,
  String, length, get_elem?, ltb, leb, or_else, if◌then◌else◌,
}
use masjid_protocol.Abi.{Value, address_value, bytes32_value, uint_value, bool_value}
use masjid_protocol.Contracts.{CashOutRequest}

-- The numbers from `i` on, `n` of them.
abbrev pub count_from : ℕ → ℕ → List ℕ
count_from i zero = []
count_from i (suc n) = i ∷ count_from (suc i) n

-- `requestIds`: from 1 to the contract's nonce, once that is known.
unfoldable pub request_ids : Option ℕ → List ℕ
request_ids none = []
request_ids (some cash_out_nonce) = count_from 1 cash_out_nonce

-- The components of `cashOutById`'s answer by their position. An answer of another shape, which
-- the decoder of the ABI does not give, is no request.
unfoldable pub decode_request : List Value → Option CashOutRequest
decode_request
      (address_value r0
        ∷ uint_value r1
        ∷ bytes32_value r2
        ∷ address_value r3
        ∷ uint_value r4
        ∷ uint_value r5
        ∷ uint_value r6
        ∷ bool_value r7
        ∷ bool_value r8
        ∷ []) =
    some (record {
      to = r0;
      amount = r1;
      note_hash = r2;
      proposer = r3;
      created_at = r4;
      expires_at = r5;
      approvals = r6;
      executed = r7;
      canceled = r8;
    })
decode_request _ = none

-- A row of the table; the number is undefined where there are more answers than requests.
pub record Row : Type 0 where
  pub request_id : Option ℕ
  pub req : CashOutRequest

abbrev decoded : Option (List Value) → Option CashOutRequest
decoded none = none
decoded (some values) = decode_request values

-- The loop over the answers, from the index `idx` on; an answer that failed is passed over.
unfoldable pub collect_rows : List ℕ → ℕ → List (Option (List Value)) → List Row
unfolding decode_request
collect_rows ids idx [] = []
collect_rows ids idx (answer ∷ answers) =
    let rest = collect_rows ids (suc idx) answers in
    elim (decoded answer) [
      | none ↦ rest
      | some req ↦ record { request_id = get_elem? ids idx; req = req } ∷ rest
    ]

-- `useCashOutRequests`, with the answers of the node, if they are there.
unfoldable pub cash_out_requests :
    Option ℕ → Option (List (Option (List Value))) → List ℕ × List Row
unfolding collect_rows request_ids
cash_out_requests cash_out_nonce none = (request_ids cash_out_nonce, [])
cash_out_requests cash_out_nonce (some answers) =
    (request_ids cash_out_nonce, collect_rows (request_ids cash_out_nonce) 0 answers)

-- `req.expiresAt < BigInt(Math.floor(Date.now() / 1000))`; `now` is in milliseconds.
abbrev pub is_expired : CashOutRequest → ℕ → Bool
is_expired req now = ltb req.expires_at (now / 1000)

pub data StatusBadge : Type 0 where
  dibatalkan executed siap_eksekusi expired menunggu_approval : StatusBadge

unfoldable pub cash_out_status_badge : CashOutRequest → (threshold now : ℕ) → StatusBadge
cash_out_status_badge req threshold now =
    if req.canceled
    then dibatalkan
    else if req.executed
    then executed
    else if leb threshold req.approvals
    then siap_eksekusi
    else if is_expired req now
    then expired
    else menunggu_approval

-- The state of a mutation and of its receipt, as react-query and wagmi report it.
pub record Progress : Type 0 where
  pub is_pending : Bool
  pub is_confirming : Bool

abbrev pub is_busy : Progress → Bool
is_busy p = p.is_pending || p.is_confirming

pub record Button : Type 0 where
  pub disabled : Bool
  pub spinning : Bool

pub record Actions : Type 0 where
  pub execute : Option Button
  pub cancel : Button

-- `CashOutActions`: nothing for a request that is settled.
unfoldable pub cash_out_actions :
    CashOutRequest → (threshold now : ℕ) → (execute cancel : Progress) → Option Actions
cash_out_actions req threshold now execute cancel =
    if req.executed || req.canceled
    then none
    else some (record {
      execute =
          if leb threshold req.approvals && not (is_expired req now)
          then some
              (record { disabled = is_busy execute || is_busy cancel; spinning = is_busy execute })
          else none;
      cancel = record { disabled = is_busy execute || is_busy cancel; spinning = is_busy cancel };
    })
