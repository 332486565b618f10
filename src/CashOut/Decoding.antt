-- ===== src/CashOut/Decoding.antt =====
-- The table of requests shows the contract's answers: the components of an answer are read in the
-- order of the ABI, and each row has the number of the request that it was asked for.
use masjid_protocol.Prelude.{
  ap₂, map, inr, inl, ℕ, zero, suc, ◌+◌, ◌<◌, ◌≡◌, refl, List, [], ◌∷◌, Option, none, some, String,
  All, arith, length, get_elem?, Option-cases, if◌then◌else◌, ap, ◌∙◌,
}
use text.Mathlib.Text.{◌==◌ as str_eq}
use masjid_protocol.Abi.{
  Entry, function, Params, nil, param, Value, address_value, bytes32_value, uint_value, bool_value,
}
use masjid_protocol.Abi.Instance.{masjid_instance_abi}
use masjid_protocol.Contracts.{CashOutRequest}
use masjid_protocol.CashOut.{
  Row, count_from, request_ids, decode_request, collect_rows, cash_out_requests,
}

-- The outputs of the first function of that name.
abbrev outputs_of : String → List Entry → Params
outputs_of name [] = nil
outputs_of name (function n inputs outputs m ∷ es) =
    if str_eq n name then outputs else outputs_of name es
outputs_of name (_ ∷ es) = outputs_of name es

-- The component of a request that the ABI calls by that name.
abbrev component : CashOutRequest → String → Value
component req name =
    if str_eq name "to"
    then address_value req.to
    else if str_eq name "amount"
    then uint_value req.amount
    else if str_eq name "noteHash"
    then bytes32_value req.note_hash
    else if str_eq name "proposer"
    then address_value req.proposer
    else if str_eq name "createdAt"
    then uint_value req.created_at
    else if str_eq name "expiresAt"
    then uint_value req.expires_at
    else if str_eq name "approvals"
    then uint_value req.approvals
    else if str_eq name "executed"
    then bool_value req.executed
    else bool_value req.canceled

-- A request as the contract answers it: the components in the order of the outputs.
abbrev answer_of : Params → CashOutRequest → List Value
answer_of nil req = []
answer_of (param name t ps) req = component req name ∷ answer_of ps req

abbrev pub contract_answer : CashOutRequest → List Value
contract_answer req = answer_of (outputs_of "cashOutById" masjid_instance_abi) req

-- What the page reads from the contract's answer, whose components stand in the order of the ABI's
-- outputs, is the request that the contract holds.
decode-contract_answer : (req : CashOutRequest) → decode_request (contract_answer req) ≡ some req
unfolding decode_request
decode-contract_answer req = refl

get_elem?-count_from : (i n j : ℕ) → j < n → get_elem? (count_from i n) j ≡ some (i + j)
get_elem?-count_from i zero j h = elim h [ ]
get_elem?-count_from i (suc n) zero h = ap some (omega arith)
get_elem?-count_from i (suc n) (suc j) h =
    get_elem?-count_from (suc i) n j (omega arith) ∙ ap some (omega arith)

-- The row shows the answer to the request of its number.
abbrev pub Answers : (n : ℕ) → List (Option (List Value)) → Row → Type 0
Answers n answers row =
    (k : ℕ) × (row.request_id ≡ some (suc k))
    × (k < n)
    × ((values : List Value) × (get_elem? answers k ≡ some (some values))
        × (decode_request values ≡ some row.req))

module _ (n : ℕ) (answers : List (Option (List Value))) where
  collect_rows-Answers :
      (idx : ℕ) (rest : List (Option (List Value)))
      → idx + length rest ≡ n
      → ((j : ℕ) → get_elem? answers (idx + j) ≡ get_elem? rest j)
      → All (Answers n answers) (collect_rows (count_from 1 n) idx rest)
  unfolding collect_rows
  collect_rows-Answers idx [] h at = tt
  collect_rows-Answers idx (none ∷ rest) h at =
      collect_rows-Answers (suc idx) rest (omega arith)
        (λ j. ap (get_elem? answers) (omega arith) ∙ at (suc j))
  collect_rows-Answers idx (some values ∷ rest) h at =
      let later : All (Answers n answers) (collect_rows (count_from 1 n) (suc idx) rest) =
        collect_rows-Answers (suc idx) rest (omega arith)
          (λ j. ap (get_elem? answers) (omega arith) ∙ at (suc j)) in
      elim (Option-cases (decode_request values)) [
        | inl bad ↦ rw (bad, collect_rows) later
        | inr (req, good) ↦
            rw (good, collect_rows)
              (
                (
                  idx,
                  get_elem?-count_from 1 n idx (omega arith) ∙ ap some (omega arith),
                  omega arith,
                  (values, ap (get_elem? answers) (omega arith) ∙ at 0, good),
                ),
                later,
              )
      ]

-- If the contract's nonce is `n` and there is an answer for each of the requests 1 to `n`, every
-- row of the table has the number of one of them and shows the answer to that request.
rows-Answers :
    (n : ℕ) (answers : List (Option (List Value)))
    → length answers ≡ n
    → All (Answers n answers) (cash_out_requests (some n) (some answers)).1
unfolding cash_out_requests request_ids
rows-Answers n answers h =
    collect_rows-Answers n answers 0 answers (omega arith)
      (λ j. ap (get_elem? answers) (omega arith))

-- The contract's answers to the requests of these numbers, where it holds `held id` under `id`.
abbrev pub answers_to : (ℕ → CashOutRequest) → List ℕ → List (Option (List Value))
answers_to held ids = map (λ id. some (contract_answer (held id))) ids

abbrev pub row_of : (ℕ → CashOutRequest) → ℕ → Row
row_of held id = record { request_id = some id; req = held id }

collect_rows-answers :
    (held : ℕ → CashOutRequest) (n idx k : ℕ)
    → idx + k ≡ n
    → collect_rows (count_from 1 n) idx (answers_to held (count_from (suc idx) k))
      ≡ map (row_of held) (count_from (suc idx) k)
unfolding collect_rows decode_request
collect_rows-answers held n idx zero h = refl
collect_rows-answers held n idx (suc k) h =
    ap₂ (λ i rows. record { request_id = i; req = held (suc idx) } ∷ rows)
      (get_elem?-count_from 1 n idx (omega arith) ∙ ap some (omega arith))
      (collect_rows-answers held n (suc idx) k (omega arith))

-- If the contract's nonce is `n` and it answers each of the requests that the page then asks for
-- with the components in the order of the ABI's outputs, the table has exactly the requests 1 to
-- `n`, in that order, each with its number and as the contract holds it.
pub cash_out_requests-answers :
    (held : ℕ → CashOutRequest) (n : ℕ)
    → (cash_out_requests (some n) (some (answers_to held (request_ids (some n))))).1
      ≡ map (row_of held) (count_from 1 n)
unfolding cash_out_requests request_ids
cash_out_requests-answers held n = collect_rows-answers held n 0 n (omega arith)
