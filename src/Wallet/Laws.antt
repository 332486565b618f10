-- ===== src/Wallet/Laws.antt =====
-- What a page has sent when a mutation ends.
use masjid_protocol.Prelude.Int.{ℤ}
use masjid_protocol.Prelude.{
  ℕ, List, [], ◌∷◌, ◌++◌, String, Result, ok, thrown, ◌≡◌, refl, ◌⊎◌, inl, inr, arith,
}
use masjid_protocol.Abi.{Call}
use masjid_protocol.Contracts.{Addresses}
use masjid_protocol.Contracts.Calls.{
  ProposeCashOutArgs, RegisterMasjidArgs, ApproveArgs, propose_cash_out_call, execute_cash_out_call,
  cancel_cash_out_call, register_call, approve_call, cash_in_call,
}
use masjid_protocol.ContractErrors.{Failure, map_contract_error}
use masjid_protocol.Wallet.{
  Wallet, submit, submit_and_wait, catch_mapped, propose_cash_out, execute_cash_out,
  cancel_cash_out, register_masjid, approve_token, cash_in, note_hash_of,
}

-- What a mutation that does not wait leaves: nothing is sent if the simulation fails, and else the
-- simulated request alone, once; the result is the hash, or the message of what was thrown.
abbrev pub Submitted : Wallet → Call → List Call → Result String String × List Call → Type 0
Submitted w call log (result, later) =
    ((e : Failure) × (w.simulate call ≡ thrown e)
      × (later ≡ log)
      × (result ≡ thrown (map_contract_error e)))
    ⊎ ((request : Call) × (w.simulate call ≡ ok request)
        × (later ≡ log ++ request ∷ [])
        × (((hash : String) × (w.write request ≡ ok hash) × (result ≡ ok hash))
            ⊎ ((e : Failure) × (w.write request ≡ thrown e)
                × (result ≡ thrown (map_contract_error e)))))

pub Result-cases :
    {E A : Type 0} (r : Result E A) → ((a : A) × (r ≡ ok a)) ⊎ ((e : E) × (r ≡ thrown e))
Result-cases (ok a) = inl (a, refl)
Result-cases (thrown e) = inr (e, refl)

pub submit-Submitted :
    (w : Wallet) (call : Call) (log : List Call)
    → Submitted w call log (catch_mapped (submit w call) log)
unfolding submit catch_mapped
submit-Submitted w call log = elim (Result-cases (w.simulate call)) [
  | inr (e, failed) ↦ inl (e, failed, ground arith, ground arith)
  | inl (request, simulated) ↦ elim (Result-cases (w.write request)) [
    | inr (e, refused) ↦ inr (request, simulated, ground arith, inr (e, refused, ground arith))
    | inl (hash, written) ↦
        inr (request, simulated, ground arith, inl (hash, written, ground arith))
  ]
]

-- Proposing, executing and cancelling a cash-out and registering a masjid each send the simulated
-- request once if the simulation of their call succeeds, and send nothing if it fails; they end
-- with the transaction's hash, or with the message of what the simulation or the wallet threw.
pub mutations-Submitted :
    (w : Wallet) (a : Addresses) (p : ProposeCashOutArgs) (g : RegisterMasjidArgs)
    (instance_address : String) (request_id : ℕ) (log : List Call)
    → Submitted w (propose_cash_out_call p) log (propose_cash_out w p log)
      × Submitted w
          (execute_cash_out_call instance_address request_id)
          log
          (execute_cash_out w instance_address request_id log)
      × Submitted w
          (cancel_cash_out_call instance_address request_id)
          log
          (cancel_cash_out w instance_address request_id log)
      × Submitted w (register_call a g) log (register_masjid w a g log)
unfolding propose_cash_out execute_cash_out cancel_cash_out register_masjid
mutations-Submitted w a p g instance_address request_id log = (
  submit-Submitted w (propose_cash_out_call p) log,
  submit-Submitted w (execute_cash_out_call instance_address request_id) log,
  submit-Submitted w (cancel_cash_out_call instance_address request_id) log,
  submit-Submitted w (register_call a g) log,
)

-- A mutation that waits has succeeded only when its request was simulated, written and mined.
abbrev pub Mined : Wallet → Call → String → Type 0
Mined w call hash =
    (request : Call) × (mined : String) × (w.simulate call ≡ ok request)
    × (w.write request ≡ ok hash)
    × (w.receipt hash ≡ ok mined)

submit_and_wait-Mined :
    (w : Wallet) (call : Call) (log : List Call) {hash : String}
    → (catch_mapped (submit_and_wait w call) log).0 ≡ ok hash
    → Mined w call hash
unfolding submit_and_wait catch_mapped
submit_and_wait-Mined w call log {hash} h = elim (Result-cases (w.simulate call)) [
  | inr (e, failed) ↦ absurd (ground arith)
  | inl (request, simulated) ↦ elim (Result-cases (w.write request)) [
    | inr (e, refused) ↦ absurd (ground arith)
    | inl (sent, written) ↦ elim (Result-cases (w.receipt sent)) [
      | inr (e, lost) ↦ absurd (ground arith)
      | inl (mined, found) ↦ (request, mined, simulated, ground arith, ground arith)
    ]
  ]
]

-- An approval of the token that ends with a hash was simulated, written and mined under that hash.
approve_token-Mined :
    (w : Wallet) (q : ApproveArgs) (log : List Call) {hash : String}
    → (approve_token w q log).0 ≡ ok hash
    → Mined w (approve_call q) hash
unfolding approve_token
approve_token-Mined w q log h = submit_and_wait-Mined w (approve_call q) log h

-- A donation that ends with a hash was simulated, written and mined under that hash, and the call
-- passes the amount and the hash of its note.
cash_in-Mined :
    (w : Wallet) (trim keccak : String → String) (instance_addr note : String) (amount : ℤ)
    (log : List Call) {hash : String}
    → (cash_in w trim keccak instance_addr amount note log).0 ≡ ok hash
    → Mined w (cash_in_call instance_addr amount (note_hash_of trim keccak note)) hash
unfolding cash_in
cash_in-Mined w trim keccak instance_addr note amount log h =
    submit_and_wait-Mined w (cash_in_call instance_addr amount (note_hash_of trim keccak note)) log
      h

-- A donation whose simulation throws hands nothing to the wallet.
pub cash_in-thrown :
    (w : Wallet) (trim keccak : String → String) (instance_addr note : String) (amount : ℤ)
    (e : Failure)
    → w.simulate (cash_in_call instance_addr amount (note_hash_of trim keccak note)) ≡ thrown e
    → (log : List Call)
    → cash_in w trim keccak instance_addr amount note log ≡ (thrown (map_contract_error e), log)
unfolding cash_in submit_and_wait catch_mapped
cash_in-thrown w trim keccak instance_addr note amount e h log = rw h refl
