-- ===== src/Wallet.antt =====
-- How a page sends a transaction: the body of the mutations of front-end/src/app/board/hooks.ts
-- and front-end/src/app/masjid/[id]/hooks.ts. The wallet and the node are a parameter: viem's
-- `simulateContract`, wagmi's `writeContractAsync` and `waitForTransactionReceipt`.
pub mod Laws
use masjid_protocol.Prelude.Int.{ℤ}
use masjid_protocol.Prelude.{ℕ, List, [], ◌∷◌, ◌++◌, String, Result, ok, thrown, if◌then◌else◌}
use masjid_protocol.Prelude.Text.{is_empty}
use masjid_protocol.Abi.{Call}
use masjid_protocol.Contracts.{Addresses}
use masjid_protocol.Contracts.Calls.{
  ProposeCashOutArgs, RegisterMasjidArgs, ApproveArgs, propose_cash_out_call, execute_cash_out_call,
  cancel_cash_out_call, register_call, approve_call, cash_in_call,
}
use masjid_protocol.ContractErrors.{Failure, map_contract_error}

-- The answers of the node and of the wallet; a simulation answers with the request to write.
pub record Wallet : Type 0 where
  pub simulate : Call → Result Failure Call
  pub write : Call → Result Failure String
  pub receipt : String → Result Failure String

-- A computation that may throw and that hands transactions to the wallet: the state is the list of
-- those handed over, the oldest first.
abbrev pub M : Type 0 → Type 0 → Type 0
M E A = List Call → Result E A × List Call

abbrev bind_result :
    {E A B : Type 0} → Result E A × List Call → (A → M E B) → Result E B × List Call
bind_result (ok a, log) f = f a log
bind_result (thrown e, log) f = (thrown e, log)

infixl 5 ◌>>=◌
abbrev pub ◌>>=◌ : {E A B : Type 0} → M E A → (A → M E B) → M E B
◌>>=◌ m f log = bind_result (m log) f

abbrev lift : {E A : Type 0} → Result E A → M E A
lift r log = (r, log)

-- `writeContractAsync(request)`: the request is handed to the wallet, which signs or refuses.
write_contract : Wallet → Call → M Failure String
write_contract w request log = (w.write request, log ++ request ∷ [])

-- `simulateContract` and then `writeContractAsync`.
unfoldable pub submit : Wallet → Call → M Failure String
unfolding write_contract
submit w call = do request ← lift (w.simulate call); write_contract w request

-- The same, and then `waitForTransactionReceipt`; the result is the hash.
submit_and_wait : Wallet → Call → M Failure String
unfolding submit
submit_and_wait w call = do hash ← submit w call; done ← lift (w.receipt hash); lift (ok hash)

abbrev mapped : Result Failure String × List Call → Result String String × List Call
mapped (ok hash, log) = (ok hash, log)
mapped (thrown err, log) = (thrown (map_contract_error err), log)

-- `catch (err) { throw new Error(mapContractError(err)) }`; an `Error` is its message.
unfoldable pub catch_mapped : M Failure String → M String String
catch_mapped m log = mapped (m log)

unfoldable pub propose_cash_out : Wallet → ProposeCashOutArgs → M String String
unfolding submit catch_mapped
propose_cash_out w params = catch_mapped (submit w (propose_cash_out_call params))

unfoldable pub execute_cash_out : Wallet → String → ℕ → M String String
unfolding submit catch_mapped
execute_cash_out w instance_address request_id =
    catch_mapped (submit w (execute_cash_out_call instance_address request_id))

unfoldable pub cancel_cash_out : Wallet → String → ℕ → M String String
unfolding submit catch_mapped
cancel_cash_out w instance_address request_id =
    catch_mapped (submit w (cancel_cash_out_call instance_address request_id))

unfoldable pub register_masjid : Wallet → Addresses → RegisterMasjidArgs → M String String
unfolding submit catch_mapped
register_masjid w a params = catch_mapped (submit w (register_call a params))

unfoldable pub approve_token : Wallet → ApproveArgs → M String String
unfolding submit_and_wait catch_mapped
approve_token w params = catch_mapped (submit_and_wait w (approve_call params))

abbrev pub zero_hash : String
zero_hash = "0x0000000000000000000000000000000000000000000000000000000000000000"

-- The hash of a note: of its trimmed text, or zero. `trim` and `keccak256(toHex(…))` are parameters.
unfoldable pub note_hash_of : (trim keccak : String → String) → String → String
note_hash_of trim keccak note = if is_empty (trim note) then zero_hash else keccak (trim note)

unfoldable pub cash_in :
    Wallet → (trim keccak : String → String) → String → ℤ → String → M String String
unfolding submit_and_wait catch_mapped note_hash_of
cash_in w trim keccak instance_addr amount note =
    catch_mapped
      (submit_and_wait w (cash_in_call instance_addr amount (note_hash_of trim keccak note)))
