-- ===== src/Donate/Negative.antt =====
-- A negative amount in the donation form, and what becomes of it in the mutation `useCashIn`.
use masjid_protocol.Wallet.Laws.{cash_in-thrown}
use masjid_protocol.Prelude.{
  ℕ, ◌≡◌, refl, true, false, List, ◌∷◌, Option, String, thrown, arith, is_some,
}
use masjid_protocol.Prelude.Int.{ℤ, negsuc}
use masjid_protocol.Abi.{Call, nonpayable, is_accepted}
use masjid_protocol.ContractErrors.{Failure, map_contract_error}
use masjid_protocol.Contracts.Calls.{cash_in_call}
use masjid_protocol.Wallet.{Wallet, note_hash_of, cash_in}
use masjid_protocol.Donate.{
  idle, cash_in_flight, Form, Env, submit, parse_donate_amount, handle, can_happen,
}

-- The encoder, which the simulation runs first, throws for a call that does not fit its ABI.
abbrev pub Encodes : Wallet → Type 0
Encodes w =
    (call : Call)
    → is_accepted nonpayable call ≡ false
    → (e : Failure) × (w.simulate call ≡ thrown e)

unencoded :
    (instance_addr note_hash : String) (n : ℕ)
    → is_accepted nonpayable (cash_in_call instance_addr (negsuc n) note_hash) ≡ false
unfolding cash_in_call
unencoded instance_addr note_hash n = refl

-- The form lets a negative amount pass: with a wallet connected the button of an idle form is
-- enabled, and pressing it hands a donation of that amount to the mutation at once, without an
-- approval. The mutation throws, where the encoder throws for calls that do not fit their ABI, and
-- no transaction reaches the wallet.
pub negative-refused :
    (parse_units : String → ℕ → Option ℤ) (w : Wallet) (trim keccak : String → String)
    (instance_addr : String) (env : Env) (f : Form) (n : ℕ)
    → Encodes w
    → f.step ≡ idle
    → is_some env.user_addr ≡ true
    → parse_donate_amount parse_units f.amount env.dec ≡ negsuc n
    → (can_happen parse_units env f submit ≡ true)
      × ((handle parse_units env f submit).flights ≡ cash_in_flight (negsuc n) f.note ∷ f.flights)
      × ((message : String) × ((log : List Call)
            → cash_in w trim keccak instance_addr (negsuc n) f.note log ≡ (thrown message, log)))
unfolding can_happen handle
negative-refused parse_units w trim keccak instance_addr env f n encodes i u p =
    let note_hash = note_hash_of trim keccak f.note in
    let (e, simulated) =
      encodes (cash_in_call instance_addr (negsuc n) note_hash)
        (unencoded instance_addr note_hash n) in
    (
      ground arith,
      ground arith,
      (
        map_contract_error e,
        cash_in-thrown w trim keccak instance_addr f.note (negsuc n) e simulated,
      ),
    )
