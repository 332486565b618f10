-- ===== src/Verifier/Laws.antt =====
-- What a vote sends and shows.
use text.Mathlib.Text.{starts_with}
use text.Mathlib.TextEquality.{eq_iff}
use masjid_protocol.Prelude.{
  ◌≡◌, refl, sym, Bool, true, false, List, Option, String, Result, arith, inl, inr,
}
use masjid_protocol.Abi.{Call}
use masjid_protocol.Contracts.{Addresses}
use masjid_protocol.Contracts.Calls.{attest_call}
use masjid_protocol.Wallet.{Wallet, submit, catch_mapped}
use masjid_protocol.Wallet.Laws.{Submitted, Result-cases, submit-Submitted}
use masjid_protocol.CashOut.{Progress}
use masjid_protocol.Verifier.{
  QueueItem, Panel, Manual, error_of, attest, attest_button, manual_attest,
}

-- A handler that sends the simulated request of `call` at most once, and shows the message of what
-- the simulation or the wallet threw, or none.
abbrev pub Attempted : Wallet → Call → List Call → Option String → List Call → Type 0
Attempted w call log error later =
    (result : Result String String) × Submitted w call log (result, later)
    × (error ≡ error_of result)

-- A vote in the queue sends the simulated vote at most once, and shows what was thrown, if anything
-- was; a vote by a masjid's number does so if the number starts with `0x`, and else it sends nothing
-- and changes nothing.
votes-Attempted :
    (w : Wallet) (a : Addresses) (masjid_id : String) (support : Bool) (p : Panel) (f : Manual)
    (log : List Call)
    → (let (p', later) = attest w a masjid_id support p log in
        Attempted w (attest_call a masjid_id support) log p'.error later)
      × (starts_with f.masjid_id "0x" ≡ true
          → let (f', later) = manual_attest w a support f log in
            Attempted w (attest_call a f.masjid_id support) log f'.error later)
      × (starts_with f.masjid_id "0x" ≡ false → manual_attest w a support f log ≡ (f, log))
unfolding attest manual_attest
votes-Attempted w a masjid_id support p f log = (
  (_, submit-Submitted w (attest_call a masjid_id support) log, refl),
  (λ s. rw s (_, submit-Submitted w (attest_call a f.masjid_id support) log, refl)),
  λ s. rw s refl,
)

-- After a vote only the buttons of the masjid that was voted for can spin.
attest-spinning :
    (w : Wallet) (a : Addresses) (masjid_id : String) (support : Bool) (p : Panel) (log : List Call)
    (write : Progress) (item : QueueItem)
    → (attest_button (attest w a masjid_id support p log).0 write item).spinning ≡ true
    → item.masjid_id ≡ masjid_id
unfolding attest attest_button
attest-spinning w a masjid_id support p log write item h =
    elim (Result-cases (catch_mapped (submit w (attest_call a masjid_id support)) log).0) [
      | inl (hash, e) ↦ sym ((eq_iff masjid_id item.masjid_id).0 (ground (arith, e, h)))
      | inr (m, e) ↦ absurd (ground (arith, e, h))
    ]
