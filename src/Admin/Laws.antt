-- ===== src/Admin/Laws.antt =====
-- What the administrator's handlers send, and what the page shows.
use text.Mathlib.Text.{starts_with}
use masjid_protocol.Prelude.{
  or_else, ℕ, ◌≡◌, ◌↔◌, refl, ap, ◌⊎◌, or_default, true, false, List, [], none, some, String,
  Result, ok, thrown, arith, inl, inr, Bool-cases,
}
use masjid_protocol.Abi.{Call}
use masjid_protocol.Contracts.{Addresses}
use masjid_protocol.Contracts.Calls.{add_verifier_call, remove_verifier_call}
use masjid_protocol.Wallet.{Wallet}
use masjid_protocol.Wallet.Laws.{submit-Submitted, Result-cases}
use masjid_protocol.Board.{Answer}
use masjid_protocol.Verifier.Laws.{Attempted}
use masjid_protocol.Admin.{
  tables, Option, State, AddForm, Cell, loaded, view, handle_add, handle_remove, handle_save,
}

-- Adding a verifier whose address starts with `0x` and removing one each send the simulated request
-- at most once, and show what was thrown, if anything was; with another address nothing is sent and
-- nothing changes.
registry-Attempted :
    (w : Wallet) (a : Addresses) (f : AddForm) (address : String) (log : List Call)
    → (starts_with f.address "0x" ≡ true
        → let (f', later) = handle_add w a f log in
          Attempted w (add_verifier_call a f.address f.label) log f'.error later)
      × (starts_with f.address "0x" ≡ false → handle_add w a f log ≡ (f, log))
      × (let (error, later) = handle_remove w a address log in
          Attempted w (remove_verifier_call a address) log error later)
unfolding handle_add handle_remove
registry-Attempted w a f address log = (
  (λ s. rw s (_, submit-Submitted w (add_verifier_call a f.address f.label) log, refl)),
  (λ s. rw s refl),
  (_, submit-Submitted w (remove_verifier_call a address) log, refl),
)

-- The server accepted the request.
abbrev pub Accepted : Result String (Answer (Unit {0})) → Type 0
Accepted answer = (res : Answer (Unit {0})) × (answer ≡ ok res) × (res.is_ok ≡ true)

Accepted-cases :
    (answer : Result String (Answer (Unit {0}))) → Accepted answer ⊎ (¬ Accepted answer)
Accepted-cases (thrown e) = inr (λ (r, q, z). ground (arith, q))
Accepted-cases (ok res) = elim (Bool-cases res.is_ok) [
  | inl b ↦ inl (res, refl, b)
  | inr b ↦ inr (λ (r, q, z).
      ground
        (arith, ap (λ (x : Result String (Answer (Unit {0}))). (or_default res x).is_ok) q, z, b))
]

save-Accepted :
    (answer : Result String (Answer (Unit {0}))) (c : Cell)
    → Accepted answer
    → handle_save answer c ≡ (record c { editing = false; saving = false; error = none }, 1)
unfolding handle_save
save-Accepted answer c (res, q, z) = rw (q, z) refl

save-refused :
    (answer : Result String (Answer (Unit {0}))) (c : Cell)
    → (¬ Accepted answer)
    → (message : String) × (handle_save answer c
        ≡ (record c { saving = false; error = some message }, 0))
unfolding handle_save
save-refused (thrown e) c h = (e, refl)
save-refused (ok res) c h = elim (Bool-cases res.is_ok) [
  | inl b ↦ absurd (h (res, refl, b))
  | inr b ↦ elim (Result-cases res.json) [
    | inl (body, e) ↦ (or_else body.error "Gagal menyimpan", rw (b, e) refl)
    | inr (m, e) ↦ (m, rw (b, e) refl)
  ]
]

-- A label's cell that is being edited is closed, and the page refreshed, exactly when the server
-- accepted the label; else it stays open with a message.
handle_save_lem :
    (answer : Result String (Answer (Unit {0}))) (c : Cell)
    → c.editing ≡ true
    → (((handle_save answer c).1 ≡ 1) ↔ Accepted answer)
      × (((handle_save answer c).0.editing ≡ false) ↔ Accepted answer)
      × (((handle_save answer c).0.error ≡ none) ↔ Accepted answer)
unfolding handle_save
handle_save_lem answer c h = elim (Accepted-cases answer) [
  | inl yes' ↦
      let e = save-Accepted answer c yes' in
      (
        ((λ x. yes'), λ x. ap (λ (r : Cell × ℕ). r.1) e),
        ((λ x. yes'), λ x. ap (λ (r : Cell × ℕ). r.0.editing) e),
        ((λ x. yes'), λ x. ap (λ (r : Cell × ℕ). r.0.error) e),
      )
  | inr no' ↦
      let (m, e) = save-refused answer c no' in
      (
        ((λ x. absurd (ground (arith, e, x))), λ x. absurd (no' x)),
        ((λ x. absurd (ground (arith, e, x, h))), λ x. absurd (no' x)),
        ((λ x. absurd (ground (arith, e, x))), λ x. absurd (no' x)),
      )
]

-- A refusal by the server, with the error that its body gives.
abbrev pub refused : {A : Type 0} → Option String → Result String (Answer A)
refused error = ok (record { is_ok = false; json = ok (record { error = error; data_ = none }) })

-- If the server refuses the page's two requests, whatever errors it gives, the page does not show
-- them, unless it has failed before: it counts no masjid and no verifier and its tables are empty.
refusal_shown :
    (masjid_error verifier_error : Option String) (s : State)
    → s.error ≡ none
    → view (loaded (refused masjid_error) (refused verifier_error) s)
      ≡ tables (record {
        total_masjids = 0;
        waiting = 0;
        active_verifiers = 0;
        verifier_rows = [];
        masjid_rows = [];
      })
unfolding loaded view
refusal_shown masjid_error verifier_error s h = rw h refl
