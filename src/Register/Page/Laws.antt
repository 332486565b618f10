-- ===== src/Register/Page/Laws.antt =====
-- The page of registration over time.
use masjid_protocol.Prelude.{
  ℕ, ◌+◌, ◌≡◌, ◌∙◌, refl, sym, ap, Bool, true, List, [], ◌∷◌, ◌++◌, ok, thrown, if◌then◌else◌,
  arith,
}
use masjid_protocol.Contracts.Calls.{RegisterMasjidArgs}
use masjid_protocol.Register.Page.{
  Mutation, State, Event, choose_foto, submit, uploaded, start, handle, can_happen,
}

-- What happens on the page, with the state of the mutation at that moment and whether a wallet is
-- connected.
pub record Step (File : Type 0) : Type 0 where
  pub is_connected : Bool
  pub mutation : Mutation
  pub event : Event File

append_nil : {A : Type 0} (xs : List A) → xs ++ [] ≡ xs
append_nil [] = refl
append_nil (x ∷ xs) = ap (λ l. x ∷ l) (append_nil xs)

append_assoc : {A : Type 0} (xs ys zs : List A) → (xs ++ ys) ++ zs ≡ xs ++ (ys ++ zs)
append_assoc [] ys zs = refl
append_assoc (x ∷ xs) ys zs = ap (λ l. x ∷ l) (append_assoc xs ys zs)

module _ {File : Type 0} where
  abbrev pub handle_all : List (Step File) → State File → State File
  handle_all [] s = s
  handle_all (step ∷ steps) s = handle_all steps (handle step.event s)

  -- Every event of the steps can happen when it does.
  abbrev pub AreAllowed : List (Step File) → State File → Type 0
  AreAllowed [] s = Unit
  AreAllowed (step ∷ steps) s =
      (can_happen step.is_connected step.mutation step.event s ≡ true)
      × AreAllowed steps (handle step.event s)

  abbrev submits_at : Event File → ℕ
  submits_at submit = 1
  submits_at (choose_foto file) = 0
  submits_at (uploaded result) = 0

  abbrev ends_at : Event File → ℕ
  ends_at submit = 0
  ends_at (choose_foto file) = 0
  ends_at (uploaded result) = 1

  abbrev taken_at : Event File → List RegisterMasjidArgs
  taken_at (uploaded (ok args)) = args ∷ []
  taken_at (uploaded (thrown message)) = []
  taken_at submit = []
  taken_at (choose_foto file) = []

  -- How many submissions there are, how many of them have ended their uploads, and the
  -- registrations of those that ended them well.
  abbrev pub submissions : List (Step File) → ℕ
  submissions [] = 0
  submissions (step ∷ steps) = submits_at step.event + submissions steps

  abbrev pub ends : List (Step File) → ℕ
  ends [] = 0
  ends (step ∷ steps) = ends_at step.event + ends steps

  abbrev pub registrations : List (Step File) → List RegisterMasjidArgs
  registrations [] = []
  registrations (step ∷ steps) = taken_at step.event ++ registrations steps

  abbrev pub in_flight : State File → ℕ
  in_flight s = if s.uploading then 1 else 0

  balance :
      (is_connected : Bool) (m : Mutation) (e : Event File) (s : State File)
      → can_happen is_connected m e s ≡ true
      → in_flight s + submits_at e ≡ in_flight (handle e s) + ends_at e
  unfolding handle
  balance is_connected m (choose_foto file) s h = refl
  balance is_connected m submit s h = ground (arith, h)
  balance is_connected m (uploaded (ok args)) s h = ground (arith, h)
  balance is_connected m (uploaded (thrown message)) s h = ground (arith, h)

  handed : (e : Event File) (s : State File) → (handle e s).mutated ≡ s.mutated ++ taken_at e
  unfolding handle
  handed (choose_foto file) s = sym (append_nil s.mutated)
  handed submit s = sym (append_nil s.mutated)
  handed (uploaded (ok args)) s = refl
  handed (uploaded (thrown message)) s = sym (append_nil s.mutated)

  handled_from :
      (steps : List (Step File)) (s : State File)
      → AreAllowed steps s
      → (in_flight s + submissions steps ≡ in_flight (handle_all steps s) + ends steps)
        × ((handle_all steps s).mutated ≡ s.mutated ++ registrations steps)
  handled_from [] s a = (refl, sym (append_nil s.mutated))
  handled_from (step ∷ steps) s (a, rest) =
      let (count, list) = handled_from steps (handle step.event s) rest in
      let here = balance step.is_connected step.mutation step.event s a in
      (
        omega (arith, here, count),
        list
            ∙ ap (λ l. l ++ registrations steps) (handed step.event s)
            ∙ append_assoc s.mutated (taken_at step.event) (registrations steps),
      )

  -- However the page is used from its start on, as far as its fields and buttons allow, with the
  -- transaction and the wallet in whatever states: of the submissions one at most has not ended its
  -- uploads, namely exactly while the page is marked as uploading, and the registrations handed to
  -- the transaction are those of the submissions whose uploads ended well, each once, in order.
  pub handle_all-Uploaded :
      (steps : List (Step File))
      → AreAllowed steps start
      → (submissions steps ≡ in_flight (handle_all steps start) + ends steps)
        × ((handle_all steps start).mutated ≡ registrations steps)
  handle_all-Uploaded steps a =
      let (count, list) = handled_from steps start a in (omega (arith, count), list)
