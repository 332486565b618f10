-- ===== src/Propose/Page/Laws.antt =====
-- The form of a proposal over time.
use masjid_protocol.Prelude.{
  ◌≡◌, ◌≢◌, ◌↔◌, refl, subst, Bool, true, false, List, [], ◌∷◌, Option, none, some, String, Result,
  ok, thrown, Bool-cases, inl, inr, if◌then◌else◌,
}
use masjid_protocol.Propose as Propose
use masjid_protocol.Propose.{Decimal, Errors}
use masjid_protocol.Contracts.Calls.{ProposeCashOutArgs}
use masjid_protocol.Board.Dashboard as Dashboard
use masjid_protocol.Propose.Page.{
  Progress, idle, pending, failed, confirming, confirmed, unconfirmed, is_busy, is_open, Form, Page,
  Event, appear, vanish, on_dashboard, edit, submit, settled, received, shown_on, submitted, ended,
  settled_at, view_at, start, received_at, handle, menunggu_konfirmasi, label_of, fields_of, view,
}

-- No transaction of the form has been sent.
abbrev pub is_unsent : Progress → Bool
is_unsent idle = true
is_unsent pending = true
is_unsent (failed message) = true
is_unsent _ = false

abbrev pub IsUnsent : Option Form → Type 0
IsUnsent none = Unit
IsUnsent (some f) = is_unsent f.progress ≡ true

shown_on-IsUnsent : (d : Dashboard.State) (f : Option Form) → IsUnsent f → IsUnsent (shown_on d f)
shown_on-IsUnsent d f h = elim (Bool-cases d.show_propose) [ inl a ↦ rw a h | inr b ↦ rw b tt ]

edited-IsUnsent :
    (f f' : Form)
    → f'.progress ≡ f.progress
    → (b : Bool) → is_unsent f.progress ≡ true
    → is_unsent (if b then f' else f).progress ≡ true
edited-IsUnsent f f' e true h = rw e h
edited-IsUnsent f f' e false h = h

submitted-IsUnsent :
    (p : Page) (f : Form) (r : Result Errors ProposeCashOutArgs)
    → is_unsent f.progress ≡ true
    → IsUnsent (submitted p f r).form
submitted-IsUnsent p f (thrown errors) h = h
submitted-IsUnsent p f (ok args) h = refl

page-IsUnsent :
    (b : Bool) (p p' : Page)
    → IsUnsent p.form
    → IsUnsent p'.form
    → IsUnsent (if b then p' else p).form
page-IsUnsent true p p' h h' = h'
page-IsUnsent false p p' h h' = h

received_at-is_unsent :
    (b : Bool) (progress : Progress)
    → is_unsent progress ≡ true
    → is_unsent (received_at b progress) ≡ true
received_at-is_unsent b Progress.idle h = refl
received_at-is_unsent b Progress.pending h = refl
received_at-is_unsent b (failed message) h = refl
received_at-is_unsent b (confirming hash) h = absurd cc
received_at-is_unsent b (confirmed hash) h = absurd cc
received_at-is_unsent b (unconfirmed hash) h = absurd cc

module _ (is_address : String → Bool) (to_number : String → Option Decimal)
    (trim keccak : String → String) where
  abbrev handle' : Event → Page → Page
  handle' = handle is_address to_number trim keccak

  abbrev pub handle_all : List Event → Page → Page
  handle_all [] p = p
  handle_all (event ∷ events) p = handle_all events (handle' event p)

  ended-IsUnsent : (r : Result String String) (p : Page) (f : Form) → IsUnsent (ended r p f).form
  unfolding Dashboard.handle
  ended-IsUnsent (ok hash) p f = tt
  ended-IsUnsent (thrown message) p f = refl

  settled_at-IsUnsent :
      (r : Result String String) (p : Page) (f : Form)
      → IsUnsent p.form
      → (progress : Progress) → IsUnsent (settled_at r p f progress).form
  settled_at-IsUnsent r p f h Progress.pending = ended-IsUnsent r p f
  settled_at-IsUnsent r p f h Progress.idle = h
  settled_at-IsUnsent r p f h (failed message) = h
  settled_at-IsUnsent r p f h (confirming hash) = h
  settled_at-IsUnsent r p f h (confirmed hash) = h
  settled_at-IsUnsent r p f h (unconfirmed hash) = h

  handle-IsUnsent :
      (event : Event) (d : Dashboard.State) (form : Option Form) (l : List ProposeCashOutArgs)
      → IsUnsent form
      → IsUnsent (handle' event (record { dashboard = d; form = form; mutated = l })).form
  unfolding handle
  handle-IsUnsent appear d none l h = shown_on-IsUnsent d (some _) refl
  handle-IsUnsent appear d (some f) l h = h
  handle-IsUnsent vanish d form l h = tt
  handle-IsUnsent (on_dashboard event) d form l h =
      shown_on-IsUnsent (Dashboard.handle event d) form h
  handle-IsUnsent (edit values errors) d none l h = h
  handle-IsUnsent (edit values errors) d (some f) l h =
      edited-IsUnsent f (record f { values = values; errors = errors }) refl (is_open f.progress) h
  handle-IsUnsent (submit address) d none l h = h
  handle-IsUnsent (submit address) d (some f) l h =
      let p : Page = record { dashboard = d; form = some f; mutated = l } in
      let r = Propose.submit is_address to_number trim keccak address f.values in
      page-IsUnsent (is_open f.progress) p (submitted p f r) h (submitted-IsUnsent p f r h)
  handle-IsUnsent (settled r) d none l h = h
  handle-IsUnsent (settled r) d (some f) l h =
      settled_at-IsUnsent r (record { dashboard = d; form = some f; mutated = l }) f h f.progress
  handle-IsUnsent (received success) d none l h = h
  handle-IsUnsent (received success) d (some f) l h = received_at-is_unsent success f.progress h

  handle_all-IsUnsent :
      (events : List Event) (p : Page) → IsUnsent p.form → IsUnsent (handle_all events p).form
  handle_all-IsUnsent [] p h = h
  handle_all-IsUnsent (event ∷ events) p h =
      handle_all-IsUnsent events (handle' event p)
        (handle-IsUnsent event p.dashboard p.form p.mutated h)

  busy_iff :
      (progress : Progress)
      → is_unsent progress ≡ true
      → (label_of progress ≢ menunggu_konfirmasi)
        × ((is_busy progress ≡ true) ↔ (progress ≡ Progress.pending))
  busy_iff Progress.idle h = ((λ e. cc), ((λ e. cc), λ e. cc))
  busy_iff Progress.pending h = ((λ e. cc), ((λ e. refl), λ e. refl))
  busy_iff (failed message) h = ((λ e. cc), ((λ e. cc), λ e. cc))
  busy_iff (confirming hash) h = absurd cc
  busy_iff (confirmed hash) h = absurd cc
  busy_iff (unconfirmed hash) h = absurd cc

  view_at_lem :
      (f : Form) (progress : Progress)
      → is_unsent progress ≡ true
      → view_at f progress ≡ fields_of f
  view_at_lem f Progress.idle h = refl
  view_at_lem f Progress.pending h = refl
  view_at_lem f (failed message) h = refl
  view_at_lem f (confirming hash) h = absurd cc
  view_at_lem f (confirmed hash) h = absurd cc
  view_at_lem f (unconfirmed hash) h = absurd cc

  -- A proposal whose transaction was sent takes the form away.
  settled-closes :
      (hash : String) (p : Page) (f : Form)
      → p.form ≡ some f
      → f.progress ≡ Progress.pending
      → ((handle' (settled (ok hash)) p).form ≡ none)
        × ((handle' (settled (ok hash)) p).dashboard.show_propose ≡ false)
  unfolding handle Dashboard.handle
  settled-closes hash p f e b = rw (e, b) (refl, refl)

  -- However the dashboard and the form of a proposal are used, and however the mutations and the
  -- waits for receipts end: while the form is there, it shows its fields and not its notice of
  -- success, its button does not say that it waits for a confirmation, and the button is disabled
  -- exactly while the mutation is pending; and when the mutation ends with the hash of the
  -- transaction, the form is closed.
  pub handle_all-shown :
      (d : Dashboard.State) (events : List Event) (f : Form)
      → (handle_all events (start d)).form ≡ some f
      → (view f ≡ fields_of f)
        × (label_of f.progress ≢ menunggu_konfirmasi)
        × ((is_busy f.progress ≡ true) ↔ (f.progress ≡ Progress.pending))
        × ((hash : String)
            → f.progress ≡ Progress.pending
            → ((handle' (settled (ok hash)) (handle_all events (start d))).form ≡ none)
              × ((handle' (settled (ok hash)) (handle_all events (start d))).dashboard.show_propose
                  ≡ false))
  unfolding view
  handle_all-shown d events f e =
      let h : is_unsent f.progress ≡ true =
        subst IsUnsent e (handle_all-IsUnsent events (start d) tt) in
      let (label, busy) = busy_iff f.progress h in
      (
        view_at_lem f f.progress h,
        label,
        busy,
        λ hash b. settled-closes hash (handle_all events (start d)) f e b,
      )
