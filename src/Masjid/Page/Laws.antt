-- ===== src/Masjid/Page/Laws.antt =====
-- What the page of a masjid offers.
use text.Mathlib.Text.{◌==◌ as str_eq}
use text.Mathlib.TextEquality.{eq_iff}
use masjid_protocol.Prelude.{
  ◌≡◌, ◌↔◌, false, Option, none, some, String, arith, Bool-cases, Option-cases, inl, inr,
}
use masjid_protocol.Prelude.Text.{is_empty}
use masjid_protocol.Masjid.{MasjidDetail}
use masjid_protocol.Masjid.Page.{
  Queries, Locale, View, shown, Form, truthy, donate_form, page_of, view,
}

-- The page has a donation form for that instance and that token.
abbrev pub Offers : View → Form → Type 0
Offers (shown p) form = p.form ≡ some form
Offers _ form = ⊥

-- A masjid that is verified and has an instance, with its token.
pub record IsOpen (m : MasjidDetail) (form : Form) : Type 0 where
  pub verified : m.status ≡ "verified"
  pub deployed : m.instance_addr ≡ some form.instance_addr
  pub addressed : is_empty form.instance_addr ≡ false
  pub token : m.stablecoin ≡ form.stablecoin

truthy-eq-some :
    (t : Option String) (a : String) → (truthy t ≡ some a) ↔ ((t ≡ some a) × (is_empty a ≡ false))
truthy-eq-some none a = ((λ h. ground (arith, h)), λ h. ground (arith, h.0))
truthy-eq-some (some b) a = elim (Bool-cases (is_empty b)) [
  | inl e ↦ ((λ h. ground (arith, e, h)), λ h. ground (arith, e, h.0, h.1))
  | inr e ↦ ((λ h. ground (arith, e, h)), λ h. ground (arith, e, h.0))
]

donate_form_iff : (m : MasjidDetail) (form : Form) → (donate_form m ≡ some form) ↔ IsOpen m form
unfolding donate_form
donate_form_iff m form = elim (Bool-cases (str_eq m.status "verified")) [
  | inr b ↦ (
    (λ h. absurd (ground (arith, b, h))),
    λ o. absurd (ground (arith, b, (eq_iff m.status "verified").1 o.verified)),
  )
  | inl b ↦ elim (Option-cases (truthy m.instance_addr)) [
    | inl n ↦ (
      (λ h. absurd (ground (arith, n, h))),
      λ o. absurd (
          ground (
            arith,
            n,
            (truthy-eq-some m.instance_addr form.instance_addr).1 (o.deployed, o.addressed),
          )),
    )
    | inr (addr, n) ↦ (
      (λ h.
          let (d, a) =
            (truthy-eq-some m.instance_addr form.instance_addr).0 (ground (arith, b, n, h)) in
          record {
            verified = (eq_iff m.status "verified").0 b;
            deployed = d;
            addressed = a;
            token = ground (arith, b, n, h);
          }),
      λ o. ground (
        arith,
        b,
        n,
        (truthy-eq-some m.instance_addr form.instance_addr).1 (o.deployed, o.addressed),
        o.token,
      ),
    )
  ]
]

-- The page offers a donation form, for an instance and a token, exactly when the masjid has been
-- loaded without an error, is verified, and has that instance, whose address is not empty, and that
-- token.
pub form-offered_iff :
    (l : Locale) (q : Queries) (form : Form)
    → Offers (view l q) form ↔ (
        (q.is_loading ≡ false)
        × (q.is_error ≡ false)
        × ((m : MasjidDetail) × (q.masjid ≡ some m) × IsOpen m form))
unfolding view page_of
form-offered_iff l q form = elim (Bool-cases q.is_loading) [
  | inl a ↦ ((λ o. ground (arith, a, o)), λ h. ground (arith, a, h.0))
  | inr a ↦ elim (Option-cases q.masjid) [
    | inl n ↦ ((λ o. ground (arith, a, n, o)), λ (_, _, (m, e, _)). ground (arith, n, e))
    | inr (m, n) ↦ elim (Bool-cases q.is_error) [
      | inl b ↦ ((λ o. ground (arith, a, n, b, o)), λ h. ground (arith, b, h.1))
      | inr b ↦ (
        (λ o. (a, b, (m, n, (donate_form_iff m form).0 (ground (arith, a, n, b, o))))),
        λ (_, _, (m', e, open')). ground (arith, a, n, b, e, (donate_form_iff m' form).1 open'),
      )
    ]
  ]
]
