-- ===== src/Explorer/Laws.antt =====
-- What the list of masjids shows.
use text.Mathlib.Text.{◌==◌ as str_eq}
use text.Mathlib.TextEquality.{eq_iff}
use masjid_protocol.Prelude.{
  ℕ, ◌+◌, ◌≡◌, ◌↔◌, ◌⊎◌, subst, false, List, [], ◌∷◌, map, Option, some, is_some, String, arith,
  Bool-cases, inl, inr, if◌then◌else◌,
}
use masjid_protocol.Prelude.Text.{◌+++◌}
use masjid_protocol.Explorer.{MasjidSummary, Query, View, Card, card_of, view}

-- How many of the four parts the page has.
abbrev pub parts : View → ℕ
parts v =
    (if v.spinner then 1 else 0)
    + (if v.failure then 1 else 0)
    + (if v.empty_notice then 1 else 0)
    + (if is_some v.cards then 1 else 0)

module _ (encode : String → String) (format_amount : Option String → String) where
  -- A card has a link exactly if its masjid is verified, to the page of that masjid.
  abbrev pub Links : MasjidSummary → Card → Type 0
  Links m c =
      (href : String)
      → (c.link ≡ some href)
        ↔ ((m.status ≡ "verified") × (href ≡ "/masjid/" +++ encode m.masjid_id))

  card_of-Links : (m : MasjidSummary) → Links m (card_of encode format_amount m)
  unfolding card_of
  card_of-Links m href = elim (Bool-cases (str_eq m.status "verified")) [
    | inl a ↦
        let s = (eq_iff m.status "verified").0 a in
        ((λ e. (s, ground (arith, a, e))), λ h. ground (arith, a, h.1))
    | inr b ↦
        ((λ e. ground (arith, b, e)), λ h. ground (arith, b, (eq_iff m.status "verified").1 h.0))
  ]

  abbrev pub AllLink : List MasjidSummary → List Card → Type 0
  AllLink [] [] = Unit
  AllLink (m ∷ ms) (c ∷ cs) = Links m c × AllLink ms cs
  AllLink _ _ = ⊥

  cards-AllLink : (ms : List MasjidSummary) → AllLink ms (map (card_of encode format_amount) ms)
  cards-AllLink [] = tt
  cards-AllLink (m ∷ ms) = (card_of-Links m, cards-AllLink ms)

  -- Unless the query is loading and has failed at once, the page has exactly one of its four parts;
  -- and where it has cards, there is one for each masjid, in their order, with a link exactly if
  -- that masjid is verified, to its page.
  pub view_lem :
      (q : Query)
      → ((q.is_loading ≡ false) ⊎ (q.is_error ≡ false))
      → (parts (view encode format_amount q) ≡ 1)
        × ((cs : List Card) → (view encode format_amount q).cards ≡ some cs → AllLink q.masjids cs)
  unfolding view
  view_lem q h = (
    ground (arith, h),
    λ cs e. subst (AllLink q.masjids) (ground (arith, e)) (cards-AllLink q.masjids),
  )
