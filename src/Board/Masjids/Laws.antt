-- ===== src/Board/Masjids/Laws.antt =====
-- A card of the board's list and the dashboard that it leads to.
use masjid_protocol.Prelude.Text.{◌+++◌, is_empty}
use masjid_protocol.Prelude.{
  refl, ℕ, ◌≡◌, ◌∙◌, ap, true, false, any, List, ◌∷◌, map, Option, none, some, String, arith,
}
use text.Mathlib.Text.{◌==◌ as str_eq}
use masjid_protocol.CashOut.{Row, Progress}
use masjid_protocol.Board.{MasjidInfo, Cache}
use masjid_protocol.Board.Dashboard as Dashboard
use masjid_protocol.Board.Dashboard.{State, shown, handle}
use masjid_protocol.Board.Dashboard.Laws.{select-Shown}
use masjid_protocol.Board.Masjids.{card_of, cards, view, dashboard_link, open_dashboard}

listed_as :
    (m : MasjidInfo) (ms : List MasjidInfo)
    → view (some (m ∷ ms)) false none ≡ cards (map card_of (m ∷ ms))
unfolding view
listed_as m ms = ground arith

module _ (now : ℕ) (mutations : Row → Progress × Progress) (format_compact : ℕ → String)
    (localized : (raw decimals : ℕ) → String) (get_param : String → String → Option String) where
  opened_at :
      (id : String)
      → get_param (dashboard_link id) "masjid_id" ≡ some id
      → open_dashboard get_param (dashboard_link id)
        ≡ handle (Dashboard.select id) (record { show_propose = false; selected_id = none })
  unfolding open_dashboard handle
  opened_at id h = ap (λ x. record { show_propose = false; selected_id = x }) h

  -- Once the masjids are loaded without an error, and there is one, the board's list has their
  -- cards, in their order. The card of each has a link to /board/dashboard with the masjid's id as
  -- the parameter masjid_id; and where the id is not empty and is read back from such a link, that
  -- link opens the dashboard of a masjid with that id.
  pub card-Shown :
      (c : Cache) (m : MasjidInfo) (ms : List MasjidInfo) (chosen : MasjidInfo)
      → c.is_loading ≡ false
      → c.error ≡ none
      → c.masjids ≡ some (m ∷ ms)
      → any (λ (x : MasjidInfo). str_eq x.masjid_id chosen.masjid_id) (m ∷ ms) ≡ true
      → is_empty chosen.masjid_id ≡ false
      → get_param ("/board/dashboard?masjid_id=" +++ chosen.masjid_id) "masjid_id"
        ≡ some chosen.masjid_id
      → (view c.masjids c.is_loading c.error ≡ cards (map card_of (m ∷ ms)))
        × ((card_of chosen).link ≡ "/board/dashboard?masjid_id=" +++ chosen.masjid_id)
        × ((d : Dashboard.Dashboard) × (Dashboard.view now mutations format_compact localized c
                (open_dashboard get_param (card_of chosen).link)
              ≡ shown d)
            × (d.masjid.masjid_id ≡ chosen.masjid_id))
  unfolding card_of handle Dashboard.view
  card-Shown c m ms chosen a b e n h p =
      let s : State = record { show_propose = false; selected_id = none } in
      let (d, shown_as, same) =
        select-Shown now mutations format_compact localized c s chosen.masjid_id (m ∷ ms) a b e h
          n in
      (
        rw (a, b, e) (listed_as m ms),
        refl,
        (
          d,
          ap (Dashboard.view now mutations format_compact localized c)
                (opened_at chosen.masjid_id p)
              ∙ shown_as,
          same,
        ),
      )
