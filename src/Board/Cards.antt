-- ===== src/Board/Cards.antt =====
-- The numbers and texts of the board's dashboard, front-end/src/app/board/ui.tsx: the cards beside
-- the table, the texts of a request, and the history of donations. `BigInt` of a text is `none`
-- where it throws, and then the page is not drawn; the texts of numbers, of dates and of amounts
-- are parameters.
use text.Mathlib.Text.{◌==◌ as str_eq}
use masjid_protocol.Prelude.{
  ℕ, ◌*◌, Bool, List, [], ◌∷◌, Option, none, some, String, or_else, length, ◌==◌, if◌then◌else◌,
}
use masjid_protocol.Prelude.Text.{◌+++◌, is_empty, slice_to}
use masjid_protocol.Utils.{shorten_addr}
use masjid_protocol.Contracts.{CashOutRequest}

pub record CashInRecord : Type 0 where
  pub id : ℕ
  pub instance_addr : String
  pub masjid_id : Option String
  pub donor : String
  pub amount : String
  pub new_balance : String
  pub note_hash : String
  pub block_number : ℕ
  pub tx_hash : String
  pub donated_at : String

pub record DonationStats : Type 0 where
  pub total_donors : ℕ
  pub total_donations : ℕ
  pub total_amount : String
  pub last_donated_at : Option String

pub record Texts : Type 0 where
  pub big_int : String → Option ℕ
  pub to_text : ℕ → String
  pub localized : ℕ → String
  pub format_compact : ℕ → String
  pub format_units : (raw decimals : ℕ) → String
  pub date : String → String
  pub date_of_seconds : ℕ → String

abbrev then_some : {A B : Type 0} → Option A → (A → B) → Option B
then_some none f = none
then_some (some a) f = some (f a)

module _ (t : Texts) where
  -- The count and the amount of the donations.
  abbrev total_count : Option DonationStats → String
  total_count none = "—"
  total_count (some stats) = t.localized stats.total_donations

  abbrev total_amount : Option DonationStats → Option String
  total_amount none = some "—"
  total_amount (some stats) =
      if is_empty stats.total_amount
      then some "—"
      else then_some (t.big_int stats.total_amount) t.format_compact

  unfoldable pub donations_card : Option DonationStats → Option (String × String)
  donations_card stats = then_some (total_amount stats) (λ amount. (total_count stats, amount))

  abbrev shown_or : String → Option ℕ → String
  shown_or absent none = absent
  shown_or absent (some n) = t.to_text n

  unfoldable pub threshold_card :
      (cash_out_threshold board_member_count : Option ℕ) → String × String
  threshold_card cash_out_threshold board_member_count = (
    shown_or "—" cash_out_threshold,
    "dari " +++ shown_or "?" board_member_count +++ " anggota dewan",
  )

  -- The texts of a request in the table.
  pub record RequestTexts : Type 0 where
    pub number : String
    pub short_to : String
    pub amount : String
    pub approvals : String
    pub expiry : String

  unfoldable pub request_texts :
      (symbol : String)
      → (decimals : ℕ) → (threshold : Option ℕ) → ℕ
      → CashOutRequest
      → RequestTexts
  unfolding shorten_addr
  request_texts symbol decimals threshold request_id req = record {
    number = "#" +++ t.to_text request_id;
    short_to = shorten_addr req.to;
    amount =
        if str_eq symbol "IDRX"
        then t.format_compact req.amount
        else t.format_units req.amount decimals +++ " " +++ symbol;
    approvals = t.to_text req.approvals +++ " / " +++ shown_or "?" threshold;
    expiry = t.date_of_seconds (req.expires_at * 1000);
  }

  pub record DonationRow : Type 0 where
    pub short_donor : String
    pub amount : String
    pub date : String
    pub short_hash : String

  unfoldable pub donation_row : CashInRecord → Option DonationRow
  unfolding shorten_addr slice_to
  donation_row d = then_some (t.big_int d.amount) (λ amount. record {
    short_donor = shorten_addr d.donor;
    amount = t.format_compact amount;
    date = t.date d.donated_at;
    short_hash = slice_to 10 d.tx_hash +++ "…";
  })

  unfoldable pub donation_rows : List CashInRecord → Option (List DonationRow)
  unfolding donation_row
  donation_rows [] = some []
  donation_rows (d ∷ ds) =
      let rest = donation_rows ds in
      elim (donation_row d) [ none ↦ none | some row ↦ then_some rest (λ rows. row ∷ rows) ]

  pub data HistoryView : Type 0 where
    loading_history empty_history not_drawn : HistoryView
    rows : List DonationRow → HistoryView

  abbrev drawn : Option (List DonationRow) → HistoryView
  drawn none = not_drawn
  drawn (some list) = rows list

  -- `DonationHistory`.
  unfoldable pub donation_history :
      (donations : Option (List CashInRecord)) → (is_loading : Bool) → HistoryView
  unfolding donation_rows
  donation_history donations is_loading =
      if is_loading
      then loading_history
      else if length (or_else donations []) == 0
      then empty_history
      else drawn (donation_rows (or_else donations []))
