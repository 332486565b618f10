-- ===== src/Board/Dashboard.antt =====
-- The view of the board's dashboard, `BoardDashboardInner` of front-end/src/app/board/ui.tsx, as a
-- function of its state and of what the queries hold, and the events that change the state.
pub mod Laws
use text.Mathlib.Text.{◌==◌ as str_eq}
use masjid_protocol.Abi.{Value}
use masjid_protocol.Prelude.{
  any, is_some, ℕ, zero, suc, ◌+◌, ◌*◌, ◌/◌, Bool, true, false, not, ◌&&◌, ◌||◌, List, [], ◌∷◌, map,
  Option, none, some, String, ltb, leb, ◌==◌, length, or_else, if◌then◌else◌,
}
use masjid_protocol.Prelude.Text.{is_empty}
use masjid_protocol.Prelude.Rounding.{nearest}
use masjid_protocol.CashOut.{
  Row, StatusBadge, Progress, Actions, request_ids, cash_out_requests, cash_out_status_badge,
  cash_out_actions,
}
use masjid_protocol.Board.{
  MasjidInfo, InstanceReads, TokenReads, Cache, selected_masjid, formatted_balance,
  is_verified_status,
}

-- `Math.min(100, threshold ? Math.round(approvals / threshold * 100) : 0)`, in percent.
abbrev percent : (approvals : ℕ) → Option ℕ → ℕ
percent approvals none = 0
percent approvals (some zero) = 0
percent approvals (some (suc t)) =
    let p = nearest (100 * approvals) (suc t) in if leb p 100 then p else 100

pub record TableRow : Type 0 where
  pub row : Row
  pub width : ℕ
  pub badge : StatusBadge
  pub actions : Option Actions

-- The state of the component.
pub record State : Type 0 where
  pub show_propose : Bool
  pub selected_id : Option String

pub record Dashboard : Type 0 where
  pub masjid : MasjidInfo
  pub choices : List MasjidInfo
  pub warned : Bool
  pub is_verified : Bool
  pub balance : Option String
  pub propose_disabled : Bool
  pub form : Option String
  pub rows : Option (List TableRow)

pub data View : Type 0 where
  loading unregistered : View
  failed : String → View
  shown : Dashboard → View

module _ (now : ℕ) (mutations : Row → Progress × Progress) where
  -- A row of the table, with the states of its two mutations.
  unfoldable pub table_row : Option ℕ → Row → TableRow
  unfolding cash_out_status_badge cash_out_actions
  table_row threshold r = record {
    row = r;
    width = percent r.req.approvals threshold;
    badge = cash_out_status_badge r.req (or_else threshold 0) now;
    actions = cash_out_actions r.req (or_else threshold 0) now (mutations r).0 (mutations r).1;
  }

  -- The table, or nothing where there is no request.
  abbrev table : InstanceReads → Option (List (Option (List Value))) → Option (List TableRow)
  table reads answers =
      if length (request_ids reads.cash_out_nonce) == 0
      then none
      else some (
          map (table_row reads.cash_out_threshold)
            (cash_out_requests reads.cash_out_nonce answers).1)

  module _ (format_compact : ℕ → String) (localized : (raw decimals : ℕ) → String) where
    abbrev pub dashboard : Cache → State → List MasjidInfo → MasjidInfo → Dashboard
    dashboard c s masjids masjid =
        let reads = c.instances masjid.instance_addr in
        let token = c.tokens reads.stablecoin_address in
        let is_verified = is_verified_status reads.instance_status in
        record {
          masjid = masjid;
          choices = if ltb 1 (length masjids) then masjids else [];
          warned = not is_verified;
          is_verified = is_verified;
          balance =
              if reads.loading_instance
              then none
              else some (
                  formatted_balance format_compact localized reads.raw_balance
                    (or_else token.decimals 2) (or_else token.symbol "IDRX"));
          propose_disabled = not is_verified;
          form =
              if s.show_propose && not (is_empty masjid.instance_addr)
              then some masjid.instance_addr
              else none;
          rows = table reads (c.cash_outs masjid.instance_addr);
        }

    abbrev opened : Cache → State → Option MasjidInfo → View
    opened c s none = unregistered
    opened c s (some masjid) = shown (dashboard c s (or_else c.masjids []) masjid)

    abbrev unless_failed : Option String → View → View
    unless_failed none v = v
    unless_failed (some message) v = failed message

    unfoldable pub view : Cache → State → View
    unfolding selected_masjid table_row
    view c s =
        if c.is_loading
        then loading
        else unless_failed c.error (opened c s (selected_masjid c.masjids s.selected_id))

-- The buttons of the masjids, the button of the form, and a proposal that went through.
pub data Event : Type 0 where
  select : (masjid_id : String) → Event
  toggle_propose proposed : Event

unfoldable pub handle : Event → State → State
handle (select masjid_id) s = record s { selected_id = some masjid_id }
handle toggle_propose s = record s { show_propose = not s.show_propose }
handle proposed s = record s { show_propose = false }

-- The button of the form takes a click unless it is disabled.
abbrev pub can_happen : Event → View → Bool
can_happen toggle_propose (shown d) = not d.propose_disabled
can_happen (select masjid_id) (shown d) =
    any (λ (m : MasjidInfo). str_eq m.masjid_id masjid_id) d.choices
can_happen proposed (shown d) = is_some d.form
can_happen e _ = false
