-- ===== src/Api/History.antt =====
-- `handleGetTradingHistory` of cmd/api/main.go: one page of a trader's closed trades.
pub mod Order
pub mod Follow
pub mod Pages
pub mod Cursor
use lumen_liquid_backend.Base.{
  ℕ, suc, ◌+◌, ◌-◌, ◌*◌, ◌/◌, Bool, true, false, Option, none, some, List, [], ◌∷◌, ◌++◌,
  if◌then◌else◌, ◌==◌, text_eq, ltb, length, take, keep, get_elem?,
}
use lumen_liquid_backend.Base.Int.{ℤ, pos, pos_part, ltb_ℤ}
use lumen_liquid_backend.Base.Text.{Text, codes}
use lumen_liquid_backend.Base.Strings.{atoi}
use lumen_liquid_backend.Base.Time.{Rfc3339}
use lumen_liquid_backend.Api.{Response, json, http_error, Rows}

-- A row of `trade_history`, as the query selects it.
pub record HistoryRow : Type 0 where
  pub pair_index : ℤ
  pub trade_index : ℤ
  pub is_long : Bool
  pub leverage : ℤ
  pub collateral : Text
  pub open_price : Text
  pub close_price : Option Text
  pub acc_rollover_open : Text
  pub acc_funding_open : Text
  pub tp_price : Text
  pub sl_price : Text
  pub realized_pnl : Option Text
  pub open_fee : Option Text
  pub close_fee : Option Text
  pub close_reason : Text
  pub opened_at : ℕ
  pub opened_tx : Text
  pub closed_at : ℕ
  pub closed_tx : Text

-- An history_entry of the response: the row, with its times as texts.
pub record HistoryEntry : Type 0 where
  pub row : HistoryRow
  pub opened_text : Text
  pub closed_text : Text

pub record HistoryPage : Type 0 where
  pub trader : Text
  pub history : List HistoryEntry
  pub next_cursor : Option Text
  pub has_more : Bool

-- Default 20, at most 100; a text that is no number above zero is ignored.
abbrev pub chosen : Option ℤ → ℕ
chosen none = 20
chosen (some n) = if ltb_ℤ (pos 0) n then pos_part n else 20

unfoldable pub page_limit : Text → ℕ
page_limit l =
    let limit = if l == [] then 20 else chosen (atoi l) in if ltb 100 limit then 100 else limit

-- `WHERE … closed_at < $2 ORDER BY closed_at DESC LIMIT $3` on the rows of the trader, which stand
-- in the order of the query.
abbrev pub older : Option ℕ → List HistoryRow → List HistoryRow
older none rows = rows
older (some t) rows = keep (λ r. ltb r.closed_at t) rows

unfoldable pub select_history : Option ℕ → ℕ → List HistoryRow → List HistoryRow
select_history cursor n rows = take n (older cursor rows)

module _ (clock : Rfc3339) where
  abbrev pub history_entry : HistoryRow → HistoryEntry
  history_entry r = record {
    row = r;
    opened_text = clock.format r.opened_at;
    closed_text = clock.format r.closed_at;
  }

  -- A row that cannot be scanned ends the loop: pgx closes the rows then.
  abbrev pub entries : List (Option HistoryRow) → List HistoryEntry
  entries [] = []
  entries (none ∷ rows) = []
  entries (some r ∷ rows) = history_entry r ∷ entries rows

  -- `mustParseRFC3339`: the zero time on an error.
  unfoldable pub must_parse_rfc3339 : Text → ℕ
  must_parse_rfc3339 s = elim (clock.parse s) [ none ↦ 0 | some t ↦ t ]

  abbrev pub cursor_of : Option HistoryEntry → Option Text
  cursor_of none = none
  cursor_of (some e) = some (clock.format (must_parse_rfc3339 e.closed_text))

  -- One history_entry more than the limit was asked for: it tells that there are more pages.
  unfoldable pub history_page : Text → ℕ → List HistoryEntry → HistoryPage
  history_page trader limit history =
      let shown = take limit history in
      if ltb limit (length history)
      then record {
        trader = trader;
        history = shown;
        next_cursor = cursor_of (get_elem? shown (length shown - 1));
        has_more = true;
      }
      else record { trader = trader; history = history; next_cursor = none; has_more = false }

  abbrev pub answer : Text → ℕ → Rows HistoryRow → Response HistoryPage
  answer trader limit none = http_error (codes "query failed") 500
  answer trader limit (some rows) = json (history_page trader limit (entries rows))

  abbrev pub with_cursor :
      (Option ℕ → ℕ → Rows HistoryRow) → Text → ℕ → Option ℕ → Response HistoryPage
  with_cursor query trader limit none =
      http_error (codes "invalid cursor (want RFC3339 timestamp)") 400
  with_cursor query trader limit (some t) = answer trader limit (query (some t) (limit + 1))

  -- `query` is the database, asked for the trader's rows before a time, up to a number of them.
  unfoldable pub handle_get_trading_history :
      (Option ℕ → ℕ → Rows HistoryRow) → Text → Text → Text → Response HistoryPage
  handle_get_trading_history query trader limit_text cursor =
      let limit = page_limit limit_text in
      if cursor == []
      then answer trader limit (query none (limit + 1))
      else with_cursor query trader limit (clock.parse cursor)
