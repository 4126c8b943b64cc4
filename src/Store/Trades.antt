-- ===== src/Store/Trades.antt =====
-- `applyPM` of internal/store/store.go.
use lumen_liquid_backend.Base.{
  Bool, true, false, ◌&&◌, Option, none, some, [], ◌∷◌, ◌++◌, if◌then◌else◌, text_eq,
}
use lumen_liquid_backend.Base.Int.{ℤ, pos, leb_ℤ, ltb_ℤ, int_eq, is_zero}
use lumen_liquid_backend.Base.Text.{Text}
use lumen_liquid_backend.Base.Assoc.{lookup, erase}
use lumen_liquid_backend.Events.{
  Event, Trade, LimitOrder, PmTopic, opened, closed, placed, executed, canceled, updated_limit,
  updated_tp_sl, tp_sl_executed, liq,
}
use lumen_liquid_backend.Keeper.Math.{or_zero, liquidation_price}
use lumen_liquid_backend.Keeper.State.{
  TradeKey, trade_key_eq, limit_key_eq, or_nil, event_key, event_limit_key,
}
use lumen_liquid_backend.Store.Sql.{upsert, update_row, insert_new}
use lumen_liquid_backend.Store.Tables.{
  Database, OpenTrade, ClosedTrade, CloseReason, manual, liquidation, tp, sl, history_key_eq,
  OpenLimit, Resolution,
}

-- How numbers are rounded on the way into a `float64` and into a `big.Float`.
pub record Floats : Type 0 where
  pub to_float64 : ℤ → ℤ
  pub to_big_float : ℤ → ℤ

abbrev pub opened_key : Event → Trade → ℤ → TradeKey
opened_key e t i = record { trader = e.trader; pair_index = pos t.pair_index; trade_index = i }

abbrev opened_row : Event → Trade → Text → OpenTrade
opened_row e t at = record {
  is_long = t.is_long;
  leverage = t.leverage;
  collateral = or_zero t.collateral;
  open_price = or_zero t.open_price;
  acc_rollover_open = or_zero t.acc_rollover_open;
  acc_funding_open = or_zero t.acc_funding_open;
  tp_price = or_zero t.tp_price;
  sl_price = or_zero t.sl_price;
  liq_price =
      or_zero
        (or_nil (liquidation_price t.open_price t.is_long t.collateral t.leverage none none 90));
  liq_threshold_p = 90;
  open_fee = or_zero e.open_fee;
  opened_at = at;
  opened_tx = e.tx_hash;
}

-- On a conflict the threshold, the time and the transaction of the row stay.
abbrev reopened_row : OpenTrade → OpenTrade → OpenTrade
reopened_row fresh old = record fresh {
  liq_threshold_p = old.liq_threshold_p;
  opened_at = old.opened_at;
  opened_tx = old.opened_tx;
}

unfoldable pub store_opened : Event → Option Trade → Option ℤ → Text → Database → Database
store_opened e none i at s = s
store_opened e (some t) none at s = s
store_opened e (some t) (some i) at s = record s {
  trades =
      upsert (opened_key e t i) (opened_row e t at) (reopened_row (opened_row e t at)) s.trades;
}

abbrev retarget : ℤ → ℤ → OpenTrade → OpenTrade
retarget tp_price sl_price t = record t { tp_price = tp_price; sl_price = sl_price }

unfoldable pub store_tp_sl : Event → Option ℤ → Option ℤ → Option ℤ → Database → Database
store_tp_sl e none p q s = s
store_tp_sl e (some i) none q s = s
store_tp_sl e (some i) (some p) none s = s
store_tp_sl e (some i) (some p) (some q) s = record s {
  trades = update_row (event_key e i) (retarget p q) s.trades;
}

abbrev closed_row : Event → CloseReason → Text → OpenTrade → ClosedTrade
closed_row e reason at t = record {
  opened = t;
  close_price = e.close_price;
  realized_pnl = e.net_pnl;
  close_fee = e.close_fee;
  close_reason = reason;
  closed_at = at;
}

-- `closeTrade`: the deleted row goes into the history, unless this closing is there already.
unfoldable pub close_trade : Event → Option ℤ → CloseReason → Text → Database → Database
close_trade e none reason at s = s
close_trade e (some i) reason at s = elim (lookup (event_key e i) s.trades) [
  | none ↦ s
  | some t ↦ record s {
    trades = erase (event_key e i) s.trades;
    trade_history =
        insert_new (record { trade = event_key e i; closed_tx = e.tx_hash })
          (closed_row e reason at t) s.trade_history;
  }
]

-- The reason by the close price `cp` and the rounded targets of the row.
unfoldable pub reason_by_price : Bool → ℤ → ℤ → ℤ → CloseReason
reason_by_price true cp p q =
    if ltb_ℤ (pos 0) q && leb_ℤ cp q then sl else if ltb_ℤ (pos 0) p && leb_ℤ p cp then tp else tp
reason_by_price false cp p q =
    if ltb_ℤ (pos 0) q && leb_ℤ q cp then sl else if ltb_ℤ (pos 0) p && leb_ℤ cp p then tp else tp

abbrev reason_of : Floats → Option OpenTrade → Option ℤ → CloseReason
reason_of fl none cp = sl
reason_of fl (some t) none = if is_zero (fl.to_float64 t.tp_price) then sl else tp
reason_of fl (some t) (some cp) =
    reason_by_price t.is_long (fl.to_big_float cp) (fl.to_float64 t.tp_price)
      (fl.to_float64 t.sl_price)

-- `closeTradeUnknownReason`
unfoldable pub close_trade_unknown_reason : Floats → Event → Option ℤ → Text → Database → Database
close_trade_unknown_reason fl e none at s = s
close_trade_unknown_reason fl e (some i) at s =
    close_trade e (some i) (reason_of fl (lookup (event_key e i) s.trades) e.close_price) at s

abbrev placed_row : Event → LimitOrder → Text → OpenLimit
placed_row e l at = record {
  is_long = l.is_long;
  leverage = l.leverage;
  collateral = or_zero l.collateral;
  limit_price = or_zero l.limit_price;
  tp_price = or_zero l.tp_price;
  sl_price = or_zero l.sl_price;
  placed_at = at;
  placed_tx = e.tx_hash;
}

unfoldable pub store_placed : Event → Option LimitOrder → Option ℤ → Text → Database → Database
store_placed e none i at s = s
store_placed e (some l) none at s = s
store_placed e (some l) (some i) at s = record s {
  limit_orders =
      upsert (record { trader = e.trader; pair_index = pos l.pair_index; limit_index = i })
        (placed_row e l at)
        (λ old. record (placed_row e l at) { placed_at = old.placed_at; placed_tx = old.placed_tx })
        s.limit_orders;
}

unfoldable pub store_updated_limit : Event → Option ℤ → Option ℤ → Database → Database
store_updated_limit e none p s = s
store_updated_limit e (some i) none s = s
store_updated_limit e (some i) (some p) s = record s {
  limit_orders =
      update_row (event_limit_key e i)
        (λ l. record l {
          limit_price = p;
          tp_price = or_zero e.tp_price;
          sl_price = or_zero e.sl_price;
        })
        s.limit_orders;
}

unfoldable pub resolve_limit : Event → Option ℤ → Resolution → Text → Database → Database
resolve_limit e none r at s = s
resolve_limit e (some i) r at s = elim (lookup (event_limit_key e i) s.limit_orders) [
  | none ↦ s
  | some l ↦ record s {
    limit_orders = erase (event_limit_key e i) s.limit_orders;
    limit_order_history =
        s.limit_order_history
        ++ record {
          key = event_limit_key e i;
          placed = l;
          resolution = r;
          resolved_at = at;
          resolved_tx = e.tx_hash;
        }
          ∷ [];
  }
]

unfoldable pub apply_pm : Floats → PmTopic → Event → Text → Database → Database
apply_pm fl opened e at s = store_opened e e.trade e.trade_index at s
apply_pm fl updated_tp_sl e at s = store_tp_sl e e.trade_index e.tp_price e.sl_price s
apply_pm fl closed e at s = close_trade e e.trade_index manual at s
apply_pm fl tp_sl_executed e at s = close_trade_unknown_reason fl e e.trade_index at s
apply_pm fl liq e at s = close_trade e e.trade_index liquidation at s
apply_pm fl placed e at s = store_placed e e.limit e.limit_index at s
apply_pm fl updated_limit e at s = store_updated_limit e e.limit_index e.limit_price s
apply_pm fl executed e at s = resolve_limit e e.limit_index Resolution.executed at s
apply_pm fl canceled e at s = resolve_limit e e.limit_index Resolution.canceled at s
apply_pm fl PmTopic.other e at s = s
