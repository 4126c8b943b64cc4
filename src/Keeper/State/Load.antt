-- ===== src/Keeper/State/Load.antt =====
-- `LoadFromDB`, `loadLimitsFromDB` and `LoadFeeAccumulatorsFromDB` of internal/keeper/state.go. A
-- query that fails is `none`, and so is a row at which the reading of the answer fails, by an error of
-- the connection or of `Scan`: pgx closes the rows then, the loop ends, and `rows.Err()` is not nil. A
-- NUMERIC column comes as text.
use lumen_liquid_backend.Base.{
  ℕ, Bool, true, false, ◌&&◌, if◌then◌else◌, Option, none, some, List, [], ◌∷◌,
}
use lumen_liquid_backend.Base.Int.{ℤ, int_eq}
use lumen_liquid_backend.Base.Text.{Text, parse_ℤ}
use lumen_liquid_backend.Base.Assoc.{Map, insert}
use lumen_liquid_backend.Keeper.State.{
  TradeKey, LimitKey, TradeEntry, LimitEntry, PairFeeState, TradeState, trade_key_eq, limit_key_eq,
}

pub record TradeRow : Type 0 where
  pub trader : Text
  pub pair_index : ℤ
  pub trade_index : ℤ
  pub is_long : Bool
  pub leverage : ℕ
  pub collateral : Text
  pub open_price : Text
  pub acc_rollover_open : Text
  pub acc_funding_open : Text
  pub tp_price : Text
  pub sl_price : Text
  pub liq_price : Text
  pub liq_threshold_p : ℕ

pub record LimitRow : Type 0 where
  pub trader : Text
  pub pair_index : ℤ
  pub limit_index : ℤ
  pub is_long : Bool
  pub limit_price : Text

pub record FeeRow : Type 0 where
  pub pair_index : ℤ
  pub acc_rollover : Text
  pub acc_funding_long : Text
  pub acc_funding_short : Text
  pub projected_at_ledger : ℕ

-- `rows.Err() == nil`
abbrev all_read {ℓ} : {A : Type ℓ} → List (Option A) → Bool
all_read [] = true
all_read (none ∷ rows) = false
all_read (some r ∷ rows) = all_read rows

unfoldable pub row_entry : TradeRow → TradeEntry
row_entry r = record {
  key = record { trader = r.trader; pair_index = r.pair_index; trade_index = r.trade_index };
  is_long = r.is_long;
  leverage = r.leverage;
  collateral = parse_ℤ r.collateral;
  open_price = parse_ℤ r.open_price;
  acc_rollover_open = parse_ℤ r.acc_rollover_open;
  acc_funding_open = parse_ℤ r.acc_funding_open;
  liq_threshold_p = r.liq_threshold_p;
  liq_price = parse_ℤ r.liq_price;
  tp_price = parse_ℤ r.tp_price;
  sl_price = parse_ℤ r.sl_price;
}

unfoldable pub load_trades :
    List (Option TradeRow) → Map TradeKey TradeEntry → Map TradeKey TradeEntry
unfolding row_entry
load_trades [] m = m
load_trades (none ∷ rows) m = m
load_trades (some r ∷ rows) m = load_trades rows (insert (row_entry r).key (row_entry r) m)

abbrev limit_row_entry : LimitRow → LimitEntry
limit_row_entry r = record {
  key = record { trader = r.trader; pair_index = r.pair_index; limit_index = r.limit_index };
  is_long = r.is_long;
  limit_price = parse_ℤ r.limit_price;
}

unfoldable pub load_limits :
    List (Option LimitRow) → Map LimitKey LimitEntry → Map LimitKey LimitEntry
load_limits [] m = m
load_limits (none ∷ rows) m = m
load_limits (some r ∷ rows) m =
    load_limits rows (insert (limit_row_entry r).key (limit_row_entry r) m)

abbrev fee_row_entry : FeeRow → PairFeeState
fee_row_entry r = record {
  pair_index = r.pair_index;
  acc_rollover = parse_ℤ r.acc_rollover;
  acc_funding_long = parse_ℤ r.acc_funding_long;
  acc_funding_short = parse_ℤ r.acc_funding_short;
  projected_at_ledger = r.projected_at_ledger;
}

unfoldable pub load_fees : List (Option FeeRow) → Map ℤ PairFeeState → Map ℤ PairFeeState
load_fees [] m = m
load_fees (none ∷ rows) m = m
load_fees (some r ∷ rows) m = load_fees rows (insert r.pair_index (fee_row_entry r) m)

-- `LoadFeeAccumulatorsFromDB`: after an error nothing is swapped in. The flag is false on an error.
unfoldable pub load_fee_accumulators :
    Option (List (Option FeeRow)) → TradeState → Bool × TradeState
unfolding load_fees
load_fee_accumulators none s = (false, s)
load_fee_accumulators (some rows) s =
    if all_read rows then (true, record s { fees = load_fees rows [] }) else (false, s)

unfoldable pub load_limits_from_db :
    Option (List (Option LimitRow)) → TradeState → Bool × TradeState
unfolding load_limits
load_limits_from_db none s = (false, s)
load_limits_from_db (some rows) s = (all_read rows, record s { limits = load_limits rows s.limits })

-- `LoadFromDB`
unfoldable pub load_from_db :
    Option (List (Option TradeRow))
    → Option (List (Option LimitRow))
    → Option (List (Option FeeRow))
    → TradeState
    → Bool × TradeState
unfolding load_trades load_limits_from_db load_fee_accumulators
load_from_db none limits fees s = (false, s)
load_from_db (some rows) limits fees s =
    let (limits_read, t) =
      load_limits_from_db limits (record s { trades = load_trades rows s.trades }) in
    let (fees_read, u) = load_fee_accumulators fees t in
    if limits_read then (fees_read && all_read rows, u) else (false, t)
