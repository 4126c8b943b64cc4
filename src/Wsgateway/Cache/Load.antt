-- ===== src/Wsgateway/Cache/Load.antt =====
-- `LoadFromDB` and the loop of `Start` (internal/wsgateway/cache.go): the cache from the tables, then
-- from the events. A row that cannot be scanned ends the loop over the rows: pgx closes them then.
use lumen_liquid_backend.Base.{
  ℕ, Bool, true, false, Option, none, some, List, [], ◌∷◌, ◌++◌, if◌then◌else◌, text_eq,
}
use lumen_liquid_backend.Base.Int.{ℤ, int_eq}
use lumen_liquid_backend.Base.Text.{Text}
use lumen_liquid_backend.Base.Time.{Rfc3339}
use lumen_liquid_backend.Base.Assoc.{Map, lookup, insert}
use lumen_liquid_backend.Events.{Event}
use lumen_liquid_backend.Wsgateway.Cache.{
  CachedTrade, CachedLimit, CachedPair, TradeCache, list_of, apply_event,
}
use lumen_liquid_backend.Wsgateway.Fees.{set_dynamic_trade_fees, ensure_dynamic_defaults}

-- The columns of the join of `trades`, `pairs` and `pair_fee_accumulators`: the threshold is the
-- pair's where there is one, and a pair without accumulators has nulls.
pub record TradeColumns : Type 0 where
  pub pair_index : ℤ
  pub trade_index : ℤ
  pub is_long : Bool
  pub leverage : ℕ
  pub collateral : Text
  pub open_price : Text
  pub acc_rollover_open : Text
  pub acc_funding_open : Text
  pub tp_price : Text
  pub sl_price : Text
  pub liq_price : Text
  pub pair_threshold : Option ℕ
  pub trade_threshold : ℕ
  pub acc_rollover : Option Text
  pub acc_funding_long : Option Text
  pub acc_funding_short : Option Text
  pub opened_at : ℕ

-- `scans` is whether `rows.Scan` succeeds on the row.
pub record JoinedTrade : Type 0 where
  pub trader : Text
  pub columns : TradeColumns
  pub scans : Bool

-- `COALESCE(p.liq_threshold_p, t.liq_threshold_p)`
abbrev pub threshold_of : TradeColumns → ℕ
threshold_of r = elim r.pair_threshold [ none ↦ r.trade_threshold | some p ↦ p ]

-- What `setDynamicTradeFees` does with the three pointers.
abbrev pub set_if_known : ℕ → Option Text → Option Text → Option Text → CachedTrade → CachedTrade
set_if_known p (some roll) (some long) (some short) t =
    set_dynamic_trade_fees
      (record {
        liq_threshold_p = p;
        acc_rollover = roll;
        acc_funding_long = long;
        acc_funding_short = short;
      })
      t
set_if_known p roll long short t = ensure_dynamic_defaults t

pub record JoinedLimit : Type 0 where
  pub trader : Text
  pub pair_index : ℤ
  pub limit_index : ℤ
  pub is_long : Bool
  pub leverage : ℕ
  pub collateral : Text
  pub limit_price : Text
  pub tp_price : Text
  pub sl_price : Text
  pub placed_at : ℕ

-- `m[trader] = append(m[trader], x)`
module _ {A : Type 0} where
  unfoldable pub append_to : Text → A → Map Text (List A) → Map Text (List A)
  append_to trader x m = insert trader (list_of (lookup trader m) ++ x ∷ []) m

-- The trade as it is scanned.
abbrev pub scanned : Text → TradeColumns → CachedTrade
scanned trader r = record {
  trader = trader;
  pair_index = r.pair_index;
  trade_index = r.trade_index;
  is_long = r.is_long;
  leverage = r.leverage;
  collateral = r.collateral;
  open_price = r.open_price;
  acc_rollover_open = r.acc_rollover_open;
  acc_funding_open = r.acc_funding_open;
  tp_price = r.tp_price;
  sl_price = r.sl_price;
  liq_price = r.liq_price;
  current_liq_price = [];
  rollover_fee = [];
  funding_fee = [];
  opened_at = [];
}

module _ (clock : Rfc3339) where
  unfoldable pub loaded_trade : Text → TradeColumns → CachedTrade
  loaded_trade trader r =
      record (set_if_known (threshold_of r) r.acc_rollover r.acc_funding_long r.acc_funding_short
        (scanned trader r)) { opened_at = clock.format r.opened_at }

  abbrev pub load_row :
      Text → TradeColumns → Map Text (List CachedTrade) → Map Text (List CachedTrade)
  load_row trader r m = append_to trader (loaded_trade trader r) m

  unfoldable pub load_trades :
      List JoinedTrade → Map Text (List CachedTrade) → Map Text (List CachedTrade)
  load_trades [] m = m
  load_trades (row ∷ rows) m =
      let rest = load_trades rows (load_row row.trader row.columns m) in
      if row.scans then rest else m

  abbrev loaded_limit : JoinedLimit → CachedLimit
  loaded_limit r = record {
    trader = r.trader;
    pair_index = r.pair_index;
    limit_index = r.limit_index;
    is_long = r.is_long;
    leverage = r.leverage;
    collateral = r.collateral;
    limit_price = r.limit_price;
    tp_price = r.tp_price;
    sl_price = r.sl_price;
    placed_at = clock.format r.placed_at;
  }

  unfoldable pub load_limits :
      List (Option JoinedLimit) → Map Text (List CachedLimit) → Map Text (List CachedLimit)
  load_limits [] m = m
  load_limits (none ∷ rows) m = m
  load_limits (some r ∷ rows) m = load_limits rows (append_to r.trader (loaded_limit r) m)

unfoldable pub load_pairs : List (Option CachedPair) → Map ℤ CachedPair → Map ℤ CachedPair
load_pairs [] m = m
load_pairs (none ∷ rows) m = m
load_pairs (some p ∷ rows) m = load_pairs rows (insert p.pair_index p m)

module _ (clock : Rfc3339) where
  -- The three queries; the flag is an error, after which the later tables stay as they were.
  abbrev load_pairs_into : Option (List (Option CachedPair)) → TradeCache → TradeCache × Bool
  load_pairs_into none c = (c, true)
  load_pairs_into (some rows) c = (record c { pairs = load_pairs rows [] }, false)

  abbrev load_limits_into :
      Option (List (Option JoinedLimit))
      → Option (List (Option CachedPair))
      → TradeCache
      → TradeCache × Bool
  load_limits_into none pairs c = (c, true)
  load_limits_into (some rows) pairs c =
      load_pairs_into pairs (record c { limits = load_limits clock rows [] })

  unfoldable pub load_from_db :
      Option (List JoinedTrade)
      → Option (List (Option JoinedLimit))
      → Option (List (Option CachedPair))
      → TradeCache
      → TradeCache × Bool
  load_from_db none limits pairs c = (c, true)
  load_from_db (some rows) limits pairs c =
      load_limits_into limits pairs (record c { trades = load_trades clock rows [] })

-- `Start`: the events in their order, with the traders that are notified.
unfoldable pub start : List Event → TradeCache → TradeCache × List Text
start [] c = (c, [])
start (e ∷ es) c =
    let (d, changed) = apply_event e c in
    let (last, notified) = start es d in (last, if changed then e.trader ∷ notified else notified)
