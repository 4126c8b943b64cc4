-- ===== src/Keeper/State.antt =====
-- internal/keeper/state.go: the trades, limit orders and fee accumulators that the keeper watches.
-- The maps hold pointers that no other part writes through, and readers get copies, so an entry is
-- a value. The mutex makes each method one step; logging is left out.
pub mod Keys
pub mod Invariant
pub mod Replay
pub mod Watch
pub mod Load
pub use Keys.*
use lumen_liquid_backend.Base.{
  ℕ, Bool, true, false, Option, none, some, List, [], ◌∷◌, map, keep, if◌then◌else◌, ◌==◌, length,
}
use lumen_liquid_backend.Base.Int.{ℤ, pos, int_eq}
use lumen_liquid_backend.Base.Text.{Text}
use lumen_liquid_backend.Base.Assoc.{Map, lookup, insert, erase}
use lumen_liquid_backend.Keeper.Math.{Result, ok, err, liquidation_price}
use lumen_liquid_backend.Events.{
  Event, Trade, LimitOrder, PmTopic, pm_topic, opened, closed, placed, executed, canceled,
  updated_limit, updated_tp_sl, tp_sl_executed, liq,
}

pub record TradeEntry : Type 0 where
  pub key : TradeKey
  pub is_long : Bool
  pub leverage : ℕ
  pub collateral : Option ℤ
  pub open_price : Option ℤ
  pub acc_rollover_open : Option ℤ
  pub acc_funding_open : Option ℤ
  pub liq_threshold_p : ℕ
  pub liq_price : Option ℤ
  pub tp_price : Option ℤ
  pub sl_price : Option ℤ

pub record LimitEntry : Type 0 where
  pub key : LimitKey
  pub is_long : Bool
  pub limit_price : Option ℤ

pub record PairFeeState : Type 0 where
  pub pair_index : ℤ
  pub acc_rollover : Option ℤ
  pub acc_funding_long : Option ℤ
  pub acc_funding_short : Option ℤ
  pub projected_at_ledger : ℕ

pub record TradeState : Type 0 where
  pub trades : Map TradeKey TradeEntry
  pub limits : Map LimitKey LimitEntry
  pub fees : Map ℤ PairFeeState

abbrev pub new_trade_state : TradeState
new_trade_state = record { trades = []; limits = []; fees = [] }

-- `deref32`
abbrev pub deref32 : Option ℤ → ℤ
deref32 none = pos 0
deref32 (some i) = i

-- `liqPrice, _ := LiquidationPrice(…)`: nil on an error.
abbrev pub or_nil : Result ℤ → Option ℤ
or_nil (ok p) = some p
or_nil (err e) = none

-- The key of a closing or updating event, and of one for a limit order.
abbrev pub event_key : Event → ℤ → TradeKey
event_key e i = record { trader = e.trader; pair_index = deref32 e.pair_index; trade_index = i }

abbrev pub event_limit_key : Event → ℤ → LimitKey
event_limit_key e i = record {
  trader = e.trader;
  pair_index = deref32 e.pair_index;
  limit_index = i;
}

-- The entry that `opened` writes, with the threshold of 90 percent and no fees.
unfoldable pub opened_entry : Text → Trade → ℤ → TradeEntry
opened_entry trader t i = record {
  key = record { trader = trader; pair_index = pos t.pair_index; trade_index = i };
  is_long = t.is_long;
  leverage = t.leverage;
  collateral = t.collateral;
  open_price = t.open_price;
  acc_rollover_open = t.acc_rollover_open;
  acc_funding_open = t.acc_funding_open;
  liq_threshold_p = 90;
  liq_price =
      or_nil (liquidation_price t.open_price t.is_long t.collateral t.leverage none none 90);
  tp_price = t.tp_price;
  sl_price = t.sl_price;
}

unfoldable pub placed_entry : Text → LimitOrder → ℤ → LimitEntry
placed_entry trader l i = record {
  key = record { trader = trader; pair_index = pos l.pair_index; limit_index = i };
  is_long = l.is_long;
  limit_price = l.limit_price;
}

unfoldable pub add_trade : TradeEntry → TradeState → TradeState
add_trade t s = record s { trades = insert t.key t s.trades }

unfoldable pub add_limit : LimitEntry → TradeState → TradeState
add_limit l s = record s { limits = insert l.key l s.limits }

unfoldable pub remove : TradeKey → TradeState → TradeState
remove k s = record s { trades = erase k s.trades }

unfoldable pub remove_limit : LimitKey → TradeState → TradeState
remove_limit k s = record s { limits = erase k s.limits }

-- `if e.TpPrice != nil { t.TpPrice = e.TpPrice }`
abbrev pub or_keep : Option ℤ → Option ℤ → Option ℤ
or_keep none old = old
or_keep (some z) old = some z

-- A write through the pointer that the map holds under `k`.
unfoldable pub set_tp_sl : TradeKey → Option ℤ → Option ℤ → TradeState → TradeState
set_tp_sl k tp sl s = elim (lookup k s.trades) [
  | none ↦ s
  | some t ↦ record s {
    trades =
        insert k (record t { tp_price = or_keep tp t.tp_price; sl_price = or_keep sl t.sl_price })
          s.trades;
  }
]

unfoldable pub set_limit_price : LimitKey → Option ℤ → TradeState → TradeState
set_limit_price k none s = s
set_limit_price k (some p) s = elim (lookup k s.limits) [
  | none ↦ s
  | some l ↦ record s { limits = insert k (record l { limit_price = some p }) s.limits }
]

-- An update for an event that carries its index; without one nothing happens.
-- The two kinds of entry are written through `with_trade` and `with_limit` alike.
abbrev pub with_index : Option ℤ → (ℤ → TradeState → TradeState) → TradeState → TradeState
with_index none f s = s
with_index (some i) f s = f i s

abbrev pub with_trade : Option Trade → (Trade → TradeState → TradeState) → TradeState → TradeState
with_trade none f s = s
with_trade (some t) f s = f t s

abbrev pub with_limit :
    Option LimitOrder → (LimitOrder → TradeState → TradeState) → TradeState → TradeState
with_limit none f s = s
with_limit (some l) f s = f l s

-- The switch of `Apply`.
unfoldable pub apply_topic : PmTopic → Event → TradeState → TradeState
unfolding opened_entry placed_entry
apply_topic opened e s =
    with_trade e.trade (λ t. with_index e.trade_index (λ i. add_trade (opened_entry e.trader t i)))
      s
apply_topic closed e s = with_index e.trade_index (λ i. remove (event_key e i)) s
apply_topic liq e s = with_index e.trade_index (λ i. remove (event_key e i)) s
apply_topic tp_sl_executed e s = with_index e.trade_index (λ i. remove (event_key e i)) s
apply_topic updated_tp_sl e s =
    with_index e.trade_index (λ i. set_tp_sl (event_key e i) e.tp_price e.sl_price) s
apply_topic placed e s =
    with_limit e.limit (λ l. with_index e.limit_index (λ i. add_limit (placed_entry e.trader l i)))
      s
apply_topic executed e s = with_index e.limit_index (λ i. remove_limit (event_limit_key e i)) s
apply_topic canceled e s = with_index e.limit_index (λ i. remove_limit (event_limit_key e i)) s
apply_topic updated_limit e s =
    with_index e.limit_index (λ i. set_limit_price (event_limit_key e i) e.limit_price) s
apply_topic PmTopic.other e s = s

unfoldable pub apply : Event → TradeState → TradeState
apply e s = apply_topic (pm_topic e.topic) e s

-- `SubscribeRedis` applies each event of the channel in turn.
unfoldable pub apply_all : List Event → TradeState → TradeState
apply_all [] s = s
apply_all (e ∷ es) s = apply_all es (apply e s)

-- `FeeState` hands out a copy.
unfoldable pub fee_state : ℤ → TradeState → Option PairFeeState
fee_state pair s = lookup pair s.fees

abbrev pub values {ℓ κ} : {K : Type ℓ} {V : Type κ} → Map K V → List V
values [] = []
values ((k, v) ∷ m) = v ∷ values m

unfoldable pub get_trades_for_pair : ℤ → TradeState → List TradeEntry
get_trades_for_pair pair s = keep (λ t. t.key.pair_index == pair) (values s.trades)

unfoldable pub get_limits_for_pair : ℤ → TradeState → List LimitEntry
get_limits_for_pair pair s = keep (λ l. l.key.pair_index == pair) (values s.limits)

unfoldable pub count : TradeState → ℕ
count s = length s.trades
