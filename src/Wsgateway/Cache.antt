-- ===== src/Wsgateway/Cache.antt =====
-- internal/wsgateway/cache.go: the open trades and limit orders of each trader, as texts for the
-- clients. The lock makes each method one step; the callback `onChange` is the returned flag, and
-- JSON is left out, so an event arrives decoded and a snapshot is a record.
pub mod Entries
pub mod Redelivery
pub mod Legacy
pub mod Load
pub mod Snapshot
use lumen_liquid_backend.Base.{
  ℕ, Bool, true, false, ◌||◌, Option, none, some, List, [], ◌∷◌, ◌++◌, if◌then◌else◌, Eq, ◌==◌,
  text_eq, keep, any, arith, ◌≡◌, ◌↔◌, ◌&&◌,
}
use lumen_liquid_backend.Base.Int.{ℤ, pos, int_eq, int_beq_iff}
use lumen_liquid_backend.Base.Text.{Text, codes, print_ℤ}
use lumen_liquid_backend.Base.Assoc.{Map, lookup, insert}
use lumen_liquid_backend.Keeper.Math.{Result, liquidation_price}
use lumen_liquid_backend.Keeper.State.{or_nil, deref32, values}
use lumen_liquid_backend.Events.{
  Event, Source, pm, vault, registry, unknown, Trade, LimitOrder, PmTopic, pm_topic, opened, closed,
  placed, executed, canceled, updated_limit, updated_tp_sl, tp_sl_executed, liq,
}
use lumen_liquid_backend.Wsgateway.Slices.{has_key, remove_first, update_first}

pub record CachedTrade : Type 0 where
  pub trader : Text
  pub pair_index : ℤ
  pub trade_index : ℤ
  pub is_long : Bool
  pub leverage : ℕ
  pub collateral : Text
  pub open_price : Text
  pub acc_rollover_open : Text
  pub acc_funding_open : Text
  pub tp_price : Text
  pub sl_price : Text
  pub liq_price : Text
  pub current_liq_price : Text
  pub rollover_fee : Text
  pub funding_fee : Text
  pub opened_at : Text

pub record CachedLimit : Type 0 where
  pub trader : Text
  pub pair_index : ℤ
  pub limit_index : ℤ
  pub is_long : Bool
  pub leverage : ℕ
  pub collateral : Text
  pub limit_price : Text
  pub tp_price : Text
  pub sl_price : Text
  pub placed_at : Text

pub record CachedPair : Type 0 where
  pub pair_index : ℤ
  pub symbol : Text
  pub min_leverage : ℕ
  pub max_leverage : ℕ
  pub liq_threshold_p : ℕ
  pub disabled : Bool

pub record TradeCache : Type 0 where
  pub trades : Map Text (List CachedTrade)
  pub limits : Map Text (List CachedLimit)
  pub pairs : Map ℤ CachedPair

-- The pair and the index within it, by which the loops find an entry.
pub record Slot : Type 0 where
  pub pair_index : ℤ
  pub index : ℤ

unfoldable pub slot_beq : Slot → Slot → Bool
slot_beq a b = a.pair_index == b.pair_index && a.index == b.index

pub slot_beq_iff : (a b : Slot) → (slot_beq a b ≡ true) ↔ (a ≡ b)
unfolding slot_beq
slot_beq_iff a b =
    ground (arith, int_beq_iff a.pair_index b.pair_index, int_beq_iff a.index b.index)

instance abbrev pub slot_eq : Eq Slot
slot_eq = record { test = slot_beq; test_iff = slot_beq_iff }

abbrev pub trade_slot : CachedTrade → Slot
trade_slot t = record { pair_index = t.pair_index; index = t.trade_index }

abbrev pub limit_slot : CachedLimit → Slot
limit_slot l = record { pair_index = l.pair_index; index = l.limit_index }

-- `bigStr`
abbrev pub big_str : Option ℤ → Text
big_str none = codes "0"
big_str (some z) = print_ℤ z

unfoldable pub build_trade : Event → Trade → ℤ → CachedTrade
build_trade e t i =
    let liq =
      or_nil (liquidation_price t.open_price t.is_long t.collateral t.leverage none none 90) in
    record {
      trader = e.trader;
      pair_index = pos t.pair_index;
      trade_index = i;
      is_long = t.is_long;
      leverage = t.leverage;
      collateral = big_str t.collateral;
      open_price = big_str t.open_price;
      acc_rollover_open = big_str t.acc_rollover_open;
      acc_funding_open = big_str t.acc_funding_open;
      tp_price = big_str t.tp_price;
      sl_price = big_str t.sl_price;
      liq_price = big_str liq;
      current_liq_price = big_str liq;
      rollover_fee = codes "0";
      funding_fee = codes "0";
      opened_at = e.occurred_at;
    }

unfoldable pub build_limit : Event → LimitOrder → ℤ → CachedLimit
build_limit e l i = record {
  trader = e.trader;
  pair_index = pos l.pair_index;
  limit_index = i;
  is_long = l.is_long;
  leverage = l.leverage;
  collateral = big_str l.collateral;
  limit_price = big_str l.limit_price;
  tp_price = big_str l.tp_price;
  sl_price = big_str l.sl_price;
  placed_at = e.occurred_at;
}

-- `m[trader]`: no list is the empty list.
abbrev pub list_of {ℓ} : {A : Type ℓ} → Option (List A) → List A
list_of none = []
list_of (some xs) = xs

module _ {A : Type 0} (key : A → Slot) where
  -- Append an entry that is not there yet; the flag says whether it was appended.
  unfoldable pub add_new : Text → A → Map Text (List A) → Map Text (List A) × Bool
  add_new trader x m =
      if has_key key (key x) (list_of (lookup trader m))
      then (m, false)
      else (insert trader (list_of (lookup trader m) ++ x ∷ []) m, true)

  abbrev write_back : Text → Map Text (List A) → Option (List A) → Map Text (List A) × Bool
  write_back trader m none = (m, false)
  write_back trader m (some xs) = (insert trader xs m, true)

  -- `removeTrade` and `removeLimit`
  unfoldable pub remove_entry : Text → Slot → Map Text (List A) → Map Text (List A) × Bool
  remove_entry trader k m = write_back trader m (remove_first key k (list_of (lookup trader m)))

  -- `updateTradeTpSl` and `updateLimit`
  unfoldable pub update_entry : (A → A) → Text → Slot → Map Text (List A) → Map Text (List A) × Bool
  update_entry f trader k m = write_back trader m (update_first key f k (list_of (lookup trader m)))

abbrev pub set_targets : Text → Text → CachedTrade → CachedTrade
set_targets tp sl t = record t { tp_price = tp; sl_price = sl }

abbrev pub set_prices : Text → Text → Text → CachedLimit → CachedLimit
set_prices price tp sl l = record l { limit_price = price; tp_price = tp; sl_price = sl }

abbrev pub event_slot : Event → ℤ → Slot
event_slot e i = record { pair_index = deref32 e.pair_index; index = i }

-- The changed map goes back into the cache.
abbrev pub put_trades : TradeCache → Map Text (List CachedTrade) × Bool → TradeCache × Bool
put_trades c (m, changed) = (record c { trades = m }, changed)

abbrev pub put_limits : TradeCache → Map Text (List CachedLimit) × Bool → TradeCache × Bool
put_limits c (m, changed) = (record c { limits = m }, changed)

-- The cases of the switch; without the fields that a case needs, nothing changes.
abbrev pub cache_opened : Event → Option Trade → Option ℤ → TradeCache → TradeCache × Bool
cache_opened e none i c = (c, false)
cache_opened e (some t) none c = (c, false)
cache_opened e (some t) (some i) c =
    put_trades c (add_new trade_slot e.trader (build_trade e t i) c.trades)

abbrev pub cache_closed : Event → Option ℤ → TradeCache → TradeCache × Bool
cache_closed e none c = (c, false)
cache_closed e (some i) c =
    put_trades c (remove_entry trade_slot e.trader (event_slot e i) c.trades)

abbrev pub cache_tp_sl : Event → Option ℤ → Option ℤ → Option ℤ → TradeCache → TradeCache × Bool
cache_tp_sl e none tp sl c = (c, false)
cache_tp_sl e (some i) none sl c = (c, false)
cache_tp_sl e (some i) (some tp) none c = (c, false)
cache_tp_sl e (some i) (some tp) (some sl) c = put_trades c (
    update_entry trade_slot (set_targets (print_ℤ tp) (print_ℤ sl)) e.trader (event_slot e i)
      c.trades)

abbrev pub cache_placed : Event → Option LimitOrder → Option ℤ → TradeCache → TradeCache × Bool
cache_placed e none i c = (c, false)
cache_placed e (some l) none c = (c, false)
cache_placed e (some l) (some i) c =
    put_limits c (add_new limit_slot e.trader (build_limit e l i) c.limits)

abbrev pub cache_resolved : Event → Option ℤ → TradeCache → TradeCache × Bool
cache_resolved e none c = (c, false)
cache_resolved e (some i) c =
    put_limits c (remove_entry limit_slot e.trader (event_slot e i) c.limits)

abbrev pub cache_updated_limit : Event → Option ℤ → TradeCache → TradeCache × Bool
cache_updated_limit e none c = (c, false)
cache_updated_limit e (some i) c = put_limits c (
    update_entry limit_slot
      (set_prices (big_str e.limit_price) (big_str e.tp_price) (big_str e.sl_price)) e.trader
      (event_slot e i) c.limits)

unfoldable pub apply_event_topic : PmTopic → Event → TradeCache → TradeCache × Bool
apply_event_topic opened e c = cache_opened e e.trade e.trade_index c
apply_event_topic closed e c = cache_closed e e.trade_index c
apply_event_topic liq e c = cache_closed e e.trade_index c
apply_event_topic tp_sl_executed e c = cache_closed e e.trade_index c
apply_event_topic updated_tp_sl e c = cache_tp_sl e e.trade_index e.tp_price e.sl_price c
apply_event_topic placed e c = cache_placed e e.limit e.limit_index c
apply_event_topic executed e c = cache_resolved e e.limit_index c
apply_event_topic canceled e c = cache_resolved e e.limit_index c
apply_event_topic updated_limit e c = cache_updated_limit e e.limit_index c
apply_event_topic PmTopic.other e c = (c, false)

unfoldable pub apply_source : Source → Event → TradeCache → TradeCache × Bool
apply_source pm e c = apply_event_topic (pm_topic e.topic) e c
apply_source vault e c = (c, false)
apply_source registry e c = (c, false)
apply_source unknown e c = (c, false)

-- `applyEvent`; the flag says that subscribers of the event's trader are notified.
unfoldable pub apply_event : Event → TradeCache → TradeCache × Bool
apply_event e c = apply_source e.source e c
