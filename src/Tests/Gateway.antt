-- ===== src/Tests/Gateway.antt =====
-- Tests of the WebSocket gateway: each theorem at a concrete cache or hub.
use lumen_liquid_backend.Base.{
  ◌≡◌, refl, true, false, ◌&&◌, none, some, [], ◌∷◌, text_eq, text_beq, replicate,
}
use lumen_liquid_backend.Base.Int.{pos, ◌-ℤ◌, ◌*ℤ◌, quo}
use lumen_liquid_backend.Base.Text.{codes, print_ℤ}
use lumen_liquid_backend.Base.Assoc.{lookup}
use lumen_liquid_backend.Events.{Event, pm, empty_event, pm_topic}
use lumen_liquid_backend.Keeper.Math.{
  liquidation_price, liq_distance, liq_numer, rollover_fee_for_trade, funding_fee_for_trade,
}
use lumen_liquid_backend.Keeper.State.{TradeEntry, PairFeeState, apply, new_trade_state}
use lumen_liquid_backend.Keeper.Detector.{current_liquidation_price}
use lumen_liquid_backend.Wsgateway.Cache.{
  CachedTrade, CachedLimit, TradeCache, slot_beq, apply_event, event_slot, list_of,
}
use lumen_liquid_backend.Wsgateway.Cache.Redelivery.{
  IsCache, renotifies, apply_event-again, apply_event-IsCache,
}
use lumen_liquid_backend.Wsgateway.Cache.Legacy.{shown, updated_limit-shown}
use lumen_liquid_backend.Wsgateway.Fees.{PairFeeSnapshot, set_dynamic_trade_fees}
use lumen_liquid_backend.Wsgateway.Fees.Shown.{IsShown, IsStored, shown_level}
use lumen_liquid_backend.Wsgateway.Hub.{Hub, new_send, broadcast, subscribers}
use lumen_liquid_backend.Wsgateway.Hub.Broadcast.{Delivered, broadcast-Delivered}
use lumen_liquid_backend.Wsgateway.Hub.Overflow.{overflow_panics}
use lumen_liquid_backend.Tests.{alice, a_key, opened_event}

abbrev empty_cache : TradeCache
empty_cache = record { trades = []; limits = []; pairs = [] }

empty-IsCache : IsCache empty_cache
empty-IsCache = record { trades_unique = tt; limits_unique = tt }

abbrev one_trade : TradeCache
one_trade = (apply_event opened_event empty_cache).0

abbrev retargeting : Event
retargeting = record opened_event {
  topic = codes "updated_tp_sl";
  trade = none;
  tp_price = some (pos 70_000);
  sl_price = some (pos 49_000);
}

apply_event-IsCache_example : IsCache one_trade
apply_event-IsCache_example = apply_event-IsCache opened_event empty_cache empty-IsCache

apply_event-again_example : apply_event retargeting (apply_event retargeting one_trade).0 ≡ (
  (apply_event retargeting one_trade).0,
  renotifies (pm_topic (codes "updated_tp_sl")) && (apply_event retargeting one_trade).1,
)
apply_event-again_example =
    apply_event-again retargeting one_trade
      (apply_event-IsCache opened_event empty_cache empty-IsCache)

abbrev a_limit : CachedLimit
a_limit = record {
  trader = alice;
  pair_index = pos 1;
  limit_index = pos 4;
  is_long = true;
  leverage = 5;
  collateral = codes "1000";
  limit_price = codes "48000";
  tp_price = codes "0";
  sl_price = codes "0";
  placed_at = codes "t0";
}

abbrev one_limit : TradeCache
one_limit = record empty_cache { limits = (alice, a_limit ∷ []) ∷ [] }

-- An event in the old format: the index alone.
abbrev legacy_update : Event
legacy_update = record empty_event {
  source = pm;
  topic = codes "updated_limit";
  trader = alice;
  pair_index = some (pos 1);
  limit_index = some (pos 4);
}

updated_limit-shown_example :
    (shown
        (event_slot legacy_update (pos 4))
        (list_of (lookup alice (apply_event legacy_update one_limit).0.limits))
      ≡ some (codes "0"))
    × (legacy_update.limit_price ≡ none → apply legacy_update new_trade_state ≡ new_trade_state)
unfolding pm_topic lookup text_beq slot_beq
updated_limit-shown_example =
    updated_limit-shown legacy_update one_limit new_trade_state (pos 4) refl refl refl refl

abbrev a_watched_trade : TradeEntry
a_watched_trade = record {
  key = a_key;
  is_long = true;
  leverage = 10;
  collateral = some (pos 1000);
  open_price = some (pos 50_000);
  acc_rollover_open = some (pos 0);
  acc_funding_open = some (pos 0);
  liq_threshold_p = 90;
  liq_price = some (pos 45_500);
  tp_price = some (pos 60_000);
  sl_price = some (pos 48_000);
}

abbrev a_cached_trade : CachedTrade
a_cached_trade = record {
  trader = alice;
  pair_index = pos 1;
  trade_index = pos 0;
  is_long = true;
  leverage = 10;
  collateral = print_ℤ (pos 1000);
  open_price = print_ℤ (pos 50_000);
  acc_rollover_open = print_ℤ (pos 0);
  acc_funding_open = print_ℤ (pos 0);
  tp_price = print_ℤ (pos 60_000);
  sl_price = print_ℤ (pos 48_000);
  liq_price = print_ℤ (pos 45_500);
  current_liq_price = print_ℤ (pos 45_500);
  rollover_fee = codes "0";
  funding_fee = codes "0";
  opened_at = codes "t1";
}

abbrev fees : PairFeeState
fees = record {
  pair_index = pos 1;
  acc_rollover = some (pos 1_000_000);
  acc_funding_long = some (pos 0);
  acc_funding_short = some (pos 0);
  projected_at_ledger = 7;
}

abbrev fee_row : PairFeeSnapshot
fee_row = record {
  liq_threshold_p = 90;
  acc_rollover = print_ℤ (pos 1_000_000);
  acc_funding_long = print_ℤ (pos 0);
  acc_funding_short = print_ℤ (pos 0);
}

is_shown : IsShown a_cached_trade a_watched_trade
is_shown = record {
  price = pos 50_000;
  collat = pos 1000;
  roll = pos 0;
  fund = pos 0;
  price_shown = refl;
  price_known = refl;
  collat_shown = refl;
  collat_known = refl;
  roll_shown = refl;
  roll_known = refl;
  fund_shown = refl;
  fund_known = refl;
  side = refl;
  same_leverage = refl;
}

is_stored : IsStored fee_row fees 90
is_stored = record {
  roll = pos 1_000_000;
  long = pos 0;
  short = pos 0;
  roll_shown = refl;
  roll_known = refl;
  long_shown = refl;
  long_known = refl;
  short_shown = refl;
  short_known = refl;
  threshold = refl;
}

shown_level_example :
    (set_dynamic_trade_fees fee_row a_cached_trade).current_liq_price ≡ print_ℤ (pos 46_000)
unfolding current_liquidation_price liquidation_price liq_distance liq_numer rollover_fee_for_trade
    funding_fee_for_trade ◌-ℤ◌ ◌*ℤ◌ quo
shown_level_example =
    shown_level a_cached_trade a_watched_trade fee_row fees (pos 46_000) is_shown is_stored refl

abbrev two_clients : Hub
two_clients = record {
  clients = λ c. true;
  sends = λ c. new_send;
  subscriptions = (codes "trades:all", 1 ∷ 2 ∷ []) ∷ [];
}

broadcast-Delivered_example :
    (k : Hub) × ((broadcast (codes "trades:all") (codes "snapshot") two_clients ≡ some k)
      × Delivered (subscribers (codes "trades:all") two_clients) (codes "snapshot") two_clients k)
unfolding lookup text_beq
broadcast-Delivered_example =
    broadcast-Delivered (codes "trades:all") (codes "snapshot") two_clients (refl, (refl, tt))
      (λ d m. refl)

-- Nobody reads the queue of any client.
abbrev stalled : Hub
stalled = record two_clients {
  sends = λ c. record { queue = replicate 256 (codes "old"); closed = false };
}

overflow_panics_example :
    (k : Hub) × ((broadcast (codes "trades:all") (codes "first") stalled ≡ some k)
      × (broadcast (codes "trades:all") (codes "second") k ≡ none))
unfolding lookup text_beq
overflow_panics_example =
    overflow_panics (codes "trades:all") (codes "first") (codes "second") 2 stalled
      (refl, (refl, tt)) (λ d m. refl) refl refl
