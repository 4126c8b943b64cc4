-- ===== src/Wsgateway/Cache/Redelivery.antt =====
-- The cache of internal/wsgateway/cache.go under a second delivery of the same event.
use lumen_liquid_backend.Base.{
  ◌≡◌, refl, sym, ap, Bool, true, false, ◌&&◌, Option, none, some, text_eq,
}
use lumen_liquid_backend.Base.Int.{ℤ}
use lumen_liquid_backend.Base.Text.{print_ℤ}
use lumen_liquid_backend.Events.{
  Event, Source, pm, vault, registry, unknown, Trade, LimitOrder, PmTopic, pm_topic, opened, closed,
  placed, executed, canceled, updated_limit, updated_tp_sl, tp_sl_executed, liq,
}
use lumen_liquid_backend.Wsgateway.Cache.Entries.{
  AllUnique, add_new-AllUnique, add_new-again, remove_entry-AllUnique, remove_entry-again,
  update_entry-AllUnique, update_entry-again,
}
use lumen_liquid_backend.Wsgateway.Cache.{
  TradeCache, trade_slot, limit_slot, set_targets, set_prices, event_slot, cache_opened,
  cache_closed, cache_tp_sl, cache_placed, cache_resolved, cache_updated_limit, put_trades,
  put_limits, apply_event_topic, apply_source, apply_event, build_trade, build_limit, big_str,
}

-- No trader has a trade or a limit order twice.
pub record IsCache (c : TradeCache) : Type 0 where
  pub trades_unique : AllUnique trade_slot c.trades
  pub limits_unique : AllUnique limit_slot c.limits

-- The topics on which a second delivery notifies again.
abbrev pub renotifies : PmTopic → Bool
renotifies updated_tp_sl = true
renotifies updated_limit = true
renotifies t = false

-- The second delivery: the cache stays, and the flag is up again only on those topics.
abbrev Again : Bool → (TradeCache → TradeCache × Bool) → TradeCache → Type 0
Again again f c = f (f c).0 ≡ ((f c).0, again && (f c).1)

opened-Again :
    (e : Event) (t : Option Trade) (i : Option ℤ) (c : TradeCache)
    → Again false (cache_opened e t i) c
opened-Again e none i c = refl
opened-Again e (some t) none c = refl
opened-Again e (some t) (some i) c =
    ap (put_trades c) (add_new-again trade_slot e.trader (build_trade e t i) c.trades)

closed-Again :
    (e : Event) (i : Option ℤ) (c : TradeCache) → IsCache c → Again false (cache_closed e i) c
closed-Again e none c u = refl
closed-Again e (some i) c u =
    ap (put_trades c)
      (remove_entry-again trade_slot e.trader (event_slot e i) c.trades u.trades_unique)

tp_sl-Again :
    (e : Event) (i tp sl : Option ℤ) (c : TradeCache) → Again true (cache_tp_sl e i tp sl) c
tp_sl-Again e none tp sl c = refl
tp_sl-Again e (some i) none sl c = refl
tp_sl-Again e (some i) (some tp) none c = refl
tp_sl-Again e (some i) (some tp) (some sl) c = ap (put_trades c) (
    update_entry-again trade_slot (set_targets (print_ℤ tp) (print_ℤ sl)) (λ t. refl) (λ t. refl)
      e.trader (event_slot e i) c.trades)

placed-Again :
    (e : Event) (l : Option LimitOrder) (i : Option ℤ) (c : TradeCache)
    → Again false (cache_placed e l i) c
placed-Again e none i c = refl
placed-Again e (some l) none c = refl
placed-Again e (some l) (some i) c =
    ap (put_limits c) (add_new-again limit_slot e.trader (build_limit e l i) c.limits)

resolved-Again :
    (e : Event) (i : Option ℤ) (c : TradeCache) → IsCache c → Again false (cache_resolved e i) c
resolved-Again e none c u = refl
resolved-Again e (some i) c u =
    ap (put_limits c)
      (remove_entry-again limit_slot e.trader (event_slot e i) c.limits u.limits_unique)

updated_limit-Again :
    (e : Event) (i : Option ℤ) (c : TradeCache) → Again true (cache_updated_limit e i) c
updated_limit-Again e none c = refl
updated_limit-Again e (some i) c = ap (put_limits c) (
    update_entry-again limit_slot
      (set_prices (big_str e.limit_price) (big_str e.tp_price) (big_str e.sl_price)) (λ l. refl)
      (λ l. refl) e.trader (event_slot e i) c.limits)

topic-Again :
    (t : PmTopic) (e : Event) (c : TradeCache)
    → IsCache c
    → Again (renotifies t) (apply_event_topic t e) c
unfolding apply_event_topic
topic-Again opened e c u = opened-Again e e.trade e.trade_index c
topic-Again closed e c u = closed-Again e e.trade_index c u
topic-Again liq e c u = closed-Again e e.trade_index c u
topic-Again tp_sl_executed e c u = closed-Again e e.trade_index c u
topic-Again updated_tp_sl e c u = tp_sl-Again e e.trade_index e.tp_price e.sl_price c
topic-Again placed e c u = placed-Again e e.limit e.limit_index c
topic-Again executed e c u = resolved-Again e e.limit_index c u
topic-Again canceled e c u = resolved-Again e e.limit_index c u
topic-Again updated_limit e c u = updated_limit-Again e e.limit_index c
topic-Again PmTopic.other e c u = refl

opened-IsCache :
    (e : Event) (t : Option Trade) (i : Option ℤ) (c : TradeCache)
    → IsCache c
    → IsCache (cache_opened e t i c).0
opened-IsCache e none i c u = u
opened-IsCache e (some t) none c u = u
opened-IsCache e (some t) (some i) c u = record {
  trades_unique =
      add_new-AllUnique trade_slot e.trader (build_trade e t i) c.trades u.trades_unique;
  limits_unique = u.limits_unique;
}

closed-IsCache :
    (e : Event) (i : Option ℤ) (c : TradeCache) → IsCache c → IsCache (cache_closed e i c).0
closed-IsCache e none c u = u
closed-IsCache e (some i) c u = record {
  trades_unique =
      remove_entry-AllUnique trade_slot e.trader (event_slot e i) c.trades u.trades_unique;
  limits_unique = u.limits_unique;
}

tp_sl-IsCache :
    (e : Event) (i tp sl : Option ℤ) (c : TradeCache)
    → IsCache c
    → IsCache (cache_tp_sl e i tp sl c).0
tp_sl-IsCache e none tp sl c u = u
tp_sl-IsCache e (some i) none sl c u = u
tp_sl-IsCache e (some i) (some tp) none c u = u
tp_sl-IsCache e (some i) (some tp) (some sl) c u = record {
  trades_unique =
      update_entry-AllUnique trade_slot (set_targets (print_ℤ tp) (print_ℤ sl)) (λ t. refl)
        (λ t. refl) e.trader (event_slot e i) c.trades u.trades_unique;
  limits_unique = u.limits_unique;
}

placed-IsCache :
    (e : Event) (l : Option LimitOrder) (i : Option ℤ) (c : TradeCache)
    → IsCache c
    → IsCache (cache_placed e l i c).0
placed-IsCache e none i c u = u
placed-IsCache e (some l) none c u = u
placed-IsCache e (some l) (some i) c u = record {
  trades_unique = u.trades_unique;
  limits_unique =
      add_new-AllUnique limit_slot e.trader (build_limit e l i) c.limits u.limits_unique;
}

resolved-IsCache :
    (e : Event) (i : Option ℤ) (c : TradeCache) → IsCache c → IsCache (cache_resolved e i c).0
resolved-IsCache e none c u = u
resolved-IsCache e (some i) c u = record {
  trades_unique = u.trades_unique;
  limits_unique =
      remove_entry-AllUnique limit_slot e.trader (event_slot e i) c.limits u.limits_unique;
}

updated_limit-IsCache :
    (e : Event) (i : Option ℤ) (c : TradeCache) → IsCache c → IsCache (cache_updated_limit e i c).0
updated_limit-IsCache e none c u = u
updated_limit-IsCache e (some i) c u = record {
  trades_unique = u.trades_unique;
  limits_unique =
      update_entry-AllUnique limit_slot
        (set_prices (big_str e.limit_price) (big_str e.tp_price) (big_str e.sl_price)) (λ l. refl)
        (λ l. refl) e.trader (event_slot e i) c.limits u.limits_unique;
}

topic-IsCache :
    (t : PmTopic) (e : Event) (c : TradeCache) → IsCache c → IsCache (apply_event_topic t e c).0
unfolding apply_event_topic
topic-IsCache opened e c u = opened-IsCache e e.trade e.trade_index c u
topic-IsCache closed e c u = closed-IsCache e e.trade_index c u
topic-IsCache liq e c u = closed-IsCache e e.trade_index c u
topic-IsCache tp_sl_executed e c u = closed-IsCache e e.trade_index c u
topic-IsCache updated_tp_sl e c u = tp_sl-IsCache e e.trade_index e.tp_price e.sl_price c u
topic-IsCache placed e c u = placed-IsCache e e.limit e.limit_index c u
topic-IsCache executed e c u = resolved-IsCache e e.limit_index c u
topic-IsCache canceled e c u = resolved-IsCache e e.limit_index c u
topic-IsCache updated_limit e c u = updated_limit-IsCache e e.limit_index c u
topic-IsCache PmTopic.other e c u = u

no_flag : (b : Bool) → b && false ≡ false
no_flag true = refl
no_flag false = refl

source-Again :
    (s : Source) (e : Event) (c : TradeCache)
    → IsCache c
    → Again (renotifies (pm_topic e.topic)) (apply_source s e) c
unfolding apply_source
source-Again pm e c u = topic-Again (pm_topic e.topic) e c u
source-Again vault e c u = ap (λ b. (c, b)) (sym (no_flag (renotifies (pm_topic e.topic))))
source-Again registry e c u = ap (λ b. (c, b)) (sym (no_flag (renotifies (pm_topic e.topic))))
source-Again unknown e c u = ap (λ b. (c, b)) (sym (no_flag (renotifies (pm_topic e.topic))))

source-IsCache :
    (s : Source) (e : Event) (c : TradeCache) → IsCache c → IsCache (apply_source s e c).0
unfolding apply_source
source-IsCache pm e c u = topic-IsCache (pm_topic e.topic) e c u
source-IsCache vault e c u = u
source-IsCache registry e c u = u
source-IsCache unknown e c u = u

-- When an event is delivered twice in a row, the second delivery never changes the cache. It does not
-- notify either, except after
-- `updated_tp_sl` and `updated_limit`, where it notifies whenever the first delivery did.
pub apply_event-again :
    (e : Event) (c : TradeCache)
    → IsCache c
    → apply_event e (apply_event e c).0
      ≡ ((apply_event e c).0, renotifies (pm_topic e.topic) && (apply_event e c).1)
unfolding apply_event
apply_event-again e c u = source-Again e.source e c u

-- Every event keeps the cache free of doubles: no trader has a trade or a limit order twice.
pub apply_event-IsCache : (e : Event) (c : TradeCache) → IsCache c → IsCache (apply_event e c).0
unfolding apply_event
apply_event-IsCache e c u = source-IsCache e.source e c u
