-- ===== src/Keeper/State/Watch.antt =====
-- What the keeper watches, seen as a function from keys to entries: `Apply` changes it at one key
-- at most, in the way that the event says.
use mathlib.Core.Option
use lumen_liquid_backend.Base.{
  ◌≡◌, refl, ap, ◌∙◌, Option, none, some, arith, Option-cases, inl, inr, if◌then◌else◌, ◌==◌,
}
use lumen_liquid_backend.Base.Int.{ℤ}
use lumen_liquid_backend.Base.Assoc.{lookup, lookup-insert, lookup-erase}
use lumen_liquid_backend.Events.{
  Event, Trade, LimitOrder, PmTopic, pm_topic, opened, closed, placed, executed, canceled,
  updated_limit, updated_tp_sl, tp_sl_executed, liq,
}
use lumen_liquid_backend.Keeper.State.{
  TradeKey, LimitKey, TradeEntry, TradeState, trade_key_eq, trade_key_beq_iff, add_trade, add_limit,
  remove, remove_limit, set_tp_sl, set_limit_price, apply_topic, apply, opened_entry, event_key,
  event_limit_key, placed_entry, with_index, with_trade, with_limit,
}
use lumen_liquid_backend.Keeper.State.Replay.{retargeted, set_tp_sl-missing, set_tp_sl-found}

-- What an event does to the entry under one key.
abbrev pub watch_index : Option ℤ → (ℤ → Option TradeEntry) → Option TradeEntry → Option TradeEntry
watch_index none f old = old
watch_index (some i) f old = f i

abbrev pub watch_opened : Event → Option Trade → TradeKey → Option TradeEntry → Option TradeEntry
watch_opened e none j old = old
watch_opened e (some t) j old =
    watch_index e.trade_index
      (λ i. if (opened_entry e.trader t i).key == j then some (opened_entry e.trader t i) else old)
      old

abbrev pub watch_closed : Event → TradeKey → Option TradeEntry → Option TradeEntry
watch_closed e j old = watch_index e.trade_index (λ i. if event_key e i == j then none else old) old

abbrev pub watch : PmTopic → Event → TradeKey → Option TradeEntry → Option TradeEntry
watch opened e j old = watch_opened e e.trade j old
watch closed e j old = watch_closed e j old
watch liq e j old = watch_closed e j old
watch tp_sl_executed e j old = watch_closed e j old
watch updated_tp_sl e j old =
    watch_index e.trade_index
      (λ i. if event_key e i == j then Option.map (retargeted e.tp_price e.sl_price) old else old)
      old
watch t e j old = old

removed :
    (e : Event) (i : Option ℤ) (s : TradeState) (j : TradeKey)
    → lookup j (with_index i (λ k. remove (event_key e k)) s).trades
      ≡ watch_index i
          (λ k. if event_key e k == j then none else lookup j s.trades)
          (lookup j s.trades)
unfolding remove
removed e none s j = refl
removed e (some i) s j = lookup-erase (event_key e i) j s.trades

added :
    (e : Event) (t : Option Trade) (i : Option ℤ) (s : TradeState) (j : TradeKey)
    → lookup j
        (with_trade t (λ u. with_index i (λ k. add_trade (opened_entry e.trader u k))) s).trades
      ≡ elim t [
        | none ↦ lookup j s.trades
        | some u ↦
            watch_index i
              (λ k.
                if (opened_entry e.trader u k).key == j
                then some (opened_entry e.trader u k)
                else lookup j s.trades)
              (lookup j s.trades)
      ]
unfolding add_trade
added e none i s j = refl
added e (some t) none s j = refl
added e (some t) (some i) s j = lookup-insert (opened_entry e.trader t i).key j _ s.trades

retargets :
    (k j : TradeKey) (tp sl : Option ℤ) (s : TradeState)
    → lookup j (set_tp_sl k tp sl s).trades
      ≡ (if k == j then Option.map (retargeted tp sl) (lookup j s.trades) else lookup j s.trades)
retargets k j tp sl s = elim (Option-cases (lookup k s.trades)) [
  | inl missing ↦
      rw (set_tp_sl-missing k tp sl s missing) (ground (arith, missing, trade_key_beq_iff k j))
  | inr (t, found) ↦
      rw (set_tp_sl-found k tp sl s t found, lookup-insert k j (retargeted tp sl t) s.trades)
        (ground (arith, found, trade_key_beq_iff k j))
]

retargeted_at :
    (e : Event) (i : Option ℤ) (s : TradeState) (j : TradeKey)
    → lookup j (with_index i (λ k. set_tp_sl (event_key e k) e.tp_price e.sl_price) s).trades
      ≡ watch_index i
          (λ k.
            if event_key e k == j
            then Option.map (retargeted e.tp_price e.sl_price) (lookup j s.trades)
            else lookup j s.trades)
          (lookup j s.trades)
retargeted_at e none s j = refl
retargeted_at e (some i) s j = retargets (event_key e i) j e.tp_price e.sl_price s

limit_keeps_trades :
    (i : Option ℤ) (f : ℤ → TradeState → TradeState) (s : TradeState)
    → ((k : ℤ) → (f k s).trades ≡ s.trades)
    → (with_index i f s).trades ≡ s.trades
limit_keeps_trades none f s h = refl
limit_keeps_trades (some i) f s h = h i

set_limit_price-trades :
    (k : LimitKey) (p : Option ℤ) (s : TradeState) → (set_limit_price k p s).trades ≡ s.trades
unfolding set_limit_price
set_limit_price-trades k none s = refl
set_limit_price-trades k (some p) s = ground arith

placed_keeps_trades :
    (e : Event) (l : Option LimitOrder) (s : TradeState)
    → (with_limit l
        (λ u. with_index e.limit_index (λ i. add_limit (placed_entry e.trader u i)))
        s).trades
      ≡ s.trades
unfolding add_limit
placed_keeps_trades e none s = refl
placed_keeps_trades e (some l) s = limit_keeps_trades e.limit_index _ s (λ k. refl)

resolved_keeps_trades :
    (e : Event) (s : TradeState)
    → (with_index e.limit_index (λ i. remove_limit (event_limit_key e i)) s).trades ≡ s.trades
unfolding remove_limit
resolved_keeps_trades e s = limit_keeps_trades e.limit_index _ s (λ k. refl)

lookup-apply_topic :
    (t : PmTopic) (e : Event) (j : TradeKey) (s : TradeState)
    → lookup j (apply_topic t e s).trades ≡ watch t e j (lookup j s.trades)
unfolding apply_topic
lookup-apply_topic opened e j s = added e e.trade e.trade_index s j ∙ spelled e.trade
  where
    spelled :
        (t : Option Trade)
        → elim t [
          | none ↦ lookup j s.trades
          | some u ↦
              watch_index e.trade_index
                (λ k.
                  if (opened_entry e.trader u k).key == j
                  then some (opened_entry e.trader u k)
                  else lookup j s.trades)
                (lookup j s.trades)
        ]
          ≡ watch_opened e t j (lookup j s.trades)
    spelled none = refl
    spelled (some t) = refl
lookup-apply_topic closed e j s = removed e e.trade_index s j
lookup-apply_topic liq e j s = removed e e.trade_index s j
lookup-apply_topic tp_sl_executed e j s = removed e e.trade_index s j
lookup-apply_topic updated_tp_sl e j s = retargeted_at e e.trade_index s j
lookup-apply_topic placed e j s = ap (lookup j) (placed_keeps_trades e e.limit s)
lookup-apply_topic executed e j s = ap (lookup j) (resolved_keeps_trades e s)
lookup-apply_topic canceled e j s = ap (lookup j) (resolved_keeps_trades e s)
lookup-apply_topic updated_limit e j s = ap (lookup j) (
    limit_keeps_trades e.limit_index _ s
      (λ k. set_limit_price-trades (event_limit_key e k) e.limit_price s))
lookup-apply_topic PmTopic.other e j s = refl

-- Under every key the trade that is watched after an event is the one that `watch` gives: `opened`
-- writes the new entry, `closed`, `liq` and `tp_sl_executed` remove it, `updated_tp_sl` replaces
-- the targets that it carries, each at the event's key only; every other topic leaves all trades.
pub lookup-apply :
    (e : Event) (j : TradeKey) (s : TradeState)
    → lookup j (apply e s).trades ≡ watch (pm_topic e.topic) e j (lookup j s.trades)
unfolding apply
lookup-apply e j s = lookup-apply_topic (pm_topic e.topic) e j s
