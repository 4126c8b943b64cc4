-- ===== src/Keeper/State/Replay.antt =====
-- Delivery twice: an event that is applied again changes nothing, and a closed trade is gone.
use lumen_liquid_backend.Base.{◌≡◌, refl, Option, none, some, Option-cases, inl, inr, ap}
use lumen_liquid_backend.Base.Int.{ℤ}
use lumen_liquid_backend.Base.Assoc.{lookup, insert, lookup-insert_self, insert-insert, erase-erase}
use lumen_liquid_backend.Events.{
  Event, Trade, LimitOrder, PmTopic, pm_topic, opened, closed, placed, executed, canceled,
  updated_limit, updated_tp_sl, tp_sl_executed, liq,
}
use lumen_liquid_backend.Keeper.State.{
  TradeKey, LimitKey, TradeEntry, LimitEntry, TradeState, trade_key_eq, limit_key_eq, add_trade,
  add_limit, remove, remove_limit, set_tp_sl, set_limit_price, apply_topic, apply, opened_entry,
  placed_entry, event_key, event_limit_key, with_index, with_trade, with_limit, or_keep,
}

-- Doing it again changes nothing.
abbrev Idem : (TradeState → TradeState) → Type 0
Idem f = (s : TradeState) → f (f s) ≡ f s

add_trade-Idem : (t : TradeEntry) → Idem (add_trade t)
unfolding add_trade
add_trade-Idem t s = rw (insert-insert t.key t t s.trades)

add_limit-Idem : (l : LimitEntry) → Idem (add_limit l)
unfolding add_limit
add_limit-Idem l s = rw (insert-insert l.key l l s.limits)

remove-Idem : (k : TradeKey) → Idem (remove k)
unfolding remove
remove-Idem k s = rw (erase-erase k s.trades)

remove_limit-Idem : (k : LimitKey) → Idem (remove_limit k)
unfolding remove_limit
remove_limit-Idem k s = rw (erase-erase k s.limits)

or_keep_twice : (new old : Option ℤ) → or_keep new (or_keep new old) ≡ or_keep new old
or_keep_twice none old = refl
or_keep_twice (some z) old = refl

-- What `set_tp_sl` writes under a key that holds `t`.
abbrev pub retargeted : Option ℤ → Option ℤ → TradeEntry → TradeEntry
retargeted tp sl t = record t { tp_price = or_keep tp t.tp_price; sl_price = or_keep sl t.sl_price }

pub set_tp_sl-missing :
    (k : TradeKey) (tp sl : Option ℤ) (s : TradeState)
    → lookup k s.trades ≡ none
    → set_tp_sl k tp sl s ≡ s
set_tp_sl-missing k tp sl s missing = unfold set_tp_sl in rw (missing, set_tp_sl)

pub set_tp_sl-found :
    (k : TradeKey) (tp sl : Option ℤ) (s : TradeState) (t : TradeEntry)
    → lookup k s.trades ≡ some t
    → set_tp_sl k tp sl s ≡ record s { trades = insert k (retargeted tp sl t) s.trades }
unfolding set_tp_sl
set_tp_sl-found k tp sl s t found = rw (found, set_tp_sl)

retargeted_twice :
    (tp sl : Option ℤ) (t : TradeEntry) → retargeted tp sl (retargeted tp sl t) ≡ retargeted tp sl t
retargeted_twice none none t = refl
retargeted_twice none (some z) t = refl
retargeted_twice (some y) none t = refl
retargeted_twice (some y) (some z) t = refl

set_tp_sl-Idem : (k : TradeKey) (tp sl : Option ℤ) → Idem (set_tp_sl k tp sl)
set_tp_sl-Idem k tp sl s = elim (Option-cases (lookup k s.trades)) [
  | inl missing ↦ ap (set_tp_sl k tp sl) (set_tp_sl-missing k tp sl s missing)
  | inr (t, found) ↦ rw (set_tp_sl-found k tp sl s t found) (
      rw (
        set_tp_sl-found k tp sl (record s { trades = insert k (retargeted tp sl t) s.trades })
            (retargeted tp sl t) (lookup-insert_self k (retargeted tp sl t) s.trades),
        retargeted_twice tp sl t,
        insert-insert k (retargeted tp sl t) (retargeted tp sl t) s.trades,
      ))
]

set_limit_price-found :
    (k : LimitKey) (p : ℤ) (s : TradeState) (l : LimitEntry)
    → lookup k s.limits ≡ some l
    → set_limit_price k (some p) s
      ≡ record s { limits = insert k (record l { limit_price = some p }) s.limits }
unfolding set_limit_price
set_limit_price-found k p s l found = rw (found, set_limit_price)

set_limit_price-missing :
    (k : LimitKey) (p : ℤ) (s : TradeState)
    → lookup k s.limits ≡ none
    → set_limit_price k (some p) s ≡ s
unfolding set_limit_price
set_limit_price-missing k p s missing = rw (missing, set_limit_price)

set_limit_price-Idem : (k : LimitKey) (p : Option ℤ) → Idem (set_limit_price k p)
set_limit_price-Idem k none s = unfold set_limit_price in refl
set_limit_price-Idem k (some p) s = elim (Option-cases (lookup k s.limits)) [
  | inl missing ↦ ap (set_limit_price k (some p)) (set_limit_price-missing k p s missing)
  | inr (l, found) ↦ rw (set_limit_price-found k p s l found) (
      rw (
        set_limit_price-found k p
            (record s { limits = insert k (record l { limit_price = some p }) s.limits })
            (record l { limit_price = some p })
            (lookup-insert_self k (record l { limit_price = some p }) s.limits),
        insert-insert k (record l { limit_price = some p }) (record l { limit_price = some p })
            s.limits,
      ))
]

with_index-Idem :
    (i : Option ℤ) (f : ℤ → TradeState → TradeState)
    → ((j : ℤ) → Idem (f j))
    → Idem (with_index i f)
with_index-Idem none f h s = refl
with_index-Idem (some i) f h s = h i s

with_trade-Idem :
    (t : Option Trade) (f : Trade → TradeState → TradeState)
    → ((u : Trade) → Idem (f u))
    → Idem (with_trade t f)
with_trade-Idem none f h s = refl
with_trade-Idem (some t) f h s = h t s

with_limit-Idem :
    (l : Option LimitOrder) (f : LimitOrder → TradeState → TradeState)
    → ((u : LimitOrder) → Idem (f u))
    → Idem (with_limit l f)
with_limit-Idem none f h s = refl
with_limit-Idem (some l) f h s = h l s

apply_topic-Idem : (t : PmTopic) (e : Event) → Idem (apply_topic t e)
unfolding apply_topic
apply_topic-Idem opened e =
    with_trade-Idem e.trade _
      (λ t. with_index-Idem e.trade_index _ (λ i. add_trade-Idem (opened_entry e.trader t i)))
apply_topic-Idem closed e = with_index-Idem e.trade_index _ (λ i. remove-Idem (event_key e i))
apply_topic-Idem liq e = with_index-Idem e.trade_index _ (λ i. remove-Idem (event_key e i))
apply_topic-Idem tp_sl_executed e =
    with_index-Idem e.trade_index _ (λ i. remove-Idem (event_key e i))
apply_topic-Idem updated_tp_sl e =
    with_index-Idem e.trade_index _ (λ i. set_tp_sl-Idem (event_key e i) e.tp_price e.sl_price)
apply_topic-Idem placed e =
    with_limit-Idem e.limit _
      (λ l. with_index-Idem e.limit_index _ (λ i. add_limit-Idem (placed_entry e.trader l i)))
apply_topic-Idem executed e =
    with_index-Idem e.limit_index _ (λ i. remove_limit-Idem (event_limit_key e i))
apply_topic-Idem canceled e =
    with_index-Idem e.limit_index _ (λ i. remove_limit-Idem (event_limit_key e i))
apply_topic-Idem updated_limit e =
    with_index-Idem e.limit_index _ (λ i. set_limit_price-Idem (event_limit_key e i) e.limit_price)
apply_topic-Idem PmTopic.other e = λ s. refl

-- An event that is delivered twice in a row leaves the same state as one delivery, whatever the
-- event and the state.
pub apply-apply : (e : Event) (s : TradeState) → apply e (apply e s) ≡ apply e s
unfolding apply
apply-apply e s = apply_topic-Idem (pm_topic e.topic) e s
