-- ===== src/Keeper/State/Invariant.antt =====
-- What every history of events keeps in the keeper's state: each map key is the key of its entry,
-- and no key stands twice.
use lumen_liquid_backend.Base.{◌≡◌, refl, Option, none, some, List, [], ◌∷◌, Option-cases, inl, inr}
use lumen_liquid_backend.Base.Int.{ℤ}
use lumen_liquid_backend.Base.Assoc.{
  Distinct, Each, lookup, insert-Distinct, erase-Distinct, insert-Each, erase-Each, lookup-Each,
}
use lumen_liquid_backend.Events.{
  Event, Trade, LimitOrder, PmTopic, pm_topic, opened, closed, placed, executed, canceled,
  updated_limit, updated_tp_sl, tp_sl_executed, liq,
}
use lumen_liquid_backend.Keeper.State.{
  TradeKey, LimitKey, TradeEntry, LimitEntry, TradeState, new_trade_state, trade_key_eq,
  limit_key_eq, add_trade, add_limit, remove, remove_limit, set_tp_sl, set_limit_price, apply_topic,
  apply, apply_all, opened_entry, placed_entry, event_key, event_limit_key, with_index, with_trade,
  with_limit,
}

abbrev pub KeysTrade : TradeKey → TradeEntry → Type 0
KeysTrade k t = t.key ≡ k

abbrev KeysLimit : LimitKey → LimitEntry → Type 0
KeysLimit k l = l.key ≡ k

pub record IsKeyed (s : TradeState) : Type 0 where
  pub trades_distinct : Distinct s.trades
  pub trades_keyed : Each KeysTrade s.trades
  pub limits_distinct : Distinct s.limits
  pub limits_keyed : Each KeysLimit s.limits

add_trade-IsKeyed : (t : TradeEntry) (s : TradeState) → IsKeyed s → IsKeyed (add_trade t s)
unfolding add_trade
add_trade-IsKeyed t s v = record {
  trades_distinct = insert-Distinct t.key t s.trades v.trades_distinct;
  trades_keyed = insert-Each KeysTrade t.key t s.trades refl v.trades_keyed;
  limits_distinct = v.limits_distinct;
  limits_keyed = v.limits_keyed;
}

add_limit-IsKeyed : (l : LimitEntry) (s : TradeState) → IsKeyed s → IsKeyed (add_limit l s)
unfolding add_limit
add_limit-IsKeyed l s v = record {
  trades_distinct = v.trades_distinct;
  trades_keyed = v.trades_keyed;
  limits_distinct = insert-Distinct l.key l s.limits v.limits_distinct;
  limits_keyed = insert-Each KeysLimit l.key l s.limits refl v.limits_keyed;
}

pub remove-IsKeyed : (k : TradeKey) (s : TradeState) → IsKeyed s → IsKeyed (remove k s)
unfolding remove
remove-IsKeyed k s v = record {
  trades_distinct = erase-Distinct k s.trades v.trades_distinct;
  trades_keyed = erase-Each KeysTrade k s.trades v.trades_keyed;
  limits_distinct = v.limits_distinct;
  limits_keyed = v.limits_keyed;
}

remove_limit-IsKeyed : (k : LimitKey) (s : TradeState) → IsKeyed s → IsKeyed (remove_limit k s)
unfolding remove_limit
remove_limit-IsKeyed k s v = record {
  trades_distinct = v.trades_distinct;
  trades_keyed = v.trades_keyed;
  limits_distinct = erase-Distinct k s.limits v.limits_distinct;
  limits_keyed = erase-Each KeysLimit k s.limits v.limits_keyed;
}

set_tp_sl-IsKeyed :
    (k : TradeKey) (tp sl : Option ℤ) (s : TradeState) → IsKeyed s → IsKeyed (set_tp_sl k tp sl s)
unfolding set_tp_sl
set_tp_sl-IsKeyed k tp sl s v = elim (Option-cases (lookup k s.trades)) [
  | inl missing ↦ rw (missing, set_tp_sl) v
  | inr (t, found) ↦
      rw (found, set_tp_sl)
        (record {
          trades_distinct = insert-Distinct k _ s.trades v.trades_distinct;
          trades_keyed =
              insert-Each KeysTrade k _ s.trades
                (lookup-Each KeysTrade k t s.trades v.trades_keyed found) v.trades_keyed;
          limits_distinct = v.limits_distinct;
          limits_keyed = v.limits_keyed;
        })
]

set_limit_price-IsKeyed :
    (k : LimitKey) (p : Option ℤ) (s : TradeState) → IsKeyed s → IsKeyed (set_limit_price k p s)
unfolding set_limit_price
set_limit_price-IsKeyed k none s v = v
set_limit_price-IsKeyed k (some p) s v = elim (Option-cases (lookup k s.limits)) [
  | inl missing ↦ rw (missing, set_limit_price) v
  | inr (l, found) ↦
      rw (found, set_limit_price)
        (record {
          trades_distinct = v.trades_distinct;
          trades_keyed = v.trades_keyed;
          limits_distinct = insert-Distinct k _ s.limits v.limits_distinct;
          limits_keyed =
              insert-Each KeysLimit k _ s.limits
                (lookup-Each KeysLimit k l s.limits v.limits_keyed found) v.limits_keyed;
        })
]

-- The guards keep a property that the guarded step keeps.
abbrev Keeps : (TradeState → TradeState) → Type 0
Keeps f = (s : TradeState) → IsKeyed s → IsKeyed (f s)

with_index-Keeps :
    (i : Option ℤ) (f : ℤ → TradeState → TradeState)
    → ((j : ℤ) → Keeps (f j))
    → Keeps (with_index i f)
with_index-Keeps none f h s v = v
with_index-Keeps (some i) f h s v = h i s v

with_trade-Keeps :
    (t : Option Trade) (f : Trade → TradeState → TradeState)
    → ((u : Trade) → Keeps (f u))
    → Keeps (with_trade t f)
with_trade-Keeps none f h s v = v
with_trade-Keeps (some t) f h s v = h t s v

with_limit-Keeps :
    (l : Option LimitOrder) (f : LimitOrder → TradeState → TradeState)
    → ((u : LimitOrder) → Keeps (f u))
    → Keeps (with_limit l f)
with_limit-Keeps none f h s v = v
with_limit-Keeps (some l) f h s v = h l s v

apply_topic-IsKeyed : (t : PmTopic) (e : Event) → Keeps (apply_topic t e)
unfolding apply_topic
apply_topic-IsKeyed opened e =
    with_trade-Keeps e.trade _
      (λ t. with_index-Keeps e.trade_index _ (λ i. add_trade-IsKeyed (opened_entry e.trader t i)))
apply_topic-IsKeyed closed e =
    with_index-Keeps e.trade_index _ (λ i. remove-IsKeyed (event_key e i))
apply_topic-IsKeyed liq e = with_index-Keeps e.trade_index _ (λ i. remove-IsKeyed (event_key e i))
apply_topic-IsKeyed tp_sl_executed e =
    with_index-Keeps e.trade_index _ (λ i. remove-IsKeyed (event_key e i))
apply_topic-IsKeyed updated_tp_sl e =
    with_index-Keeps e.trade_index _ (λ i. set_tp_sl-IsKeyed (event_key e i) e.tp_price e.sl_price)
apply_topic-IsKeyed placed e =
    with_limit-Keeps e.limit _
      (λ l. with_index-Keeps e.limit_index _ (λ i. add_limit-IsKeyed (placed_entry e.trader l i)))
apply_topic-IsKeyed executed e =
    with_index-Keeps e.limit_index _ (λ i. remove_limit-IsKeyed (event_limit_key e i))
apply_topic-IsKeyed canceled e =
    with_index-Keeps e.limit_index _ (λ i. remove_limit-IsKeyed (event_limit_key e i))
apply_topic-IsKeyed updated_limit e =
    with_index-Keeps e.limit_index _
      (λ i. set_limit_price-IsKeyed (event_limit_key e i) e.limit_price)
apply_topic-IsKeyed PmTopic.other e = λ s v. v

apply_all-IsKeyed : (es : List Event) → Keeps (apply_all es)
unfolding apply_all apply
apply_all-IsKeyed [] = λ s v. v
apply_all-IsKeyed (e ∷ es) =
    λ s v. apply_all-IsKeyed es (apply e s) (apply_topic-IsKeyed (pm_topic e.topic) e s v)

-- From the empty state, any sequence of events leaves every entry under its own key and no key
-- twice, for trades and for limit orders.
pub apply_all-new-IsKeyed : (es : List Event) → IsKeyed (apply_all es new_trade_state)
apply_all-new-IsKeyed es =
    apply_all-IsKeyed es new_trade_state
      (record { trades_distinct = tt; trades_keyed = tt; limits_distinct = tt; limits_keyed = tt })
