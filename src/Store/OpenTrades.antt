-- ===== src/Store/OpenTrades.antt =====
-- The trades of the database (internal/store/store.go) and the trades that the keeper watches
-- (internal/keeper/state.go) under the same events.
use lumen_liquid_backend.Base.{
  ℕ, ◌≡◌, refl, sym, ap, ◌∙◌, Bool, false, Option, none, some, if◌then◌else◌, arith, Option-cases,
  inl, inr, ◌==◌,
}
use lumen_liquid_backend.Base.Int.{ℤ}
use lumen_liquid_backend.Base.Text.{Text}
use lumen_liquid_backend.Base.Assoc.{Map, lookup, lookup-insert, lookup-erase}
use lumen_liquid_backend.Events.{
  Event, Trade, LimitOrder, pm, PmTopic, pm_topic, opened, closed, placed, executed, canceled,
  updated_limit, updated_tp_sl, tp_sl_executed, liq,
}
use lumen_liquid_backend.Keeper.State
use lumen_liquid_backend.Keeper.State.{
  TradeKey, TradeEntry, TradeState, trade_key_eq, limit_key_eq, trade_key_beq_iff, event_key,
  event_limit_key, opened_entry,
}
use lumen_liquid_backend.Keeper.State.Watch.{lookup-apply}
use lumen_liquid_backend.Store.{apply, project, record_event, audit_key, audit_row}
use lumen_liquid_backend.Store.Tables.{
  Database, OpenTrade, CloseReason, manual, liquidation, Resolution,
}
use lumen_liquid_backend.Store.Sql.{upsert-insert, update_row, update_row-missing, update_row-found}
use lumen_liquid_backend.Store.Trades.{
  Floats, apply_pm, store_opened, opened_key, store_tp_sl, close_trade, close_trade_unknown_reason,
  store_placed, store_updated_limit, resolve_limit,
}
use lumen_liquid_backend.Store.OpenAfter.{
  present, by_index, open_opened, open_after, present-if, watch-open,
}

abbrev pub is_open : TradeKey → Database → Bool
is_open j s = present (lookup j s.trades)

absent-stays :
    (k j : TradeKey) (m : Map TradeKey OpenTrade)
    → lookup k m ≡ none
    → present (lookup j m) ≡ (if k == j then false else present (lookup j m))
absent-stays k j m missing = ground (arith, missing, trade_key_beq_iff k j)

closed-open :
    (e : Event) (i : Option ℤ) (reason : CloseReason) (at : Text) (s : Database) (j : TradeKey)
    → is_open j (close_trade e i reason at s)
      ≡ by_index i (λ k. if event_key e k == j then false else is_open j s) (is_open j s)
unfolding close_trade
closed-open e none reason at s j = refl
closed-open e (some i) reason at s j = elim (Option-cases (lookup (event_key e i) s.trades)) [
  | inl missing ↦ rw (missing, close_trade) (absent-stays (event_key e i) j s.trades missing)
  | inr (t, found) ↦
      rw (found, close_trade, lookup-erase (event_key e i) j s.trades)
        (present-if (event_key e i == j) none (lookup j s.trades))
]

unknown-open :
    (fl : Floats) (e : Event) (i : Option ℤ) (at : Text) (s : Database) (j : TradeKey)
    → is_open j (close_trade_unknown_reason fl e i at s)
      ≡ by_index i (λ k. if event_key e k == j then false else is_open j s) (is_open j s)
unfolding close_trade_unknown_reason
unknown-open fl e none at s j = refl
unknown-open fl e (some i) at s j = closed-open e (some i) _ at s j

opened-open :
    (e : Event) (t : Option Trade) (i : Option ℤ) (at : Text) (s : Database) (j : TradeKey)
    → is_open j (store_opened e t i at s) ≡ open_opened e t i j (is_open j s)
unfolding store_opened
opened-open e none i at s j = refl
opened-open e (some t) none at s j = refl
opened-open e (some t) (some i) at s j =
    rw
      (upsert-insert (opened_key e t i) _ _ s.trades, lookup-insert (opened_key e t i) j _ s.trades)
      (present-if (opened_key e t i == j) (some _) (lookup j s.trades))

updated-open :
    (k j : TradeKey) (change : OpenTrade → OpenTrade) (m : Map TradeKey OpenTrade)
    → present (lookup j (update_row k change m)) ≡ present (lookup j m)
updated-open k j change m = elim (Option-cases (lookup k m)) [
  | inl missing ↦ rw (update_row-missing k change m missing) refl
  | inr (t, found) ↦
      rw (update_row-found k change m t found, lookup-insert k j (change t) m)
        (ground (arith, found, trade_key_beq_iff k j))
]

targets-open :
    (e : Event) (i p q : Option ℤ) (s : Database) (j : TradeKey)
    → is_open j (store_tp_sl e i p q s) ≡ is_open j s
unfolding store_tp_sl
targets-open e none p q s j = refl
targets-open e (some i) none q s j = refl
targets-open e (some i) (some p) none s j = refl
targets-open e (some i) (some p) (some q) s j = updated-open (event_key e i) j _ s.trades

placed-open :
    (e : Event) (l : Option LimitOrder) (i : Option ℤ) (at : Text) (s : Database) (j : TradeKey)
    → is_open j (store_placed e l i at s) ≡ is_open j s
unfolding store_placed
placed-open e none i at s j = refl
placed-open e (some l) none at s j = refl
placed-open e (some l) (some i) at s j = refl

limit-open :
    (e : Event) (i p : Option ℤ) (s : Database) (j : TradeKey)
    → is_open j (store_updated_limit e i p s) ≡ is_open j s
unfolding store_updated_limit
limit-open e none p s j = refl
limit-open e (some i) none s j = refl
limit-open e (some i) (some p) s j = refl

resolved-open :
    (e : Event) (i : Option ℤ) (r : Resolution) (at : Text) (s : Database) (j : TradeKey)
    → is_open j (resolve_limit e i r at s) ≡ is_open j s
unfolding resolve_limit
resolved-open e none r at s j = refl
resolved-open e (some i) r at s j =
    elim (Option-cases (lookup (event_limit_key e i) s.limit_orders)) [
      | inl missing ↦ rw (missing, resolve_limit) refl
      | inr (l, found) ↦ rw (found, resolve_limit) refl
    ]

apply_pm-open :
    (fl : Floats) (t : PmTopic) (e : Event) (at : Text) (s : Database) (j : TradeKey)
    → is_open j (apply_pm fl t e at s) ≡ open_after t e j (is_open j s)
unfolding apply_pm
apply_pm-open fl opened e at s j = opened-open e e.trade e.trade_index at s j
apply_pm-open fl updated_tp_sl e at s j = targets-open e e.trade_index e.tp_price e.sl_price s j
apply_pm-open fl closed e at s j = closed-open e e.trade_index manual at s j
apply_pm-open fl tp_sl_executed e at s j = unknown-open fl e e.trade_index at s j
apply_pm-open fl liq e at s j = closed-open e e.trade_index liquidation at s j
apply_pm-open fl placed e at s j = placed-open e e.limit e.limit_index at s j
apply_pm-open fl updated_limit e at s j = limit-open e e.limit_index e.limit_price s j
apply_pm-open fl executed e at s j = resolved-open e e.limit_index Resolution.executed at s j
apply_pm-open fl canceled e at s j = resolved-open e e.limit_index Resolution.canceled at s j
apply_pm-open fl PmTopic.other e at s j = refl

-- When the trades that are open in the database are the ones that the keeper watches, they are so
-- after every position event that both have applied, provided that its ledger time parses.
pub apply-watched :
    (fl : Floats) (parse_time : Text → Option Text) (e : Event) (n : ℕ) (at : Text) (s : Database)
    (w : TradeState)
    → e.source ≡ pm
    → parse_time e.occurred_at ≡ some at
    → ((j : TradeKey) → is_open j s ≡ present (lookup j w.trades))
    → (s' : Database) × (apply fl parse_time e n s ≡ some s')
      × ((j : TradeKey) → is_open j s' ≡ present (lookup j (State.apply e w).trades))
unfolding project record_event
apply-watched fl parse_time e n at s w src time same =
    let s' = record_event (audit_key e n) (audit_row e at) s in
    (
      apply_pm fl (pm_topic e.topic) e at s',
      unfold apply in (rw (time, src, apply) refl),
      λ j.
          apply_pm-open fl (pm_topic e.topic) e at s' j
          ∙ ap (open_after (pm_topic e.topic) e j) (same j)
          ∙ sym (watch-open (pm_topic e.topic) e j (lookup j w.trades))
          ∙ ap present (sym (lookup-apply e j w)),
    )
