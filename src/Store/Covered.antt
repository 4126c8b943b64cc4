-- ===== src/Store/Covered.antt =====
-- The open interest under `Apply` of internal/store/store.go, for every event.
use lumen_liquid_backend.Base.{
  ℕ, ◌≡◌, refl, true, false, Option, none, some, Option-cases, inl, inr,
}
use lumen_liquid_backend.Base.Int.{ℤ}
use lumen_liquid_backend.Base.Text.{Text}
use lumen_liquid_backend.Base.Assoc.{lookup}
use lumen_liquid_backend.Events.{
  Event, Trade, LimitOrder, Source, pm, vault, registry, unknown, PmTopic, pm_topic, opened, closed,
  placed, executed, canceled, updated_limit, updated_tp_sl, tp_sl_executed, liq, VaultTopic,
  vault_topic, deposit, withdraw, settle, take_collat, bad_debt, untyped, RegistryTopic,
  registry_topic, pair_added, pair_updated, pair_disabled, funding_rate, rollover_rate, depth,
  group_added, group_updated, open_fee, close_fee, max_pos, oi_add, oi_sub,
}
use lumen_liquid_backend.Keeper.State.{trade_key_eq, limit_key_eq, event_key, event_limit_key}
use lumen_liquid_backend.Store.{apply, project, record_event, audit_key, audit_row}
use lumen_liquid_backend.Store.Tables.{Database, CloseReason, manual, liquidation, Resolution}
use lumen_liquid_backend.Store.Trades.{
  Floats, apply_pm, store_opened, store_tp_sl, close_trade, close_trade_unknown_reason,
  store_placed, store_updated_limit, resolve_limit,
}
use lumen_liquid_backend.Store.Balances.{apply_vault, apply_registry, store_rollover, store_funding}
use lumen_liquid_backend.Store.Interest.{AllCovered, store_oi-AllCovered}

module _ (e : Event) (at : Text) (s : Database) (h : AllCovered s) where
  opened-AllCovered : (t : Option Trade) (i : Option ℤ) → AllCovered (store_opened e t i at s)
  unfolding store_opened
  opened-AllCovered none i = h
  opened-AllCovered (some t) none = h
  opened-AllCovered (some t) (some i) = h

  tp_sl-AllCovered : (i p q : Option ℤ) → AllCovered (store_tp_sl e i p q s)
  unfolding store_tp_sl
  tp_sl-AllCovered none p q = h
  tp_sl-AllCovered (some i) none q = h
  tp_sl-AllCovered (some i) (some p) none = h
  tp_sl-AllCovered (some i) (some p) (some q) = h

  close-AllCovered : (i : Option ℤ) (r : CloseReason) → AllCovered (close_trade e i r at s)
  unfolding close_trade
  close-AllCovered none r = h
  close-AllCovered (some i) r = elim (Option-cases (lookup (event_key e i) s.trades)) [
    | inl missing ↦ rw (missing, close_trade) h
    | inr (t, found) ↦ rw (found, close_trade) h
  ]

  unknown-AllCovered :
      (fl : Floats) (i : Option ℤ) → AllCovered (close_trade_unknown_reason fl e i at s)
  unfolding close_trade_unknown_reason
  unknown-AllCovered fl none = h
  unknown-AllCovered fl (some i) = close-AllCovered (some i) _

  placed-AllCovered : (l : Option LimitOrder) (i : Option ℤ) → AllCovered (store_placed e l i at s)
  unfolding store_placed
  placed-AllCovered none i = h
  placed-AllCovered (some l) none = h
  placed-AllCovered (some l) (some i) = h

  limit-AllCovered : (i p : Option ℤ) → AllCovered (store_updated_limit e i p s)
  unfolding store_updated_limit
  limit-AllCovered none p = h
  limit-AllCovered (some i) none = h
  limit-AllCovered (some i) (some p) = h

  resolve-AllCovered : (i : Option ℤ) (r : Resolution) → AllCovered (resolve_limit e i r at s)
  unfolding resolve_limit
  resolve-AllCovered none r = h
  resolve-AllCovered (some i) r =
      elim (Option-cases (lookup (event_limit_key e i) s.limit_orders)) [
        | inl missing ↦ rw (missing, resolve_limit) h
        | inr (l, found) ↦ rw (found, resolve_limit) h
      ]

  rollover-AllCovered : (i r : Option ℤ) → AllCovered (store_rollover i r at s)
  unfolding store_rollover
  rollover-AllCovered none r = h
  rollover-AllCovered (some i) none = h
  rollover-AllCovered (some i) (some r) = h

  funding-AllCovered : (i r : Option ℤ) → AllCovered (store_funding i r at s)
  unfolding store_funding
  funding-AllCovered none r = h
  funding-AllCovered (some i) none = h
  funding-AllCovered (some i) (some r) = h

  pm-AllCovered : (fl : Floats) (t : PmTopic) → AllCovered (apply_pm fl t e at s)
  unfolding apply_pm
  pm-AllCovered fl opened = opened-AllCovered e.trade e.trade_index
  pm-AllCovered fl updated_tp_sl = tp_sl-AllCovered e.trade_index e.tp_price e.sl_price
  pm-AllCovered fl closed = close-AllCovered e.trade_index manual
  pm-AllCovered fl tp_sl_executed = unknown-AllCovered fl e.trade_index
  pm-AllCovered fl liq = close-AllCovered e.trade_index liquidation
  pm-AllCovered fl placed = placed-AllCovered e.limit e.limit_index
  pm-AllCovered fl updated_limit = limit-AllCovered e.limit_index e.limit_price
  pm-AllCovered fl executed = resolve-AllCovered e.limit_index Resolution.executed
  pm-AllCovered fl canceled = resolve-AllCovered e.limit_index Resolution.canceled
  pm-AllCovered fl PmTopic.other = h

  vault-AllCovered : (t : VaultTopic) → AllCovered (apply_vault t e at s)
  unfolding apply_vault
  vault-AllCovered deposit = h
  vault-AllCovered withdraw = h
  vault-AllCovered settle = h
  vault-AllCovered take_collat = h
  vault-AllCovered bad_debt = h
  vault-AllCovered untyped = h
  vault-AllCovered VaultTopic.other = h

  registry-AllCovered : (t : RegistryTopic) → AllCovered (apply_registry t e at s)
  unfolding apply_registry
  registry-AllCovered rollover_rate = rollover-AllCovered e.pair_index e.rate_per
  registry-AllCovered funding_rate = funding-AllCovered e.pair_index e.rate_per
  registry-AllCovered oi_add = store_oi-AllCovered true e.pair_index e.oi_is_long e.amount at s h
  registry-AllCovered oi_sub = store_oi-AllCovered false e.pair_index e.oi_is_long e.amount at s h
  registry-AllCovered pair_added = h
  registry-AllCovered pair_updated = h
  registry-AllCovered pair_disabled = h
  registry-AllCovered depth = h
  registry-AllCovered group_added = h
  registry-AllCovered group_updated = h
  registry-AllCovered open_fee = h
  registry-AllCovered close_fee = h
  registry-AllCovered max_pos = h
  registry-AllCovered RegistryTopic.other = h

  project-AllCovered : (fl : Floats) (c : Source) → AllCovered (project fl c e at s)
  unfolding project
  project-AllCovered fl pm = pm-AllCovered fl (pm_topic e.topic)
  project-AllCovered fl vault = vault-AllCovered (vault_topic e.topic)
  project-AllCovered fl registry = registry-AllCovered (registry_topic e.topic)
  project-AllCovered fl unknown = h

-- When an event's ledger time parses, applying it succeeds, and no side of any pair's open interest
-- is then below zero, if none was before.
pub apply-AllCovered :
    (fl : Floats) (parse_time : Text → Option Text) (e : Event) (n : ℕ) (at : Text) (s : Database)
    → parse_time e.occurred_at ≡ some at
    → AllCovered s
    → (s' : Database) × (apply fl parse_time e n s ≡ some s') × AllCovered s'
unfolding record_event
apply-AllCovered fl parse_time e n at s time h =
    let recorded = record_event (audit_key e n) (audit_row e at) s in
    (
      project fl e.source e at recorded,
      unfold apply in rw (time, apply) refl,
      project-AllCovered e at recorded h fl e.source,
    )
