-- ===== src/Store/Tables.antt =====
-- The tables that internal/store/store.go writes.
use lumen_liquid_backend.Base.{
  ℕ, Bool, true, ◌&&◌, Option, List, Eq, ◌==◌, ◌≡◌, ◌↔◌, arith, nat_eq, nat_beq_iff, text_eq,
}
use lumen_liquid_backend.Base.Int.{ℤ}
use lumen_liquid_backend.Base.Text.{Text}
use lumen_liquid_backend.Base.Assoc.{Map}
use lumen_liquid_backend.Events.{Event}
use lumen_liquid_backend.Keeper.State.{TradeKey, LimitKey, trade_key_eq, trade_key_beq_iff}

pub record AuditKey : Type 0 where
  pub tx_hash : Text
  pub event_index : ℕ

pub audit_key_beq : AuditKey → AuditKey → Bool
audit_key_beq a b = a.tx_hash == b.tx_hash && a.event_index == b.event_index

pub audit_key_beq_iff : (a b : AuditKey) → (audit_key_beq a b ≡ true) ↔ (a ≡ b)
unfolding audit_key_beq
audit_key_beq_iff a b =
    ground (arith, text_eq.test_iff a.tx_hash b.tx_hash, nat_beq_iff a.event_index b.event_index)

instance abbrev pub audit_key_eq : Eq AuditKey
audit_key_eq = record { test = audit_key_beq; test_iff = audit_key_beq_iff }

pub record AuditRow : Type 0 where
  pub ledger : ℕ
  pub contract_id : Text
  pub topic : Text
  pub trader : Option Text
  pub pair_index : Option ℤ
  pub trade_index : Option ℤ
  pub event : Event
  pub occurred_at : Text

pub record OpenTrade : Type 0 where
  pub is_long : Bool
  pub leverage : ℕ
  pub collateral : ℤ
  pub open_price : ℤ
  pub acc_rollover_open : ℤ
  pub acc_funding_open : ℤ
  pub tp_price : ℤ
  pub sl_price : ℤ
  pub liq_price : ℤ
  pub liq_threshold_p : ℕ
  pub open_fee : ℤ
  pub opened_at : Text
  pub opened_tx : Text

pub data CloseReason : Type 0 where
  manual liquidation tp sl : CloseReason

pub record HistoryKey : Type 0 where
  pub trade : TradeKey
  pub closed_tx : Text

pub history_key_beq : HistoryKey → HistoryKey → Bool
history_key_beq a b = a.trade == b.trade && a.closed_tx == b.closed_tx

pub history_key_beq_iff : (a b : HistoryKey) → (history_key_beq a b ≡ true) ↔ (a ≡ b)
unfolding history_key_beq
history_key_beq_iff a b =
    ground (arith, trade_key_beq_iff a.trade b.trade, text_eq.test_iff a.closed_tx b.closed_tx)

instance abbrev pub history_key_eq : Eq HistoryKey
history_key_eq = record { test = history_key_beq; test_iff = history_key_beq_iff }

-- A row of `trade_history`: the open trade, and how it ended.
pub record ClosedTrade : Type 0 where
  pub opened : OpenTrade
  pub close_price : Option ℤ
  pub realized_pnl : Option ℤ
  pub close_fee : Option ℤ
  pub close_reason : CloseReason
  pub closed_at : Text

pub record OpenLimit : Type 0 where
  pub is_long : Bool
  pub leverage : ℕ
  pub collateral : ℤ
  pub limit_price : ℤ
  pub tp_price : ℤ
  pub sl_price : ℤ
  pub placed_at : Text
  pub placed_tx : Text

pub data Resolution : Type 0 where
  executed canceled : Resolution

pub record ResolvedLimit : Type 0 where
  pub key : LimitKey
  pub placed : OpenLimit
  pub resolution : Resolution
  pub resolved_at : Text
  pub resolved_tx : Text

pub record VaultPosition : Type 0 where
  pub shares : ℤ
  pub total_deposited : ℤ
  pub total_withdrawn : ℤ
  pub last_action_at : Text

pub record PairRates : Type 0 where
  pub rollover_fee_per_ledger_p : ℤ
  pub funding_fee_per_ledger_p : ℤ
  pub synced_at : Text

pub record PairOi : Type 0 where
  pub long_oi : ℤ
  pub short_oi : ℤ
  pub updated_at : Text

pub record Database : Type 0 where
  pub trade_events : Map AuditKey AuditRow
  pub trades : Map TradeKey OpenTrade
  pub trade_history : Map HistoryKey ClosedTrade
  pub limit_orders : Map LimitKey OpenLimit
  pub limit_order_history : List ResolvedLimit
  pub vault_positions : Map Text VaultPosition
  pub pair_rates : Map ℤ PairRates
  pub pair_oi : Map ℤ PairOi
  pub cursor : Option (ℕ × Text)
