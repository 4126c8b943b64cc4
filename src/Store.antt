-- ===== src/Store.antt =====
-- internal/store/store.go: the tables and what `Apply` writes to them for a decoded event. A NUMERIC
-- column holds an integer, a time stamp its text. A transaction is one step: a statement that the
-- database refuses is left out. `parse_time` stands for `parseLedgerTime`, whose clock and parser are
-- not of this repository.
pub mod Tables
pub mod Sql
pub mod Trades
pub mod Balances
pub mod Replayed
pub mod Interest
pub mod Covered
pub mod OpenAfter
pub mod OpenTrades
use lumen_liquid_backend.Base.{
  ℕ, Bool, true, false, Option, none, some, List, [], ◌∷◌, if◌then◌else◌, Eq, ◌==◌, text_eq,
}
use lumen_liquid_backend.Base.Text.{Text}
use lumen_liquid_backend.Base.Assoc.{lookup, insert}
use lumen_liquid_backend.Events.{
  Event, Source, pm, vault, registry, unknown, pm_topic, vault_topic, registry_topic,
}
use lumen_liquid_backend.Store.Sql.{insert_new}
use lumen_liquid_backend.Store.Tables.{Database, AuditKey, AuditRow, audit_key_eq}
use lumen_liquid_backend.Store.Trades.{Floats, apply_pm}
use lumen_liquid_backend.Store.Balances.{apply_vault, apply_registry}

abbrev pub nil_if_empty : Text → Option Text
nil_if_empty [] = none
nil_if_empty (c ∷ s) = some (c ∷ s)

abbrev pub audit_key : Event → ℕ → AuditKey
audit_key e event_index = record { tx_hash = e.tx_hash; event_index = event_index }

abbrev pub audit_row : Event → Text → AuditRow
audit_row e at = record {
  ledger = e.ledger;
  contract_id = e.contract_id;
  topic = e.topic;
  trader = nil_if_empty e.trader;
  pair_index = e.pair_index;
  trade_index = e.trade_index;
  event = e;
  occurred_at = at;
}

-- `INSERT INTO trade_events … ON CONFLICT DO NOTHING`
unfoldable pub record_event : AuditKey → AuditRow → Database → Database
record_event k r s = record s { trade_events = insert_new k r s.trade_events }

unfoldable pub project : Floats → Source → Event → Text → Database → Database
project fl pm e at s = apply_pm fl (pm_topic e.topic) e at s
project fl vault e at s = apply_vault (vault_topic e.topic) e at s
project fl registry e at s = apply_registry (registry_topic e.topic) e at s
project fl unknown e at s = s

-- `Apply`; `none` is the error of a ledger time that does not parse.
unfoldable pub apply : Floats → (Text → Option Text) → Event → ℕ → Database → Option Database
apply fl parse_time e event_index s = elim (parse_time e.occurred_at) [
  | none ↦ none
  | some at ↦
      some (project fl e.source e at (record_event (audit_key e event_index) (audit_row e at) s))
]

unfoldable pub write_cursor : ℕ → Text → Database → Database
write_cursor last_ledger cursor s = record s { cursor = some (last_ledger, cursor) }

-- `ReadCursor`: no row reads as the start.
unfoldable pub read_cursor : Database → ℕ × Text
read_cursor s = elim s.cursor [ none ↦ (0, []) | some c ↦ c ]
