-- ===== src/Store/Replayed.antt =====
-- `Apply` of internal/store/store.go on an event that is delivered a second time.
use lumen_liquid_backend.Base.{ℕ, ◌≡◌, refl, ap, ◌∙◌, Option, none, some, arith, text_eq}
use lumen_liquid_backend.Base.Int.{ℤ, pos, negsuc, ◌+ℤ◌}
use lumen_liquid_backend.Base.Text.{Text}
use lumen_liquid_backend.Base.Assoc.{lookup}
use lumen_liquid_backend.Events.{Event, vault, vault_topic, deposit}
use lumen_liquid_backend.Keeper.Math.{or_zero}
use lumen_liquid_backend.Store.{apply, project, record_event, audit_key, audit_row}
use lumen_liquid_backend.Store.Tables.{Database, audit_key_eq, VaultPosition}
use lumen_liquid_backend.Store.Sql.{upserted, lookup-upsert_self, insert_new-again}
use lumen_liquid_backend.Store.Trades.{Floats}
use lumen_liquid_backend.Store.Balances.{apply_vault, deposited, no_position}

-- The shares of a depositor; without a row there are none.
abbrev shares_in : Option VaultPosition → ℤ
shares_in none = pos 0
shares_in (some p) = p.shares

abbrev pub shares_of : Text → Database → ℤ
shares_of trader s = shares_in (lookup trader s.vault_positions)

add_zero : (z : ℤ) → z ≡ pos 0 +ℤ z
unfolding ◌+ℤ◌
add_zero (pos n) = ground arith
add_zero (negsuc n) = ground arith

upserted-shares :
    (by assets : ℤ) (at : Text) (old : Option VaultPosition)
    → (upserted
        (record (no_position at) { shares = by; total_deposited = assets })
        (deposited by assets at)
        old).shares
      ≡ shares_in old +ℤ by
upserted-shares by assets at none = add_zero by
upserted-shares by assets at (some p) = refl

deposit-shares :
    (e : Event) (at : Text) (s : Database)
    → shares_of e.trader (apply_vault deposit e at s) ≡ shares_of e.trader s +ℤ or_zero e.shares
unfolding apply_vault
deposit-shares e at s =
    ap shares_in (
      lookup-upsert_self e.trader _ (deposited (or_zero e.shares) (or_zero e.assets) at)
        s.vault_positions)
    ∙ upserted-shares (or_zero e.shares) (or_zero e.assets) at (lookup e.trader s.vault_positions)

apply-deposit :
    (fl : Floats) (parse_time : Text → Option Text) (e : Event) (n : ℕ) (at : Text) (s : Database)
    → e.source ≡ vault
    → vault_topic e.topic ≡ deposit
    → parse_time e.occurred_at ≡ some at
    → apply fl parse_time e n s
      ≡ some (apply_vault deposit e at (record_event (audit_key e n) (audit_row e at) s))
unfolding apply project
apply-deposit fl parse_time e n at s v d h = rw (apply, h, v, d) refl

-- A deposit event that is applied a second time, as after a restart, finds its audit row in
-- `trade_events` and leaves that table as it is, and yet adds the event's shares to the depositor's
-- position once more.
pub redelivered_deposit :
    (fl : Floats) (parse_time : Text → Option Text) (e : Event) (n : ℕ) (at : Text) (s : Database)
    → e.source ≡ vault
    → vault_topic e.topic ≡ deposit
    → parse_time e.occurred_at ≡ some at
    → (once twice : Database) × (apply fl parse_time e n s ≡ some once)
      × (apply fl parse_time e n once ≡ some twice)
      × (twice.trade_events ≡ once.trade_events)
      × (shares_of e.trader once ≡ shares_of e.trader s +ℤ or_zero e.shares)
      × (shares_of e.trader twice ≡ shares_of e.trader once +ℤ or_zero e.shares)
redelivered_deposit fl parse_time e n at s v d h =
    let k = audit_key e n in
    let r = audit_row e at in
    let once = apply_vault deposit e at (record_event k r s) in
    (
      once,
      apply_vault deposit e at (record_event k r once),
      apply-deposit fl parse_time e n at s v d h,
      apply-deposit fl parse_time e n at once v d h,
      unfold apply_vault in unfold record_event in insert_new-again k r r s.trade_events,
      unfold record_event in deposit-shares e at (record_event k r s),
      unfold record_event in deposit-shares e at (record_event k r once),
    )
