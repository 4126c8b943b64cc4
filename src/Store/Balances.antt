-- ===== src/Store/Balances.antt =====
-- `applyVault` and `applyRegistry` of internal/store/store.go.
use lumen_liquid_backend.Base.{Bool, true, false, Option, none, some, if◌then◌else◌, text_eq}
use lumen_liquid_backend.Base.Int.{ℤ, pos, ◌+ℤ◌, ◌-ℤ◌, neg_ℤ, ltb_ℤ, int_eq}
use lumen_liquid_backend.Base.Text.{Text}
use lumen_liquid_backend.Events.{
  Event, VaultTopic, deposit, withdraw, RegistryTopic, funding_rate, rollover_rate, oi_add, oi_sub,
}
use lumen_liquid_backend.Keeper.Math.{or_zero}
use lumen_liquid_backend.Keeper.State.{trade_key_eq, limit_key_eq}
use lumen_liquid_backend.Store.Sql.{upsert}
use lumen_liquid_backend.Store.Tables.{Database, history_key_eq, VaultPosition, PairOi}

abbrev moved_shares : ℤ → Text → VaultPosition → VaultPosition
moved_shares by at p = record p { shares = p.shares +ℤ by; last_action_at = at }

abbrev pub deposited : ℤ → ℤ → Text → VaultPosition → VaultPosition
deposited by assets at p = record (moved_shares by at p) {
  total_deposited = p.total_deposited +ℤ assets;
}

abbrev pub withdrawn : ℤ → ℤ → Text → VaultPosition → VaultPosition
withdrawn by assets at p = record (moved_shares (neg_ℤ by) at p) {
  total_withdrawn = p.total_withdrawn +ℤ assets;
}

-- The columns that an `INSERT` leaves out are 0 by default.
abbrev pub no_position : Text → VaultPosition
no_position at = record {
  shares = pos 0;
  total_deposited = pos 0;
  total_withdrawn = pos 0;
  last_action_at = at;
}

unfoldable pub apply_vault : VaultTopic → Event → Text → Database → Database
apply_vault deposit e at s = record s {
  vault_positions =
      upsert e.trader
        (record (no_position at) { shares = or_zero e.shares; total_deposited = or_zero e.assets })
        (deposited (or_zero e.shares) (or_zero e.assets) at) s.vault_positions;
}
apply_vault withdraw e at s = record s {
  vault_positions =
      upsert e.trader
        (record (no_position at) {
          shares = neg_ℤ (or_zero e.shares);
          total_withdrawn = or_zero e.assets;
        })
        (withdrawn (or_zero e.shares) (or_zero e.assets) at) s.vault_positions;
}
apply_vault t e at s = s

unfoldable pub store_rollover : Option ℤ → Option ℤ → Text → Database → Database
store_rollover none r at s = s
store_rollover (some i) none at s = s
store_rollover (some i) (some r) at s = record s {
  pair_rates =
      upsert i
        (record { rollover_fee_per_ledger_p = r; funding_fee_per_ledger_p = pos 0; synced_at = at })
        (λ p. record p { rollover_fee_per_ledger_p = r; synced_at = at }) s.pair_rates;
}

unfoldable pub store_funding : Option ℤ → Option ℤ → Text → Database → Database
store_funding none r at s = s
store_funding (some i) none at s = s
store_funding (some i) (some r) at s = record s {
  pair_rates =
      upsert i
        (record { rollover_fee_per_ledger_p = pos 0; funding_fee_per_ledger_p = r; synced_at = at })
        (λ p. record p { funding_fee_per_ledger_p = r; synced_at = at }) s.pair_rates;
}

-- `GREATEST(0, …)`
abbrev pub greatest_0 : ℤ → ℤ
greatest_0 z = if ltb_ℤ z (pos 0) then pos 0 else z

-- The amount on its side of the pair: long and short.
abbrev pub by_side : Bool → ℤ → ℤ × ℤ
by_side true a = (a, pos 0)
by_side false a = (pos 0, a)

abbrev pub oi_row : ℤ × ℤ → Text → PairOi
oi_row (l, q) at = record { long_oi = greatest_0 l; short_oi = greatest_0 q; updated_at = at }

abbrev pub oi_added : ℤ × ℤ → Text → PairOi → PairOi
oi_added (l, q) at p = oi_row (p.long_oi +ℤ l, p.short_oi +ℤ q) at

abbrev pub oi_taken : ℤ × ℤ → Text → PairOi → PairOi
oi_taken (l, q) at p = oi_row (p.long_oi -ℤ l, p.short_oi -ℤ q) at

unfoldable pub store_oi : Bool → Option ℤ → Option Bool → Option ℤ → Text → Database → Database
store_oi true (some i) (some side) (some a) at s = record s {
  pair_oi = upsert i (oi_row (by_side side a) at) (oi_added (by_side side a) at) s.pair_oi;
}
store_oi false (some i) (some side) (some a) at s = record s {
  pair_oi = upsert i (oi_row (pos 0, pos 0) at) (oi_taken (by_side side a) at) s.pair_oi;
}
store_oi adds i side a at s = s

unfoldable pub apply_registry : RegistryTopic → Event → Text → Database → Database
apply_registry rollover_rate e at s = store_rollover e.pair_index e.rate_per at s
apply_registry funding_rate e at s = store_funding e.pair_index e.rate_per at s
apply_registry oi_add e at s = store_oi true e.pair_index e.oi_is_long e.amount at s
apply_registry oi_sub e at s = store_oi false e.pair_index e.oi_is_long e.amount at s
apply_registry t e at s = s
