-- ===== src/Events/Decode/Other.antt =====
-- `decodeVault` and `decodeRegistry` of internal/events/decode.go.
use lumen_liquid_backend.Base.{Option, none, some, List, ◌∷◌}
use lumen_liquid_backend.Base.Int.{ℤ}
use lumen_liquid_backend.Soroban.ScVal.{Value, string, boolean, vec, cons}
use lumen_liquid_backend.Events.{
  Event, VaultTopic, deposit, withdraw, settle, take_collat, bad_debt, untyped, RegistryTopic,
  pair_added, pair_updated, pair_disabled, funding_rate, rollover_rate, depth, group_added,
  group_updated, open_fee, close_fee, max_pos, oi_add, oi_sub,
}
use lumen_liquid_backend.Events.Decode.Values.{to_big, as_int32}
use lumen_liquid_backend.Events.Decode.Pm.{set_trader, set_pair_index}

-- data = (assets, shares)
decode_assets_shares : Value → Event → Event
decode_assets_shares (vec (cons a (cons s rest))) e = record e {
  assets = to_big a;
  shares = to_big s;
}
decode_assets_shares v e = e

-- data = (eff_collat, net_pnl, gross_payout)
decode_settle : Value → Event → Event
decode_settle (vec (cons a (cons n (cons g rest)))) e = record e {
  assets = to_big a;
  net_pnl = to_big n;
  gross_payout = to_big g;
}
decode_settle v e = e

-- data = (pm, amount)
decode_take_collat : Value → Event → Event
decode_take_collat (vec (cons p (cons a rest))) e = record e { amount = to_big a }
decode_take_collat v e = e

abbrev pub second_index : List Value → Option ℤ
second_index (t ∷ v ∷ rest) = as_int32 v
second_index topics = none

unfoldable pub decode_vault : VaultTopic → List Value → Value → Event → Event
unfolding decode_assets_shares decode_settle decode_take_collat
decode_vault deposit topics v e = decode_assets_shares v (set_trader topics e)
decode_vault withdraw topics v e = decode_assets_shares v (set_trader topics e)
decode_vault settle topics v e = decode_settle v (set_trader topics e)
decode_vault bad_debt topics v e = record (set_pair_index (second_index topics) e) {
  amount = to_big v;
}
decode_vault take_collat topics v e = decode_take_collat v e
decode_vault untyped topics v e = e
decode_vault VaultTopic.other topics v e = e

-- The first switch: `topics[1]` is a pair or a group.
registry_index : RegistryTopic → Option ℤ → Event → Event
registry_index t none e = e
registry_index pair_added (some i) e = record e { pair_index = some i }
registry_index pair_updated (some i) e = record e { pair_index = some i }
registry_index pair_disabled (some i) e = record e { pair_index = some i }
registry_index funding_rate (some i) e = record e { pair_index = some i }
registry_index rollover_rate (some i) e = record e { pair_index = some i }
registry_index depth (some i) e = record e { pair_index = some i }
registry_index group_added (some i) e = record e { group_index = some i }
registry_index group_updated (some i) e = record e { group_index = some i }
registry_index open_fee (some i) e = record e { group_index = some i }
registry_index close_fee (some i) e = record e { group_index = some i }
registry_index oi_add (some i) e = record e { pair_index = some i }
registry_index oi_sub (some i) e = record e { pair_index = some i }
registry_index max_pos (some i) e = e
registry_index RegistryTopic.other (some i) e = e

abbrev set_oi_side : List Value → Event → Event
set_oi_side (t ∷ u ∷ boolean b ∷ rest) e = record e { oi_is_long = some b }
set_oi_side topics e = e

-- `topics[2]` is the side, on the two open-interest topics.
registry_side : RegistryTopic → List Value → Event → Event
registry_side oi_add topics e = set_oi_side topics e
registry_side oi_sub topics e = set_oi_side topics e
registry_side t topics e = e

abbrev set_symbol : Value → Event → Event
set_symbol (string s) e = record e { symbol = s }
set_symbol v e = e

-- The second switch.
registry_data : RegistryTopic → Value → Event → Event
registry_data pair_added v e = set_symbol v e
registry_data group_added v e = set_symbol v e
registry_data funding_rate v e = record e { rate_per = to_big v }
registry_data rollover_rate v e = record e { rate_per = to_big v }
registry_data open_fee v e = record e { fee_per = to_big v }
registry_data close_fee v e = record e { fee_per = to_big v }
registry_data depth v e = record e { amount = to_big v }
registry_data max_pos v e = record e { amount = to_big v }
registry_data oi_add v e = record e { amount = to_big v }
registry_data oi_sub v e = record e { amount = to_big v }
registry_data t v e = e

unfoldable pub decode_registry : RegistryTopic → List Value → Value → Event → Event
unfolding registry_index registry_side registry_data
decode_registry t topics v e =
    registry_data t v (registry_side t topics (registry_index t (second_index topics) e))
