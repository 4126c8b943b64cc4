-- ===== src/Events/Decode/Values.antt =====
-- `toBig`, `toInt32` and the struct readers of internal/events/decode.go. A `json.Number` never
-- comes out of `Native`, so its case is left out.
use lumen_liquid_backend.Base.{ℕ, Bool, false, Option, none, some}
use lumen_liquid_backend.Base.Int.{ℤ, pos, to_int32, to_int64, to_uint32}
use lumen_liquid_backend.Base.Text.{codes}
use lumen_liquid_backend.Soroban.ScVal.{
  Value, boolean, uint32, int32, uint64, int64, big, fields, Fields, get_field,
}
use lumen_liquid_backend.Events.{Trade, LimitOrder}

unfoldable pub to_big : Value → Option ℤ
to_big (big z) = some z
to_big (int32 z) = some z
to_big (int64 z) = some z
to_big (uint32 n) = some (pos n)
to_big (uint64 n) = some (pos n)
to_big v = none

-- `int32(x)` keeps the low 32 bits.
unfoldable pub as_int32 : Value → Option ℤ
unfolding to_int32 to_int64
as_int32 (uint32 n) = some (to_int32 (pos n))
as_int32 (int32 z) = some z
as_int32 (int64 z) = some (to_int32 z)
as_int32 (uint64 n) = some (to_int32 (pos n))
as_int32 (big z) = some (to_int32 (to_int64 z))
as_int32 v = none

-- `uint32(x)` of an index that was read; a field that is no integer stays 0.
abbrev pub uint32_or_zero : Option ℤ → ℕ
uint32_or_zero none = 0
uint32_or_zero (some z) = to_uint32 z

abbrev pub bool_or_false : Value → Bool
bool_or_false (boolean b) = b
bool_or_false v = false

trade_of_fields : Fields → Trade
unfolding as_int32 to_big get_field to_uint32
trade_of_fields m = record {
  pair_index = uint32_or_zero (as_int32 (get_field (codes "pair_index") m));
  is_long = bool_or_false (get_field (codes "is_long") m);
  leverage = uint32_or_zero (as_int32 (get_field (codes "leverage") m));
  open_price = to_big (get_field (codes "open_price") m);
  collateral = to_big (get_field (codes "collateral") m);
  acc_rollover_open = to_big (get_field (codes "acc_rollover_open") m);
  acc_funding_open = to_big (get_field (codes "acc_funding_open") m);
  tp_price = to_big (get_field (codes "tp_price") m);
  sl_price = to_big (get_field (codes "sl_price") m);
}

unfoldable pub decode_trade_struct : Value → Option Trade
unfolding trade_of_fields
decode_trade_struct (fields m) = some (trade_of_fields m)
decode_trade_struct v = none

limit_of_fields : Fields → LimitOrder
unfolding as_int32 to_big get_field to_uint32
limit_of_fields m = record {
  pair_index = uint32_or_zero (as_int32 (get_field (codes "pair_index") m));
  is_long = bool_or_false (get_field (codes "is_long") m);
  collateral = to_big (get_field (codes "collateral") m);
  leverage = uint32_or_zero (as_int32 (get_field (codes "leverage") m));
  limit_price = to_big (get_field (codes "limit_price") m);
  tp_price = to_big (get_field (codes "tp_price") m);
  sl_price = to_big (get_field (codes "sl_price") m);
}

unfoldable pub decode_limit_struct : Value → Option LimitOrder
unfolding limit_of_fields
decode_limit_struct (fields m) = some (limit_of_fields m)
decode_limit_struct v = none
