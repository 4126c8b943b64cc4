-- ===== src/Events/Decode/Pm.antt =====
-- `decodePM` of internal/events/decode.go.
use lumen_liquid_backend.Base.{Option, none, some, List, ◌∷◌}
use lumen_liquid_backend.Base.Int.{ℤ}
use lumen_liquid_backend.Soroban.ScVal.{Value, string, vec, nil, cons}
use lumen_liquid_backend.Events.{
  Event, PmTopic, opened, closed, placed, executed, canceled, updated_limit, updated_tp_sl,
  tp_sl_executed, liq,
}
use lumen_liquid_backend.Events.Decode.Values.{
  to_big, as_int32, decode_trade_struct, decode_limit_struct,
}

-- `topics[1]` is the trader, if it is a text.
abbrev pub set_trader : List Value → Event → Event
set_trader (t ∷ string s ∷ rest) e = record e { trader = s }
set_trader topics e = e

-- `if i, ok := toInt32(v); ok { e.PairIndex = ptrI32(i) }`, and so for the other indices.
abbrev pub set_pair_index : Option ℤ → Event → Event
set_pair_index none e = e
set_pair_index (some i) e = record e { pair_index = some i }

abbrev pub set_trade_index : Option ℤ → Event → Event
set_trade_index none e = e
set_trade_index (some i) e = record e { trade_index = some i }

abbrev pub set_limit_index : Option ℤ → Event → Event
set_limit_index none e = e
set_limit_index (some i) e = record e { limit_index = some i }

-- `topics[2]` is the pair.
abbrev pub set_pair : List Value → Event → Event
set_pair (t ∷ u ∷ v ∷ rest) e = set_pair_index (as_int32 v) e
set_pair topics e = e

-- data = (trade_index, Trade, open_fee)
decode_opened : Value → Event → Event
decode_opened (vec (cons i (cons t nil))) e = record (set_trade_index (as_int32 i) e) {
  trade = decode_trade_struct t;
}
decode_opened (vec (cons i (cons t (cons fee rest)))) e = record (set_trade_index (as_int32 i) e) {
  trade = decode_trade_struct t;
  open_fee = to_big fee;
}
decode_opened v e = e

-- data = (trade_index, close_price, close_fee, net_pnl, gross_payout), or the bare index
decode_closed : Value → Event → Event
decode_closed (vec (cons i (cons p (cons f (cons n (cons g rest)))))) e =
    record (set_trade_index (as_int32 i) e) {
      close_price = to_big p;
      close_fee = to_big f;
      net_pnl = to_big n;
      gross_payout = to_big g;
    }
decode_closed (vec (cons i rest)) e = set_trade_index (as_int32 i) e
decode_closed v e = set_trade_index (as_int32 v) e

-- data = (trade_index, tp_price, sl_price), or the bare index
decode_updated_tp_sl : Value → Event → Event
decode_updated_tp_sl (vec (cons i (cons tp (cons sl rest)))) e =
    record (set_trade_index (as_int32 i) e) { tp_price = to_big tp; sl_price = to_big sl }
decode_updated_tp_sl (vec (cons i rest)) e = set_trade_index (as_int32 i) e
decode_updated_tp_sl v e = set_trade_index (as_int32 v) e

-- data = (limit_index, LimitOrder), or the bare index
decode_placed : Value → Event → Event
decode_placed (vec (cons i (cons l rest))) e = record (set_limit_index (as_int32 i) e) {
  limit = decode_limit_struct l;
}
decode_placed (vec (cons i nil)) e = set_limit_index (as_int32 i) e
decode_placed v e = set_limit_index (as_int32 v) e

-- data = (limit_index, limit_price, tp_price, sl_price), or the bare index
decode_updated_limit : Value → Event → Event
decode_updated_limit (vec (cons i (cons p (cons tp (cons sl rest))))) e =
    record (set_limit_index (as_int32 i) e) {
      limit_price = to_big p;
      tp_price = to_big tp;
      sl_price = to_big sl;
    }
decode_updated_limit (vec (cons i rest)) e = set_limit_index (as_int32 i) e
decode_updated_limit v e = set_limit_index (as_int32 v) e

decode_pm_data : PmTopic → Value → Event → Event
unfolding decode_opened decode_closed decode_updated_tp_sl decode_placed decode_updated_limit
decode_pm_data opened v e = decode_opened v e
decode_pm_data closed v e = decode_closed v e
decode_pm_data tp_sl_executed v e = decode_closed v e
decode_pm_data liq v e = decode_closed v e
decode_pm_data updated_tp_sl v e = decode_updated_tp_sl v e
decode_pm_data executed v e = set_limit_index (as_int32 v) e
decode_pm_data placed v e = decode_placed v e
decode_pm_data updated_limit v e = decode_updated_limit v e
decode_pm_data canceled v e = set_limit_index (as_int32 v) e
decode_pm_data PmTopic.other v e = e

unfoldable pub decode_pm : PmTopic → List Value → Value → Event → Event
unfolding decode_pm_data
decode_pm t topics v e = decode_pm_data t v (set_pair topics (set_trader topics e))
