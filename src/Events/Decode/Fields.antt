-- ===== src/Events/Decode/Fields.antt =====
-- The values of an `opened` event (internal/events/decode.go) read back: what `decodePM` makes of a
-- trade that the contract publishes.
use lumen_liquid_backend.Base.{
  ℕ, ◌<◌, ◌≡◌, refl, ◌^◌, Bool, some, [], ◌∷◌, arith, text_beq, Bool-cases, inl, inr, ltb,
}
use lumen_liquid_backend.Base.Int.{ℤ, pos, to_int32, to_uint32, to_signed}
use lumen_liquid_backend.Base.Text.{Text, codes}
use lumen_liquid_backend.Soroban.ScVal.{
  Value, boolean, uint32, big, string, vec, fields, end, field, nil, cons, get_field,
}
use lumen_liquid_backend.Events.{Event, Trade, opened}
use lumen_liquid_backend.Events.Decode.Values.{decode_trade_struct, as_int32, to_big}
use lumen_liquid_backend.Events.Decode.Pm.{decode_pm}

-- The contract's `Trade`: two indices of 32 bits, a side and six amounts.
pub record ChainTrade : Type 0 where
  pub pair_index : ℕ
  pub is_long : Bool
  pub leverage : ℕ
  pub open_price : ℤ
  pub collateral : ℤ
  pub acc_rollover_open : ℤ
  pub acc_funding_open : ℤ
  pub tp_price : ℤ
  pub sl_price : ℤ

-- A map of the contract has its keys in order.
abbrev pub published : ChainTrade → Value
published t = fields (
    field (codes "acc_funding_open") (big t.acc_funding_open) (
      field (codes "acc_rollover_open") (big t.acc_rollover_open) (
        field (codes "collateral") (big t.collateral) (
          field (codes "is_long") (boolean t.is_long) (
            field (codes "leverage") (uint32 t.leverage) (
              field (codes "open_price") (big t.open_price) (
                field (codes "pair_index") (uint32 t.pair_index) (
                  field (codes "sl_price") (big t.sl_price)
                    (field (codes "tp_price") (big t.tp_price) end)))))))))

abbrev pub as_trade : ChainTrade → Trade
as_trade t = record {
  pair_index = t.pair_index;
  is_long = t.is_long;
  leverage = t.leverage;
  open_price = some t.open_price;
  collateral = some t.collateral;
  acc_rollover_open = some t.acc_rollover_open;
  acc_funding_open = some t.acc_funding_open;
  tp_price = some t.tp_price;
  sl_price = some t.sl_price;
}

uint32-int32 : (n : ℕ) → n < 2 ^ 32 → to_uint32 (to_int32 (pos n)) ≡ n
unfolding to_uint32 to_int32 to_signed
uint32-int32 n h = elim (Bool-cases (ltb n (2 ^ 31))) [
  | inl low ↦ ground arith
  | inr high ↦ ground arith
]

decode_published :
    (t : ChainTrade)
    → t.pair_index < 2 ^ 32
    → t.leverage < 2 ^ 32
    → decode_trade_struct (published t) ≡ some (as_trade t)
unfolding decode_trade_struct get_field as_int32 to_big text_beq
decode_published t p l = rw (uint32-int32 t.pair_index p, uint32-int32 t.leverage l) refl

as_int32-index : (i : ℕ) → i < 2 ^ 31 → as_int32 (uint32 i) ≡ some (pos i)
unfolding as_int32 to_int32 to_signed
as_int32-index i h = ground arith

-- An `opened` event whose topics name a trader and a pair, and whose value holds a trade index, the
-- trade and the open fee as the contract publishes them, is decoded to exactly that trader, pair,
-- index, trade and fee, and nothing else of the event changes, provided that the pair and the trade
-- index are below 2 ^ 31 and the trade's own pair and its leverage below 2 ^ 32.
pub decode_pm-published :
    (topic trader : Text) (pair index : ℕ) (t : ChainTrade) (fee : ℤ) (e : Event)
    → pair < 2 ^ 31
    → index < 2 ^ 31
    → t.pair_index < 2 ^ 32
    → t.leverage < 2 ^ 32
    → decode_pm opened
        (string topic ∷ string trader ∷ uint32 pair ∷ [])
        (vec (cons (uint32 index) (cons (published t) (cons (big fee) nil))))
        e
      ≡ record e {
        trader = trader;
        pair_index = some (pos pair);
        trade_index = some (pos index);
        trade = some (as_trade t);
        open_fee = some fee;
      }
unfolding decode_pm to_big
decode_pm-published topic trader pair index t fee e hp hi tp tl =
    rw (as_int32-index pair hp, as_int32-index index hi, decode_published t tp tl) refl
