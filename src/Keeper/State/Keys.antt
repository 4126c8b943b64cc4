-- ===== src/Keeper/State/Keys.antt =====
-- The keys of the keeper's maps (internal/keeper/state.go), compared field by field as Go does.
use lumen_liquid_backend.Base.{Bool, true, ◌&&◌, ◌≡◌, ◌↔◌, arith, Eq, ◌==◌, text_eq, text_beq_iff}
use lumen_liquid_backend.Base.Int.{ℤ, int_eq, int_beq_iff}
use lumen_liquid_backend.Base.Text.{Text}

pub record TradeKey : Type 0 where
  pub trader : Text
  pub pair_index : ℤ
  pub trade_index : ℤ

pub record LimitKey : Type 0 where
  pub trader : Text
  pub pair_index : ℤ
  pub limit_index : ℤ

unfoldable pub trade_key_beq : TradeKey → TradeKey → Bool
trade_key_beq a b =
    a.trader == b.trader && (a.pair_index == b.pair_index && a.trade_index == b.trade_index)

pub trade_key_beq_iff : (a b : TradeKey) → (trade_key_beq a b ≡ true) ↔ (a ≡ b)
unfolding trade_key_beq
trade_key_beq_iff a b = ground (
  arith,
  text_beq_iff a.trader b.trader,
  int_beq_iff a.pair_index b.pair_index,
  int_beq_iff a.trade_index b.trade_index,
)

instance abbrev pub trade_key_eq : Eq TradeKey
trade_key_eq = record { test = trade_key_beq; test_iff = trade_key_beq_iff }

unfoldable pub limit_key_beq : LimitKey → LimitKey → Bool
limit_key_beq a b =
    a.trader == b.trader && (a.pair_index == b.pair_index && a.limit_index == b.limit_index)

pub limit_key_beq_iff : (a b : LimitKey) → (limit_key_beq a b ≡ true) ↔ (a ≡ b)
unfolding limit_key_beq
limit_key_beq_iff a b = ground (
  arith,
  text_beq_iff a.trader b.trader,
  int_beq_iff a.pair_index b.pair_index,
  int_beq_iff a.limit_index b.limit_index,
)

instance abbrev pub limit_key_eq : Eq LimitKey
limit_key_eq = record { test = limit_key_beq; test_iff = limit_key_beq_iff }
