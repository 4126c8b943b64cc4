-- ===== src/Keeper/Detector.antt =====
-- internal/keeper/detector.go: which watched trades and limit orders a price sets off.
pub mod Sound
pub mod Complete
pub mod Fees
use lumen_liquid_backend.Base.{
  ℕ, Bool, true, false, Option, none, some, List, [], ◌∷◌, ◌++◌, if◌then◌else◌, nat_beq,
}
use lumen_liquid_backend.Base.Int.{ℤ, pos, leb_ℤ, ltb_ℤ}
use lumen_liquid_backend.Keeper.Math.{
  Result, ok, err, rollover_fee_for_trade, funding_fee_for_trade, liquidation_price,
  is_liquidatable, crosses,
}
use lumen_liquid_backend.Keeper.State.{
  TradeKey, LimitKey, TradeEntry, LimitEntry, PairFeeState, TradeState, fee_state,
  get_trades_for_pair, get_limits_for_pair,
}

pub data ActionType : Type 0 where
  liquidate tp_sl limit : ActionType

pub record PendingAction : Type 0 where
  pub type : ActionType
  pub key : TradeKey
  pub is_long : Bool
  pub limit_index : ℤ

-- `if liqThresholdP == 0 { liqThresholdP = 90 }`
abbrev pub threshold_or_90 : ℕ → ℕ
threshold_or_90 p = if nat_beq p 0 then 90 else p

abbrev pub funding_now : Bool → PairFeeState → Option ℤ
funding_now true fee = fee.acc_funding_long
funding_now false fee = fee.acc_funding_short

-- The first failing call ends the computation.
abbrev pub bind_ok : Result ℤ → (ℤ → Result ℤ) → Result ℤ
bind_ok (ok z) f = f z
bind_ok (err e) f = err e

unfoldable pub current_liquidation_price : TradeEntry → PairFeeState → Result ℤ
current_liquidation_price t fee =
    bind_ok (rollover_fee_for_trade t.acc_rollover_open fee.acc_rollover t.collateral) λ rollover.
      bind_ok
        (funding_fee_for_trade t.acc_funding_open (funding_now t.is_long fee) t.collateral
          t.leverage)
        λ funding.
          liquidation_price t.open_price t.is_long t.collateral t.leverage (some rollover)
            (some funding) (threshold_or_90 t.liq_threshold_p)

-- `limit.Cmp(zero_) > 0`, and the level is known.
abbrev pub is_set : Option ℤ → Bool
is_set none = false
is_set (some z) = ltb_ℤ (pos 0) z

-- A known level above zero that the price has reached from the given side.
abbrev pub reached : Bool → ℤ → Option ℤ → Bool
reached is_long price none = false
reached is_long price (some level) =
    if ltb_ℤ (pos 0) level then crosses is_long price level else false

unfoldable pub check_limit : ℤ → Option ℤ → Bool → Bool
check_limit price level is_long = reached is_long price level

-- A long takes profit above and stops below, a short the other way round.
unfoldable pub check_tp_sl : ℤ → Option ℤ → Option ℤ → Bool → Bool
check_tp_sl price tp sl true = if reached false price tp then true else reached true price sl
check_tp_sl price tp sl false = if reached true price tp then true else reached false price sl

-- The level of now where the fees are known and the formula succeeds, else the stored one.
unfoldable pub watched_liq_price : TradeEntry → Option PairFeeState → Option ℤ
watched_liq_price t none = t.liq_price
watched_liq_price t (some fee) = elim (current_liquidation_price t fee) [
  | ok current ↦ some current
  | err e ↦ t.liq_price
]

abbrev pub trade_action : ActionType → TradeEntry → PendingAction
trade_action type t = record { type = type; key = t.key; is_long = t.is_long; limit_index = pos 0 }

-- One round of the first loop: a liquidation comes before take profit and stop loss.
unfoldable pub detect_trade : ℤ → Option PairFeeState → TradeEntry → List PendingAction
detect_trade price fee t =
    if is_liquidatable (some price) (watched_liq_price t fee) t.is_long
    then trade_action liquidate t ∷ []
    else if check_tp_sl price t.tp_price t.sl_price t.is_long
    then trade_action tp_sl t ∷ []
    else []

unfoldable pub detect_trades : ℤ → Option PairFeeState → List TradeEntry → List PendingAction
detect_trades price fee [] = []
detect_trades price fee (t ∷ ts) = detect_trade price fee t ++ detect_trades price fee ts

abbrev pub limit_action : LimitEntry → PendingAction
limit_action l = record {
  type = limit;
  key = record { trader = l.key.trader; pair_index = l.key.pair_index; trade_index = pos 0 };
  is_long = l.is_long;
  limit_index = l.key.limit_index;
}

unfoldable pub detect_limits : ℤ → List LimitEntry → List PendingAction
detect_limits price [] = []
detect_limits price (l ∷ ls) =
    let rest = detect_limits price ls in
    if check_limit price l.limit_price l.is_long then limit_action l ∷ rest else rest

unfoldable pub detect : ℤ → ℤ → TradeState → List PendingAction
detect pair price s =
    detect_trades price (fee_state pair s) (get_trades_for_pair pair s)
    ++ detect_limits price (get_limits_for_pair pair s)
