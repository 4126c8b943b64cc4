-- ===== src/Keeper/Detector/Fees.antt =====
-- The level that the keeper watches follows the fees.
use lumen_liquid_backend.Base.{ℕ, ◌≡◌, ◌≢◌, ◌∙◌, some, arith, if◌then◌else◌}
use lumen_liquid_backend.Base.Int.{ℤ, pos, ◌≤ℤ◌}
use lumen_liquid_backend.Keeper.Math.{
  ok, rollover_fee_for_trade, funding_fee_for_trade, liquidation_price,
}
use lumen_liquid_backend.Keeper.Math.Price.{liquidation_price_ok, liquidation_price_mono}
use lumen_liquid_backend.Keeper.Math.Funding.{trade_fees_mono}
use lumen_liquid_backend.Keeper.State.{TradeEntry, PairFeeState}
use lumen_liquid_backend.Keeper.Detector.{current_liquidation_price, funding_now, threshold_or_90}

current-eq :
    (t : TradeEntry) (fee : PairFeeState) (o c : ℕ) (ro fo rn fn r f : ℤ)
    → t.open_price ≡ some (pos o)
    → t.collateral ≡ some (pos c)
    → t.acc_rollover_open ≡ some ro
    → t.acc_funding_open ≡ some fo
    → fee.acc_rollover ≡ some rn
    → funding_now t.is_long fee ≡ some fn
    → rollover_fee_for_trade (some ro) (some rn) (some (pos c)) ≡ ok r
    → funding_fee_for_trade (some fo) (some fn) (some (pos c)) t.leverage ≡ ok f
    → current_liquidation_price t fee
      ≡ liquidation_price
          (some (pos o))
          t.is_long
          (some (pos c))
          t.leverage
          (some r)
          (some f)
          (threshold_or_90 t.liq_threshold_p)
unfolding current_liquidation_price
current-eq t fee o c ro fo rn fn r f eo ec er ef en efn hr hf =
    simp (efn, eo, ec, er, ef, en, hr, hf)

-- For a trade with known amounts, a collateral and leverage above zero, the current level is always
-- computed, and when both accumulators grow it moves toward the open position: up for a long, down
-- for a short.
pub current_liquidation_price_mono :
    (t : TradeEntry) (now later : PairFeeState) (o c : ℕ) (ro fo rn rl fn fl : ℤ)
    → t.open_price ≡ some (pos o)
    → t.collateral ≡ some (pos c)
    → t.acc_rollover_open ≡ some ro
    → t.acc_funding_open ≡ some fo
    → now.acc_rollover ≡ some rn
    → later.acc_rollover ≡ some rl
    → funding_now t.is_long now ≡ some fn
    → funding_now t.is_long later ≡ some fl
    → c ≢ 0
    → t.leverage ≢ 0
    → rn ≤ℤ rl
    → fn ≤ℤ fl
    → (p q : ℤ) × (current_liquidation_price t now ≡ ok p)
      × (current_liquidation_price t later ≡ ok q)
      × (if t.is_long then p ≤ℤ q else q ≤ℤ p)
current_liquidation_price_mono t now later o c ro fo rn rl fn fl eo ec er ef en el efn efl hc hl hr
      hf =
    let (r, r', _, _, roll, roll', _, _, rm, _) = trade_fees_mono ro rn rl c t.leverage hr in
    let (_, _, f, f', _, _, fund, fund', _, fm) = trade_fees_mono fo fn fl c t.leverage hf in
    let (p, is_p, _) =
      liquidation_price_ok (pos o) t.is_long (pos c) t.leverage (some r) (some f)
        (threshold_or_90 t.liq_threshold_p) (ground arith) hl in
    let (q, is_q, _) =
      liquidation_price_ok (pos o) t.is_long (pos c) t.leverage (some r') (some f')
        (threshold_or_90 t.liq_threshold_p) (ground arith) hl in
    (
      p,
      q,
      current-eq t now o c ro fo rn fn r f eo ec er ef en efn roll fund ∙ is_p,
      current-eq t later o c ro fo rl fl r' f' eo ec er ef el efl roll' fund' ∙ is_q,
      liquidation_price_mono o c t.leverage r r' f f' (threshold_or_90 t.liq_threshold_p) p q
          t.is_long hc rm fm is_p is_q,
    )
