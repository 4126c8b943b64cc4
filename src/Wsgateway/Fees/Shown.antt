-- ===== src/Wsgateway/Fees/Shown.antt =====
-- The liquidation level that clients are shown (internal/wsgateway/cache.go) against the level that
-- the keeper acts on (internal/keeper/detector.go).
use lumen_liquid_backend.Base.{
  ℕ, ◌≡◌, refl, Bool, true, false, Option, none, some, if◌then◌else◌, nat_eq,
}
use lumen_liquid_backend.Base.Int.{ℤ}
use lumen_liquid_backend.Base.Text.{print_ℤ, parse_ℤ-print_ℤ}
use lumen_liquid_backend.Keeper.Math.{
  Result, ok, err, rollover_fee_for_trade, funding_fee_for_trade, liquidation_price,
}
use lumen_liquid_backend.Keeper.State.{TradeEntry, PairFeeState}
use lumen_liquid_backend.Keeper.Detector.{current_liquidation_price, bind_ok, funding_now}
use lumen_liquid_backend.Wsgateway.Cache.{CachedTrade}
use lumen_liquid_backend.Wsgateway.Fees.{
  PairFeeSnapshot, with_rollover, with_funding, with_liq, fees_and_liq,
  calculate_trade_time_fees_and_liq, set_dynamic_trade_fees, threshold_p,
}

-- The shown trade has the texts of the watched trade's amounts, which are all known.
pub record IsShown (t : CachedTrade) (w : TradeEntry) : Type 0 where
  pub price : ℤ
  pub collat : ℤ
  pub roll : ℤ
  pub fund : ℤ
  pub price_shown : t.open_price ≡ print_ℤ price
  pub price_known : w.open_price ≡ some price
  pub collat_shown : t.collateral ≡ print_ℤ collat
  pub collat_known : w.collateral ≡ some collat
  pub roll_shown : t.acc_rollover_open ≡ print_ℤ roll
  pub roll_known : w.acc_rollover_open ≡ some roll
  pub fund_shown : t.acc_funding_open ≡ print_ℤ fund
  pub fund_known : w.acc_funding_open ≡ some fund
  pub side : t.is_long ≡ w.is_long
  pub same_leverage : t.leverage ≡ w.leverage

-- The row of the database has the texts of the accumulators that the keeper holds.
pub record IsStored (s : PairFeeSnapshot) (fee : PairFeeState) (p : ℕ) : Type 0 where
  pub roll : ℤ
  pub long : ℤ
  pub short : ℤ
  pub roll_shown : s.acc_rollover ≡ print_ℤ roll
  pub roll_known : fee.acc_rollover ≡ some roll
  pub long_shown : s.acc_funding_long ≡ print_ℤ long
  pub long_known : fee.acc_funding_long ≡ some long
  pub short_shown : s.acc_funding_short ≡ print_ℤ short
  pub short_known : fee.acc_funding_short ≡ some short
  pub threshold : s.liq_threshold_p ≡ p

abbrev value : Result ℤ → Option ℤ
value (ok z) = some z
value (err e) = none

with_liq-value : (r f : ℤ) (l : Result ℤ) → (with_liq r f l).current_liq ≡ value l
with_liq-value r f (ok l) = refl
with_liq-value r f (err e) = refl

with_rollover-value :
    (level : ℤ → ℤ → Result ℤ) (roll fund : Result ℤ)
    → (with_rollover (λ r. with_funding (λ f. level r f) r fund) roll).current_liq
      ≡ value (bind_ok roll (λ r. bind_ok fund (λ f. level r f)))
with_rollover-value level (err e) fund = refl
with_rollover-value level (ok r) (err e) = refl
with_rollover-value level (ok r) (ok f) = with_liq-value r f (level r f)

abbrev fund_of : Bool → ℤ → ℤ → ℤ
fund_of true long short = long
fund_of false long short = short

funding_shown :
    (s : PairFeeSnapshot) (fee : PairFeeState) (p : ℕ) (i : IsStored s fee p) (is_long : Bool)
    → (if is_long then s.acc_funding_long else s.acc_funding_short)
      ≡ print_ℤ (fund_of is_long i.long i.short)
funding_shown s fee p i true = i.long_shown
funding_shown s fee p i false = i.short_shown

funding_known :
    (s : PairFeeSnapshot) (fee : PairFeeState) (p : ℕ) (i : IsStored s fee p) (is_long : Bool)
    → funding_now is_long fee ≡ some (fund_of is_long i.long i.short)
funding_known s fee p i true = i.long_known
funding_known s fee p i false = i.short_known

calculate-printed :
    (a b c d e f : ℤ) (is_long : Bool) (leverage p : ℕ)
    → calculate_trade_time_fees_and_liq
        (print_ℤ a)
        (print_ℤ b)
        (print_ℤ c)
        (print_ℤ d)
        (print_ℤ e)
        (print_ℤ f)
        is_long
        leverage
        p
      ≡ fees_and_liq a b c d e f is_long leverage p
unfolding calculate_trade_time_fees_and_liq
calculate-printed a b c d e f is_long leverage p =
    rw
      (
        parse_ℤ-print_ℤ a,
        parse_ℤ-print_ℤ b,
        parse_ℤ-print_ℤ c,
        parse_ℤ-print_ℤ d,
        parse_ℤ-print_ℤ e,
        parse_ℤ-print_ℤ f,
      )
      refl

current-value :
    (t : CachedTrade) (w : TradeEntry) (s : PairFeeSnapshot) (fee : PairFeeState) (i : IsShown t w)
    (j : IsStored s fee w.liq_threshold_p)
    → (fees_and_liq i.price i.collat i.roll i.fund j.roll
        (fund_of w.is_long j.long j.short)
        w.is_long
        w.leverage
        w.liq_threshold_p).current_liq
      ≡ value (current_liquidation_price w fee)
unfolding fees_and_liq current_liquidation_price
current-value t w s fee i j =
    rw
      (
        funding_known s fee w.liq_threshold_p j w.is_long,
        i.price_known,
        i.collat_known,
        i.roll_known,
        i.fund_known,
        j.roll_known,
      )
      (with_rollover-value
        (λ r f.
          liquidation_price (some i.price) w.is_long (some i.collat) w.leverage (some r) (some f)
            (threshold_p w.liq_threshold_p))
        (rollover_fee_for_trade (some i.roll) (some j.roll) (some i.collat))
        (funding_fee_for_trade (some i.fund) (some (fund_of w.is_long j.long j.short))
          (some i.collat) w.leverage))

-- For a trade whose amounts are all known, and a database row with the accumulators and the
-- threshold that the keeper holds: whenever the keeper can work out the current liquidation level,
-- the level that clients are shown is the text of that very number.
pub shown_level :
    (t : CachedTrade) (w : TradeEntry) (s : PairFeeSnapshot) (fee : PairFeeState) (level : ℤ)
    → IsShown t w
    → IsStored s fee w.liq_threshold_p
    → current_liquidation_price w fee ≡ ok level
    → (set_dynamic_trade_fees s t).current_liq_price ≡ print_ℤ level
unfolding set_dynamic_trade_fees
shown_level t w s fee level i j known =
    rw
      (
        i.price_shown,
        i.collat_shown,
        i.roll_shown,
        i.fund_shown,
        j.roll_shown,
        j.threshold,
        i.side,
        i.same_leverage,
        funding_shown s fee w.liq_threshold_p j w.is_long,
        calculate-printed i.price i.collat i.roll i.fund j.roll (fund_of w.is_long j.long j.short)
            w.is_long w.leverage w.liq_threshold_p,
        current-value t w s fee i j,
        known,
      )
      refl
