-- ===== src/Keeper/Math.antt =====
-- internal/keeper/math.go: fee accumulators, fees of a trade, liquidation price. A `*big.Int`
-- that may be nil is an `Option ℤ`; `uint64` and `uint32` arguments are numbers, and
-- `int64(deltaLedgers)` keeps its wrap-around. `Quo` is only called with a divisor other than 0.
pub mod Price
pub mod Funding
use lumen_liquid_backend.Base.{
  ℕ, zero, suc, ◌^◌, Bool, true, false, ◌&&◌, ◌||◌, Option, none, some, if◌then◌else◌, ltb, nat_beq,
}
use lumen_liquid_backend.Base.Int.{
  ℤ, pos, negsuc, ◌+ℤ◌, ◌-ℤ◌, ◌*ℤ◌, quo, leb_ℤ, ltb_ℤ, is_zero, to_int64,
}

-- `ErrDivByZero`, `ErrOverflow`, `ErrInvalid`
pub data MathError : Type 0 where
  div_by_zero overflow invalid : MathError

pub data Result (A : Type 0) : Type 0 where
  ok : A → Result A
  err : MathError → Result A

abbrev pub hundred : ℤ
hundred = pos 100

abbrev pub p_scale : ℤ
p_scale = pos 10_000_000_000

abbrev pub usdc_scale : ℤ
usdc_scale = pos 10_000_000

-- A nil accumulator counts as zero.
abbrev pub or_zero : Option ℤ → ℤ
or_zero none = pos 0
or_zero (some z) = z

-- `rate == nil || rate.Sign() == 0`
abbrev pub is_nil_or_zero : Option ℤ → Bool
is_nil_or_zero none = true
is_nil_or_zero (some z) = is_zero z

unfoldable pub pending_acc_rollover : Option ℤ → ℕ → Option ℤ → Result ℤ
pending_acc_rollover acc_per_collateral delta_ledgers rollover_fee_per_ledger_p =
    let acc = or_zero acc_per_collateral in
    let denom = p_scale *ℤ hundred in
    let num = or_zero rollover_fee_per_ledger_p *ℤ usdc_scale in
    let inc = quo (to_int64 (pos delta_ledgers) *ℤ num) denom in
    if nat_beq delta_ledgers 0 || is_nil_or_zero rollover_fee_per_ledger_p
    then ok acc
    else ok (acc +ℤ inc)

-- `paidByLongs` of `PendingAccFunding`.
unfoldable pub paid_by_longs : ℤ → ℤ → ℕ → ℤ → ℤ
paid_by_longs oi_long oi_short delta_ledgers rate =
    let stage = (oi_long -ℤ oi_short) *ℤ to_int64 (pos delta_ledgers) in
    quo (stage *ℤ rate) (p_scale *ℤ hundred)

unfoldable pub pending_acc_funding :
    Option ℤ → Option ℤ → Option ℤ → Option ℤ → ℕ → Option ℤ → Result (ℤ × ℤ)
pending_acc_funding acc_long acc_short oi_long oi_short delta_ledgers funding_fee_per_ledger_p =
    let long = or_zero acc_long in
    let short = or_zero acc_short in
    let ol = or_zero oi_long in
    let os = or_zero oi_short in
    let paid = paid_by_longs ol os delta_ledgers (or_zero funding_fee_per_ledger_p) in
    let new_long = if ltb_ℤ (pos 0) ol then long +ℤ quo (paid *ℤ usdc_scale) ol else long in
    let new_short = if ltb_ℤ (pos 0) os then short -ℤ quo (paid *ℤ usdc_scale) os else short in
    if nat_beq delta_ledgers 0 || is_nil_or_zero funding_fee_per_ledger_p
    then ok (long, short)
    else ok (new_long, new_short)

unfoldable pub rollover_fee_for_trade : Option ℤ → Option ℤ → Option ℤ → Result ℤ
rollover_fee_for_trade acc_open acc_now none = err invalid
rollover_fee_for_trade acc_open acc_now (some collateral) =
    let delta = or_zero acc_now -ℤ or_zero acc_open in
    if is_zero delta then ok (pos 0) else ok (quo (delta *ℤ collateral) usdc_scale)

unfoldable pub funding_fee_for_trade : Option ℤ → Option ℤ → Option ℤ → ℕ → Result ℤ
funding_fee_for_trade acc_open acc_now none leverage = err invalid
funding_fee_for_trade acc_open acc_now (some collateral) leverage =
    let delta = or_zero acc_now -ℤ or_zero acc_open in
    let staged = quo (delta *ℤ collateral) usdc_scale in
    if is_zero delta then ok (pos 0) else ok (staged *ℤ pos leverage)

-- `numer` of `LiquidationPrice`: what is left of the threshold share after the fees.
unfoldable pub liq_numer : ℤ → ℤ → ℤ → ℕ → ℤ
liq_numer collateral rollover_fee funding_fee liq_threshold_p =
    quo (collateral *ℤ pos liq_threshold_p) hundred -ℤ rollover_fee -ℤ funding_fee

-- `distance` of `LiquidationPrice`.
unfoldable pub liq_distance : ℤ → ℤ → ℤ → ℕ → ℤ
liq_distance open_price numer collateral leverage =
    quo (quo (open_price *ℤ numer) collateral) (pos leverage)

-- `liq.Sign() < 0` sets the price to zero.
abbrev pub floor_zero : ℤ → ℤ
floor_zero (pos n) = pos n
floor_zero (negsuc n) = pos 0

abbrev pub liq_price : ℤ → Bool → ℤ → ℤ
liq_price open_price true distance = floor_zero (open_price -ℤ distance)
liq_price open_price false distance = floor_zero (open_price +ℤ distance)

-- The checks in the order of the source: collateral, leverage, open price.
unfoldable pub liquidation_price :
    Option ℤ → Bool → Option ℤ → ℕ → Option ℤ → Option ℤ → ℕ → Result ℤ
liquidation_price open_price is_long none leverage rollover_fee funding_fee liq_threshold_p =
    err div_by_zero
liquidation_price none is_long (some c) leverage rollover_fee funding_fee liq_threshold_p =
    if is_zero c || nat_beq leverage 0 then err div_by_zero else err invalid
liquidation_price (some o) is_long (some c) leverage rollover_fee funding_fee liq_threshold_p =
    let numer = liq_numer c (or_zero rollover_fee) (or_zero funding_fee) liq_threshold_p in
    if is_zero c || nat_beq leverage 0
    then err div_by_zero
    else ok (liq_price o is_long (liq_distance o numer c leverage))

-- `price.Cmp(level) <= 0` for a long, `>= 0` for a short.
abbrev pub crosses : Bool → ℤ → ℤ → Bool
crosses true observed level = leb_ℤ observed level
crosses false observed level = leb_ℤ level observed

unfoldable pub is_liquidatable : Option ℤ → Option ℤ → Bool → Bool
is_liquidatable observed none is_long = false
is_liquidatable none (some liq) is_long = false
is_liquidatable (some observed) (some liq) is_long =
    if is_zero liq then false else crosses is_long observed liq
