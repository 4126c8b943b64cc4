-- ===== src/Keeper/Math/Funding.antt =====
-- The funding and rollover fees of internal/keeper/math.go: who pays, how much, and how the fees of
-- one trade move with the accumulators.
use lumen_liquid_backend.Base.{
  ℕ, ◌-◌, ◌/◌, ◌*◌, ◌+◌, ◌^◌, ◌≤◌, ◌<◌, ◌≡◌, true, Option, some, arith, if◌then◌else◌, Bool-cases,
  inl, inr,
}
use lumen_liquid_backend.Base.Int.{
  ℤ, pos, ◌+ℤ◌, ◌-ℤ◌, ◌*ℤ◌, ◌≤ℤ◌, quo, int_laws, quo_mono, ltb_ℤ, neg_ℤ, *ℤ-neg_ℤ, quo-neg_ℤ,
  +ℤ-neg_ℤ, -ℤ-neg_ℤ, neg_ℤ--ℤ, to_int64, *ℤ_pos, *ℤ_mono_right, is_zero,
}
use lumen_liquid_backend.Keeper.Math.{
  ok, or_zero, p_scale, hundred, usdc_scale, paid_by_longs, pending_acc_funding,
  rollover_fee_for_trade, funding_fee_for_trade,
}

denom_lem : p_scale *ℤ hundred ≡ pos 1_000_000_000_000
denom_lem = *ℤ_pos 10_000_000_000 100

-- Seen from the other side the payment changes its sign.
paid_by_longs-swap :
    (ol os : ℤ) (d : ℕ) (r : ℤ) → paid_by_longs os ol d r ≡ neg_ℤ (paid_by_longs ol os d r)
unfolding paid_by_longs
paid_by_longs-swap ol os d r =
    rw
      (
        ← neg_ℤ--ℤ ol os,
        *ℤ-neg_ℤ (ol -ℤ os) (to_int64 (pos d)),
        *ℤ-neg_ℤ ((ol -ℤ os) *ℤ to_int64 (pos d)) r,
      )
      (rw denom_lem (quo-neg_ℤ _ 1_000_000_000_000))

share_swap :
    (a p : ℤ) (o : ℕ)
    → (if ltb_ℤ (pos 0) (pos o) then a +ℤ quo (neg_ℤ p *ℤ usdc_scale) (pos o) else a)
      ≡ (if ltb_ℤ (pos 0) (pos o) then a -ℤ quo (p *ℤ usdc_scale) (pos o) else a)
share_swap a p o = rw (*ℤ-neg_ℤ p usdc_scale, quo-neg_ℤ (p *ℤ usdc_scale) o, +ℤ-neg_ℤ a)

share_swap' :
    (a p : ℤ) (o : ℕ)
    → (if ltb_ℤ (pos 0) (pos o) then a -ℤ quo (neg_ℤ p *ℤ usdc_scale) (pos o) else a)
      ≡ (if ltb_ℤ (pos 0) (pos o) then a +ℤ quo (p *ℤ usdc_scale) (pos o) else a)
share_swap' a p o = rw (*ℤ-neg_ℤ p usdc_scale, quo-neg_ℤ (p *ℤ usdc_scale) o, -ℤ-neg_ℤ a)

-- Funding treats the sides alike: exchanging longs and shorts in the input exchanges them in the
-- result.
pending_acc_funding-swap :
    (al as' : ℤ) (ol os d : ℕ) (r : Option ℤ) (l s : ℤ)
    → pending_acc_funding (some al) (some as') (some (pos ol)) (some (pos os)) d r ≡ ok (l, s)
    → pending_acc_funding (some as') (some al) (some (pos os)) (some (pos ol)) d r ≡ ok (s, l)
unfolding pending_acc_funding
pending_acc_funding-swap al as' ol os d r l s e =
    rw (paid_by_longs-swap (pos ol) (pos os) d (or_zero r), share_swap as', share_swap' al)
      (ground arith)

to_int64-small : (d : ℕ) → d < 2 ^ 63 → to_int64 (pos d) ≡ pos d
unfolding to_int64
to_int64-small d h = ground arith

pos--ℤ : (a b : ℕ) → b ≤ a → pos a -ℤ pos b ≡ pos (a - b)
unfolding ◌-ℤ◌
pos--ℤ a b h = ground arith

paid_by_longs-pos :
    (ol os d r : ℕ)
    → os ≤ ol
    → d < 2 ^ 63
    → paid_by_longs (pos ol) (pos os) d (pos r) ≡ pos ((ol - os) * d * r / 1_000_000_000_000)
unfolding paid_by_longs quo
paid_by_longs-pos ol os d r h hb =
    rw (denom_lem, pos--ℤ ol os h, to_int64-small d hb, *ℤ_pos, *ℤ_pos)

share_pos : (p o : ℕ) → quo (pos p *ℤ usdc_scale) (pos o) ≡ pos (p * 10_000_000 / o)
unfolding quo
share_pos p o = rw *ℤ_pos

mod_bounds : (n d : ℕ) → 0 < d → (n / d * d ≤ n) × (n < (n / d + 1) * d)
mod_bounds n d h = grind arith

-- The amount `x` is `n` divided by `d`, rounded down.
abbrev pub IsShare : ℕ → ℕ → ℕ → Type 0
IsShare x n d = (x * d ≤ n) × (n < (x + 1) * d)

-- While the long side holds at least the open interest of the short side, which is not empty, the
-- rate and the ledger count are positive and the count is below 2 ^ 63, the longs' accumulator rises
-- and the shorts' falls, each by its side's share per unit of open interest of the same amount. The
-- amount is the surplus of the longs times the count and the rate, in parts of 10 ^ 12; all are
-- rounded down.
pub majority_pays :
    (al as' : ℤ) (ol os d r : ℕ)
    → os ≤ ol
    → 0 < os
    → 0 < d
    → d < 2 ^ 63
    → 0 < r
    → (x y paid : ℕ) × (pending_acc_funding
          (some al)
          (some as')
          (some (pos ol))
          (some (pos os))
          d
          (some (pos r))
        ≡ ok (al +ℤ pos x, as' -ℤ pos y))
      × IsShare paid ((ol - os) * d * r) 1_000_000_000_000
      × IsShare x (paid * 10_000_000) ol
      × IsShare y (paid * 10_000_000) os
unfolding pending_acc_funding
majority_pays al as' ol os d r h hs hd hb hr =
    let paid : ℕ = (ol - os) * d * r / 1_000_000_000_000 in
    let amount : paid_by_longs (pos ol) (pos os) d (pos r) ≡ pos paid =
      paid_by_longs-pos ol os d r h hb in
    (
      paid * 10_000_000 / ol,
      paid * 10_000_000 / os,
      paid,
      rw (amount, share_pos paid ol, share_pos paid os) (ground arith),
      mod_bounds ((ol - os) * d * r) 1_000_000_000_000 (omega arith),
      mod_bounds (paid * 10_000_000) ol (omega arith),
      mod_bounds (paid * 10_000_000) os hs,
    )

is_zero→eq : (z : ℤ) → is_zero z ≡ true → z ≡ pos 0
is_zero→eq z h = ground arith

no_accrual : (c : ℕ) → quo (pos 0 *ℤ pos c) usdc_scale ≡ pos 0
unfolding quo
no_accrual c = rw (*ℤ_pos 0 c) (ground arith)

-- The shortcuts for an unchanged accumulator agree with the formulas.
rollover_fee_lem :
    (a n : ℤ) (c : ℕ)
    → rollover_fee_for_trade (some a) (some n) (some (pos c))
      ≡ ok (quo ((n -ℤ a) *ℤ pos c) usdc_scale)
unfolding rollover_fee_for_trade
rollover_fee_lem a n c = elim (Bool-cases (is_zero (n -ℤ a))) [
  | inl same ↦ rw (same, is_zero→eq (n -ℤ a) same, no_accrual c)
  | inr moved ↦ rw moved
]

funding_fee_lem :
    (a n : ℤ) (c l : ℕ)
    → funding_fee_for_trade (some a) (some n) (some (pos c)) l
      ≡ ok (quo ((n -ℤ a) *ℤ pos c) usdc_scale *ℤ pos l)
unfolding funding_fee_for_trade
funding_fee_lem a n c l = elim (Bool-cases (is_zero (n -ℤ a))) [
  | inl same ↦ rw (same, is_zero→eq (n -ℤ a) same, no_accrual c, *ℤ_pos 0 l) (ground arith)
  | inr moved ↦ rw moved
]

accrued_mono :
    (a n m : ℤ) (c : ℕ)
    → n ≤ℤ m
    → quo ((n -ℤ a) *ℤ pos c) usdc_scale ≤ℤ quo ((m -ℤ a) *ℤ pos c) usdc_scale
accrued_mono a n m c h =
    quo_mono 10_000_000 _ _ (*ℤ_mono_right c (n -ℤ a) (m -ℤ a) (omega int_laws))

-- Both fees of a trade come out, and they grow with the accumulator of now.
pub trade_fees_mono :
    (a n m : ℤ) (c l : ℕ)
    → n ≤ℤ m
    → (r r' f f' : ℤ) × (rollover_fee_for_trade (some a) (some n) (some (pos c)) ≡ ok r)
      × (rollover_fee_for_trade (some a) (some m) (some (pos c)) ≡ ok r')
      × (funding_fee_for_trade (some a) (some n) (some (pos c)) l ≡ ok f)
      × (funding_fee_for_trade (some a) (some m) (some (pos c)) l ≡ ok f')
      × (r ≤ℤ r')
      × (f ≤ℤ f')
trade_fees_mono a n m c l h = (
  quo ((n -ℤ a) *ℤ pos c) usdc_scale,
  quo ((m -ℤ a) *ℤ pos c) usdc_scale,
  quo ((n -ℤ a) *ℤ pos c) usdc_scale *ℤ pos l,
  quo ((m -ℤ a) *ℤ pos c) usdc_scale *ℤ pos l,
  rollover_fee_lem a n c,
  rollover_fee_lem a m c,
  funding_fee_lem a n c l,
  funding_fee_lem a m c l,
  accrued_mono a n m c h,
  *ℤ_mono_right l _ _ (accrued_mono a n m c h),
)
