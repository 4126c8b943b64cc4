-- ===== src/Keeper/Math/Price.antt =====
-- The liquidation price of internal/keeper/math.go: outcomes, bounds, and how it moves with fees.
use native.Mathlib.Nat.{div-div-eq-div-mul, mul-div_cancel}
use lumen_liquid_backend.Base.{
  ℕ, ◌+◌, ◌*◌, ◌≤◌, ◌<◌, ◌≡◌, ◌≢◌, ap, subst, ◌-◌, ◌/◌, if◌then◌else◌, Bool, true, false, Option,
  none, some, arith,
}
use lumen_liquid_backend.Base.Int.{
  ℤ, pos, ◌+ℤ◌, ◌-ℤ◌, ◌*ℤ◌, ◌≤ℤ◌, quo, int_laws, is_zero, quo_mono, *ℤ_mono_left, *ℤ_pos, neg,
  neg_parts, pos-*ℤ-neg, quo-neg, mul_mono_left, div_mul_le, mul_cancel_le,
}
use lumen_liquid_backend.Keeper.Math.{
  ok, or_zero, liq_numer, liq_distance, liq_price, liquidation_price, is_liquidatable,
}

-- A price comes out exactly when collateral and leverage are not zero and the open price is known,
-- and it is never negative.
pub liquidation_price_ok :
    (o : ℤ) (is_long : Bool) (c : ℤ) (leverage : ℕ) (rollover funding : Option ℤ) (threshold : ℕ)
    → c ≢ pos 0
    → leverage ≢ 0
    → (p : ℤ) × (liquidation_price (some o) is_long (some c) leverage rollover funding threshold
        ≡ ok p)
      × (pos 0 ≤ℤ p)
unfolding liquidation_price
liquidation_price_ok o is_long c leverage rollover funding threshold hc hl = (
  liq_price o is_long
      (liq_distance o (liq_numer c (or_zero rollover) (or_zero funding) threshold) c leverage),
  ground arith,
  ground arith,
)

numer_mono :
    (c r r' f f' : ℤ) (t : ℕ) → r ≤ℤ r' → f ≤ℤ f' → liq_numer c r' f' t ≤ℤ liq_numer c r f t
unfolding liq_numer
numer_mono c r r' f f' t h k = omega int_laws

distance_mono :
    (o : ℕ) (m n : ℤ) (c l : ℕ)
    → m ≤ℤ n
    → liq_distance (pos o) m (pos c) l ≤ℤ liq_distance (pos o) n (pos c) l
unfolding liq_distance
distance_mono o m n c l h = quo_mono l _ _ (quo_mono c _ _ (*ℤ_mono_left o m n h))

price_mono :
    (o : ℤ) (d e : ℤ)
    → d ≤ℤ e
    → (liq_price o true e ≤ℤ liq_price o true d) × (liq_price o false d ≤ℤ liq_price o false e)
unfolding ◌+ℤ◌ ◌-ℤ◌
price_mono o d e h = (ground arith, ground arith)

closer :
    (o c l : ℕ) (r r' f f' : ℤ) (t : ℕ)
    → r ≤ℤ r'
    → f ≤ℤ f'
    → liq_distance (pos o) (liq_numer (pos c) r' f' t) (pos c) l
      ≤ℤ liq_distance (pos o) (liq_numer (pos c) r f t) (pos c) l
closer o c l r r' f f' t h k = distance_mono o _ _ c l (numer_mono (pos c) r r' f f' t h k)

-- For a long, higher fees raise the liquidation price, and for a short they lower it.
pub liquidation_price_mono :
    (o : ℕ) (c l : ℕ) (r r' f f' : ℤ) (t : ℕ) (p q : ℤ) (is_long : Bool)
    → c ≢ 0
    → r ≤ℤ r'
    → f ≤ℤ f'
    → liquidation_price (some (pos o)) is_long (some (pos c)) l (some r) (some f) t ≡ ok p
    → liquidation_price (some (pos o)) is_long (some (pos c)) l (some r') (some f') t ≡ ok q
    → if is_long then p ≤ℤ q else q ≤ℤ p
unfolding liquidation_price
liquidation_price_mono o c l r r' f f' t p q true hc hr hf ep eq = ground (
  arith,
  (price_mono (pos o) (liq_distance (pos o) (liq_numer (pos c) r' f' t) (pos c) l)
      (liq_distance (pos o) (liq_numer (pos c) r f t) (pos c) l)
      (closer o c l r r' f f' t hr hf)).0,
)
liquidation_price_mono o c l r r' f f' t p q false hc hr hf ep eq = ground (
  arith,
  (price_mono (pos o) (liq_distance (pos o) (liq_numer (pos c) r' f' t) (pos c) l)
      (liq_distance (pos o) (liq_numer (pos c) r f t) (pos c) l)
      (closer o c l r r' f f' t hr hf)).1,
)

-- A position with collateral that can be liquidated, at a level of 0 or more, stays so while the price
-- moves against it and fees grow, a short provided that its new level is not 0, which counts as no
-- level.
pub is_liquidatable-stays :
    (o c l : ℕ) (r r' f f' : ℤ) (t : ℕ) (p q x y : ℤ) (is_long : Bool)
    → c ≢ 0
    → r ≤ℤ r'
    → f ≤ℤ f'
    → liquidation_price (some (pos o)) is_long (some (pos c)) l (some r) (some f) t ≡ ok p
    → liquidation_price (some (pos o)) is_long (some (pos c)) l (some r') (some f') t ≡ ok q
    → pos 0 ≤ℤ p
    → (if is_long then y ≤ℤ x else (x ≤ℤ y) × (q ≢ pos 0))
    → is_liquidatable (some x) (some p) is_long ≡ true
    → is_liquidatable (some y) (some q) is_long ≡ true
unfolding is_liquidatable
is_liquidatable-stays o c l r r' f f' t p q x y true hc hr hf ep eq pp move hit =
    let up : p ≤ℤ q = liquidation_price_mono o c l r r' f f' t p q true hc hr hf ep eq in
    ground arith
is_liquidatable-stays o c l r r' f f' t p q x y false hc hr hf ep eq pp move hit =
    let down : q ≤ℤ p = liquidation_price_mono o c l r r' f f' t p q false hc hr hf ep eq in
    let ne : is_zero q ≡ false = ground (arith, move.1) in rw ne (ground arith)

distance_bound : (o c l t : ℕ) → 0 < c → o * (c * t / 100) / c / l * l * 100 ≤ o * t
distance_bound o c l t h = mul_cancel_le c _ _ h (
    omega (
      arith,
      mul_mono_left (100 * c) _ _ (div_mul_le (o * (c * t / 100) / c) l),
      div_mul_le (o * (c * t / 100)) c,
      mul_mono_left o _ _ (div_mul_le (c * t) 100),
    ))

distance_le_open : (o d l t : ℕ) → 0 < l → t ≤ 100 → d * l * 100 ≤ o * t → d ≤ o
distance_le_open o d l t hl ht h = omega (arith, mul_mono_left d 1 l hl, mul_mono_left o t 100 ht)

numer_fee_free : (c t : ℕ) → liq_numer (pos c) (pos 0) (pos 0) t ≡ pos (c * t / 100)
unfolding liq_numer quo ◌-ℤ◌
numer_fee_free c t = rw (*ℤ_pos c t) (ground arith)

distance-pos : (o n c l : ℕ) → liq_distance (pos o) (pos n) (pos c) l ≡ pos (o * n / c / l)
unfolding liq_distance quo
distance-pos o n c l = rw (*ℤ_pos o n)

-- Without fees and with a threshold of at most 100 percent, both sides keep the same distance from
-- the open price, which is at most the threshold's share of the price per unit of leverage.
pub liquidation_price_fee_free :
    (o c l t : ℕ)
    → c ≢ 0
    → l ≢ 0
    → t ≤ 100
    → (d : ℕ) × (liquidation_price (some (pos o)) true (some (pos c)) l none none t
        ≡ ok (pos (o - d)))
      × (liquidation_price (some (pos o)) false (some (pos c)) l none none t ≡ ok (pos (o + d)))
      × (d ≤ o)
      × (d * l * 100 ≤ o * t)
unfolding liquidation_price ◌+ℤ◌ ◌-ℤ◌
liquidation_price_fee_free o c l t hc hl ht =
    let d : ℕ = o * (c * t / 100) / c / l in
    let bound : d * l * 100 ≤ o * t = distance_bound o c l t (omega arith) in
    let within : d ≤ o = distance_le_open o d l t (omega arith) ht bound in
    let far : liq_distance (pos o) (liq_numer (pos c) (pos 0) (pos 0) t) (pos c) l ≡ pos d =
      rw (numer_fee_free c t) (distance-pos o (c * t / 100) c l) in
    (d, ground arith, ground arith, within, bound)

mul_div_back : (o c l : ℕ) → 0 < c → 0 < l → o * (c * l) / c / l ≡ o
mul_div_back o c l hc hl =
    rw (div-div-eq-div-mul (o * (c * l)) c l) (mul-div_cancel o (grind arith))

underwater_distance :
    (o c l : ℕ) (n : ℤ)
    → c ≢ 0
    → l ≢ 0
    → n ≤ℤ neg (c * l)
    → liq_distance (pos o) n (pos c) l ≤ℤ neg o
unfolding liq_distance
underwater_distance o c l n hc hl h =
    let at : quo (quo (pos o *ℤ neg (c * l)) (pos c)) (pos l) ≡ neg o =
      rw (pos-*ℤ-neg o (c * l), quo-neg, quo-neg)
        (ap neg (mul_div_back o c l (omega arith) (omega arith))) in
    subst (λ z. quo (quo (pos o *ℤ n) (pos c)) (pos l) ≤ℤ z) at
      (quo_mono l _ _ (quo_mono c _ _ (*ℤ_mono_left o n (neg (c * l)) h)))

-- A short whose fees exceed the threshold's share of its collateral by the whole leveraged collateral,
-- which is not 0, has the level 0, and the keeper then holds it safe at every price.
pub underwater_short_ignored :
    (o c l : ℕ) (r f : ℤ) (t : ℕ) (x : Option ℤ)
    → c ≢ 0
    → l ≢ 0
    → liq_numer (pos c) r f t ≤ℤ neg (c * l)
    → (liquidation_price (some (pos o)) false (some (pos c)) l (some r) (some f) t ≡ ok (pos 0))
      × (is_liquidatable x (some (pos 0)) false ≡ false)
unfolding liquidation_price is_liquidatable ◌+ℤ◌
underwater_short_ignored o c l r f t x hc hl h =
    let far : liq_distance (pos o) (liq_numer (pos c) r f t) (pos c) l ≤ℤ neg o =
      underwater_distance o c l _ hc hl h in
    (ground (arith, neg_parts o), ground arith)
