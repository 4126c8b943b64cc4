-- ===== src/Keeper/Binance/Digits.antt =====
-- The number that a text of decimal digits stands for, and what becomes of it when the digits after
-- the point are cut off or filled up to fourteen (internal/keeper/binance.go, parsePriceToScale).
use native.Mathlib.Nat.{pow-suc, one-le-pow}
use lumen_liquid_backend.Base.{
  ℕ, zero, suc, ◌+◌, ◌-◌, ◌*◌, ◌/◌, ◌^◌, ◌≤◌, ◌<◌, ◌≡◌, refl, ◌∙◌, ap, sym, inl, inr, some, [], ◌∷◌,
  ◌++◌, leb, length, take, drop, replicate, arith, Bool-cases, length-append, text_eq, tests,
}
use lumen_liquid_backend.Base.Int.{pos}
use lumen_liquid_backend.Base.Text.{Text, IsDigits, parse_from, parse_ℕ, parse_ℤ}

-- The number that decimal digits stand for, read on from an accumulator.
abbrev pub value_from : ℕ → Text → ℕ
value_from acc [] = acc
value_from acc (c ∷ s) = value_from (acc * 10 + (c - 48)) s

abbrev pub value : Text → ℕ
value = value_from 0

parse_from-value_from :
    (acc : ℕ) (s : Text) → IsDigits s → parse_from acc s ≡ some (value_from acc s)
unfolding parse_from
parse_from-value_from acc [] h = refl
parse_from-value_from acc (c ∷ s) h =
    ground (arith, parse_from-value_from (acc * 10 + (c - 48)) s h.1)

pub parse_ℤ-value :
    (c : ℕ) (s : Text) → IsDigits (c ∷ s) → parse_ℤ (c ∷ s) ≡ some (pos (value (c ∷ s)))
unfolding parse_ℤ parse_ℕ
parse_ℤ-value c s h = ground (arith, parse_from-value_from 0 (c ∷ s) h)

value_from-append :
    (acc : ℕ) (s t : Text) → value_from acc (s ++ t) ≡ value_from (value_from acc s) t
value_from-append acc [] t = refl
value_from-append acc (c ∷ s) t = value_from-append (acc * 10 + (c - 48)) s t

shift_digit : (acc d p v : ℕ) → (acc * 10 + d) * p + v ≡ acc * (p * 10) + ((0 + d) * p + v)
shift_digit acc d p v = grind arith

value_from-split : (acc : ℕ) (t : Text) → value_from acc t ≡ acc * 10 ^ length t + value_from 0 t
value_from-split acc [] = omega arith
value_from-split acc (c ∷ t) =
    rw
      (
        value_from-split (acc * 10 + (c - 48)) t,
        value_from-split (0 + (c - 48)) t,
        pow-suc 10 (length t),
      )
      (shift_digit acc (c - 48) (10 ^ length t) (value_from 0 t))

below_power : (d p v : ℕ) → d < 10 → v < p → d * p + v < p * 10
below_power d p v h k = grind arith

value-bound : (t : Text) → IsDigits t → value t < 10 ^ length t
value-bound [] h = omega arith
value-bound (c ∷ t) h =
    rw (value_from-split (0 + (c - 48)) t, pow-suc 10 (length t))
      (below_power (0 + (c - 48)) (10 ^ length t) (value t) (omega (arith, h.0))
        (value-bound t h.1))

value-zeros : (acc n : ℕ) → value_from acc (replicate n 48) ≡ acc * 10 ^ n
value-zeros acc zero = omega arith
value-zeros acc (suc n) = rw (value-zeros (acc * 10 + 0) n, pow-suc 10 n) (grind arith)

one_more : (a b : ℕ) → suc (a + b) ≡ suc a + b
one_more a b = omega arith

fourteen_split : (k : ℕ) → k ≤ 14 → 14 ≡ k + (14 - k)
fourteen_split k h = omega arith

zero_left : (b : ℕ) → 0 + b ≡ b
zero_left b = omega arith

pow_add : (a b : ℕ) → 10 ^ (a + b) ≡ 10 ^ a * 10 ^ b
pow_add zero b = rw (zero_left b) (omega arith)
pow_add (suc a) b = rw (pow-suc 10 a, ← one_more a b, pow-suc 10 (a + b), pow_add a b) (grind arith)

take_short : (n : ℕ) (t : Text) → length t ≤ n → take n t ≡ t
take_short zero [] h = refl
take_short zero (c ∷ t) h = absurd (omega arith)
take_short (suc n) [] h = refl
take_short (suc n) (c ∷ t) h = ap (λ r. c ∷ r) (take_short n t (omega arith))

take-drop : (n : ℕ) (t : Text) → take n t ++ drop n t ≡ t
take-drop zero t = refl
take-drop (suc n) [] = refl
take-drop (suc n) (c ∷ t) = ap (λ r. c ∷ r) (take-drop n t)

length-take : (n : ℕ) (t : Text) → n ≤ length t → length (take n t) ≡ n
length-take zero t h = refl
length-take (suc n) [] h = absurd (omega arith)
length-take (suc n) (c ∷ t) h = ap suc (length-take n t (omega arith))

pub take-IsDigits : (n : ℕ) (t : Text) → IsDigits t → IsDigits (take n t)
take-IsDigits zero t h = tt
take-IsDigits (suc n) [] h = tt
take-IsDigits (suc n) (c ∷ t) h = (h.0, take-IsDigits n t h.1)

drop-IsDigits : (n : ℕ) (t : Text) → IsDigits t → IsDigits (drop n t)
drop-IsDigits zero t h = h
drop-IsDigits (suc n) [] h = tt
drop-IsDigits (suc n) (c ∷ t) h = drop-IsDigits n t h.1

cancel_rest : (x p q r : ℕ) → 0 < p → r < q → (x * q + r) * p / (p * q) ≡ x
cancel_rest x p q r h k = grind arith

exact_quotient : (a b p : ℕ) → 0 < p → a ≡ b * p → a / p ≡ b
exact_quotient a b p h e = grind arith

rest_quotient : (a x r n p q : ℕ) → 0 < p → r < q → n ≡ p * q → a ≡ (x * q + r) * p → a / n ≡ x
rest_quotient a x r n p q h k e f = rw (f, e) (cancel_rest x p q r h k)

power_above_zero : (n : ℕ) → 0 < 10 ^ n
power_above_zero n = one-le-pow n 10 (omega arith)

regroup : (x p q n : ℕ) → n ≡ p * q → x * n ≡ x * q * p
regroup x p q n e = rw e (grind arith)

powers_of_fourteen : (k : ℕ) → k ≤ 14 → 10 ^ 14 ≡ 10 ^ k * 10 ^ (14 - k)
powers_of_fourteen k h = ap (λ n. 10 ^ n) (fourteen_split k h) ∙ pow_add k (14 - k)

-- The fourteen digits after the point, filled up with zeros.
abbrev pub fourteen : Text → Text
fourteen t = take 14 t ++ replicate (14 - length (take 14 t)) 48

value_from-short :
    (acc : ℕ) (t : Text)
    → length t ≤ 14
    → value_from acc (fourteen t) ≡ value_from acc t * 10 ^ 14 / 10 ^ length t
value_from-short acc t h =
    rw
      (
        take_short 14 t h,
        value_from-append acc t (replicate (14 - length t) 48),
        value-zeros (value_from acc t) (14 - length t),
      )
      (sym (
        exact_quotient _ _ (10 ^ length t) (power_above_zero (length t)) (
          regroup (value_from acc t) (10 ^ length t) (10 ^ (14 - length t)) (10 ^ 14)
            (powers_of_fourteen (length t) h))))

no_zeros : (u : Text) → length u ≡ 14 → replicate {A = ℕ} (14 - length u) 48 ≡ []
no_zeros u e = rw e refl

length_parts : (u w : Text) → length u ≡ 14 → 10 ^ length (u ++ w) ≡ 10 ^ 14 * 10 ^ length w
length_parts u w e = rw (length-append u w, e) (pow_add 14 (length w))

value_from-parts :
    (acc : ℕ) (u w : Text)
    → length u ≡ 14
    → IsDigits w
    → value_from acc u ≡ value_from acc (u ++ w) * 10 ^ 14 / 10 ^ length (u ++ w)
value_from-parts acc u w e d = sym (
    rest_quotient _ (value_from acc u) (value w) _ (10 ^ 14) (10 ^ length w) (omega arith)
      (value-bound w d) (length_parts u w e)
      (ap (λ v. v * 10 ^ 14) (value_from-append acc u w ∙ value_from-split (value_from acc u) w)))

value_from-long :
    (acc : ℕ) (t : Text)
    → IsDigits t
    → 14 ≤ length t
    → value_from acc (fourteen t) ≡ value_from acc t * 10 ^ 14 / 10 ^ length t
value_from-long acc t d h =
    value_from-append acc (take 14 t) (replicate (14 - length (take 14 t)) 48)
    ∙ ap (value_from (value_from acc (take 14 t))) (no_zeros (take 14 t) (length-take 14 t h))
    ∙ value_from-parts acc (take 14 t) (drop 14 t) (length-take 14 t h) (drop-IsDigits 14 t d)
    ∙ ap (λ r. value_from acc r * 10 ^ 14 / 10 ^ length r) (take-drop 14 t)

pub value-fourteen :
    (s t : Text) → IsDigits t → value (s ++ fourteen t) ≡ value (s ++ t) * 10 ^ 14 / 10 ^ length t
value-fourteen s t d =
    value_from-append 0 s (fourteen t)
    ∙ elim (Bool-cases (leb (length t) 14)) [
      | inl short ↦ value_from-short (value s) t (omega (tests, short))
      | inr long ↦ value_from-long (value s) t d (ground arith)
    ]
    ∙ ap (λ v. v * 10 ^ 14 / 10 ^ length t) (sym (value_from-append 0 s t))
