-- ===== src/Soroban/ScVal/Wide.antt =====
-- The 128- and 256-bit integers of internal/soroban/scval.go: the shifts and `Or` of math/big on the
-- 64-bit parts, as arithmetic.
use Prim.Native.Nat.{bit_and, bit_or, bit_or-bitwise, bit_and-bitwise, digits, max, min}
use lumen_liquid_backend.Base.{
  ℕ, zero, suc, ◌+◌, ◌-◌, ◌*◌, ◌/◌, ◌%◌, ◌^◌, ◌≤◌, ◌<◌, ◌≡◌, refl, ap, ◌∙◌, some, List, [], ◌∷◌,
  arith,
}
use lumen_liquid_backend.Base.Int.{
  ℤ, pos, negsuc, neg, ◌+ℤ◌, ◌*ℤ◌, int_laws, pos-*ℤ-neg, *ℤ_comm, *ℤ_pos,
}
use lumen_liquid_backend.Soroban.ScVal.{
  Codec, sc_u128, sc_i128, sc_u256, sc_i256, big, native, or_ℤ, lsh64, u128_to_big, i128_to_big,
  u256_to_big, i256_to_big,
}

double : (m k : ℕ) → m * 2 ^ suc k ≡ 2 * (m * 2 ^ k)
double m k = grind arith

max_low : (x y : ℕ) → x ≡ 0 → max x y ≡ y
max_low x y h = omega arith

max_high : (x y : ℕ) → y ≡ 0 → max x y ≡ x
max_high x y h = omega arith

min_low : (x y : ℕ) → y ≡ 0 → min x y ≡ 0
min_low x y h = omega arith

min_high : (x y : ℕ) → x ≡ 1 → y < 2 → min x y ≡ y
min_high x y h k = omega arith

-- With the lower `k` digits of `a` all 0, `Or` with a number of at most `k` digits is the sum.
or_low : (k n a m b : ℕ) → a ≡ m * 2 ^ k → b < 2 ^ k → a ≤ n → digits (λ x. x) max n a b ≡ a + b
or_low k zero a m b e h l = omega arith
or_low k (suc n) zero m b e h l = omega arith
or_low zero (suc n) (suc a) m b e h l = omega (
  arith,
  or_low zero n (suc a / 2) (suc a / 2) (b / 2) (omega arith) (omega arith) (omega arith),
  max_high (suc a % 2) (b % 2) (omega arith),
)
or_low (suc k) (suc n) (suc a) m b e h l = omega (
  arith,
  or_low k n (suc a / 2) m (b / 2) (omega (arith, double m k)) (omega arith) (omega arith),
  max_low (suc a % 2) (b % 2) (omega (arith, double m k)),
  double m k,
)

few_digits : (k m b : ℕ) → suc zero ≡ m * 2 ^ k → b < 2 ^ k → 0 ≡ b
few_digits zero m b e h = omega arith
few_digits (suc k) m b e h = absurd (omega (arith, double m k))

and_low : (k n a m b : ℕ) → suc a ≡ m * 2 ^ k → b < 2 ^ k → a ≤ n → digits (λ x. zero) min n a b ≡ b
and_low k zero zero m b e h l = few_digits k m b e h
and_low k (suc n) zero m b e h l = few_digits k m b e h
and_low k zero (suc a) m b e h l = absurd (omega arith)
and_low zero (suc n) (suc a) m b e h l = omega (
  arith,
  and_low zero n (suc a / 2) (suc (suc a / 2)) (b / 2) (omega arith) (omega arith) (omega arith),
  min_low (suc a % 2) (b % 2) (omega arith),
)
and_low (suc k) (suc n) (suc a) m b e h l = omega (
  arith,
  and_low k n (suc a / 2) m (b / 2) (omega (arith, double m k)) (omega arith) (omega arith),
  min_high (suc a % 2) (b % 2) (omega (arith, double m k)) (omega arith),
)

bit_or-shifted : (m b : ℕ) → b < 2 ^ 64 → bit_or (m * 2 ^ 64) b ≡ m * 2 ^ 64 + b
bit_or-shifted m b h =
    bit_or-bitwise (m * 2 ^ 64) b ∙ or_low 64 (m * 2 ^ 64) (m * 2 ^ 64) m b refl h (omega arith)

bit_and-below : (a m b : ℕ) → suc a ≡ m * 2 ^ 64 → b < 2 ^ 64 → bit_and a b ≡ b
bit_and-below a m b e h = bit_and-bitwise a b ∙ and_low 64 a a m b e h (omega arith)

neg-suc : (n a : ℕ) → n ≡ suc a → neg n ≡ negsuc a
neg-suc zero a e = absurd (omega arith)
neg-suc (suc n) a e = ap negsuc (omega arith)

lsh64-negsuc : (m : ℕ) → lsh64 (negsuc m) ≡ negsuc (suc m * 2 ^ 64 - 1)
unfolding lsh64
lsh64-negsuc m =
    *ℤ_comm (negsuc m) (pos (2 ^ 64)) ∙ pos-*ℤ-neg (2 ^ 64) (suc m) ∙ neg-suc _ _ (omega arith)

negsuc-add : (a b : ℕ) → b ≤ a → negsuc (a - b) ≡ negsuc a +ℤ pos b
negsuc-add a b h = grind int_laws

lsh64-pos : (m : ℕ) → lsh64 (pos m) ≡ pos (m * 2 ^ 64)
unfolding lsh64
lsh64-pos m = *ℤ_pos m (2 ^ 64)

pos-add : (a b : ℕ) → pos (a + b) ≡ pos a +ℤ pos b
pos-add a b = grind int_laws

or_ℤ-pos : (m b : ℕ) → b < 2 ^ 64 → or_ℤ (pos (m * 2 ^ 64)) (pos b) ≡ pos (m * 2 ^ 64) +ℤ pos b
unfolding or_ℤ
or_ℤ-pos m b h = ap pos (bit_or-shifted m b h) ∙ pos-add (m * 2 ^ 64) b

or_ℤ-negsuc :
    (a m b : ℕ) → suc a ≡ suc m * 2 ^ 64 → b < 2 ^ 64 → or_ℤ (negsuc a) (pos b) ≡ negsuc a +ℤ pos b
unfolding or_ℤ
or_ℤ-negsuc a m b e h =
    ap (λ c. negsuc (a - c)) (bit_and-below a (suc m) b e h) ∙ negsuc-add a b (omega arith)

-- One step of all four: a shift by 64 bits, and `Or` with a part.
or_ℤ-lsh64 : (z : ℤ) (b : ℕ) → b < 2 ^ 64 → or_ℤ (lsh64 z) (pos b) ≡ lsh64 z +ℤ pos b
or_ℤ-lsh64 (pos m) b h = rw lsh64-pos (or_ℤ-pos m b h)
or_ℤ-lsh64 (negsuc m) b h = rw lsh64-negsuc (or_ℤ-negsuc _ m b (omega arith) h)

-- The number whose digits in base 2 ^ 64 are these, after those of `z`.
abbrev pub in_words : ℤ → List ℕ → ℤ
in_words z [] = z
in_words z (b ∷ bs) = in_words (z *ℤ pos (2 ^ 64) +ℤ pos b) bs

abbrev pub IsPart : ℕ → Type 0
IsPart b = b < 2 ^ 64

next_part : (z : ℤ) (b : ℕ) → IsPart b → or_ℤ (lsh64 z) (pos b) ≡ z *ℤ pos (2 ^ 64) +ℤ pos b
unfolding lsh64
next_part z b h = or_ℤ-lsh64 z b h

three_parts :
    (z : ℤ) (b c d : ℕ)
    → IsPart b
    → IsPart c
    → IsPart d
    → or_ℤ (lsh64 (or_ℤ (lsh64 (or_ℤ (lsh64 z) (pos b))) (pos c))) (pos d)
      ≡ in_words z (b ∷ c ∷ d ∷ [])
three_parts z b c d hb hc hd = rw (next_part z b hb, next_part _ c hc) (next_part _ d hd)

-- A wide contract integer of any of the four types is read as the number that its parts of 64 bits
-- are the digits of, the first part of a signed one being signed.
pub native_wide :
    (x : Codec) (n : ℕ) (z : ℤ) (b c d : ℕ)
    → IsPart b
    → IsPart c
    → IsPart d
    → (native x (sc_u128 n b) ≡ some (big (in_words (pos n) (b ∷ []))))
      × (native x (sc_i128 z b) ≡ some (big (in_words z (b ∷ []))))
      × (native x (sc_u256 n b c d) ≡ some (big (in_words (pos n) (b ∷ c ∷ d ∷ []))))
      × (native x (sc_i256 z b c d) ≡ some (big (in_words z (b ∷ c ∷ d ∷ []))))
unfolding native u128_to_big i128_to_big u256_to_big i256_to_big
native_wide x n z b c d hb hc hd = (
  ap (λ w. some (big w)) (next_part (pos n) b hb),
  ap (λ w. some (big w)) (next_part z b hb),
  ap (λ w. some (big w)) (three_parts (pos n) b c d hb hc hd),
  ap (λ w. some (big w)) (three_parts z b c d hb hc hd),
)
