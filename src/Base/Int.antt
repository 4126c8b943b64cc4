-- ===== src/Base/Int.antt =====
-- Signed integers over the native numbers: Go's `*big.Int` (math/big), with truncated division
-- (`Quo`) and comparison, and the conversions of Go's fixed-width integers.
use Prim.Native.Nat.{ℕ, zero, suc, ◌+◌, ◌-◌, ◌*◌, ◌/◌, ◌%◌, ◌^◌, ◌≤◌, ◌<◌}
use mathlib.Core.Path.{◌≡◌, refl}
use mathlib.Core.Logic.{◌↔◌}
use mathlib.Core.Bool.{Bool, true, false}
use native.Mathlib.Omega.{arith}
use lumen_liquid_backend.Base.Tests.{ltb, leb, if◌then◌else◌}
use lumen_liquid_backend.Base.Equality.{Eq}

-- `negsuc n` is -(n + 1).
pub data ℤ : Type 0 where
  pos : ℕ → ℤ
  negsuc : ℕ → ℤ

abbrev pub pos_part : ℤ → ℕ
pos_part (pos n) = n
pos_part (negsuc n) = 0

abbrev pub neg_part : ℤ → ℕ
neg_part (pos n) = 0
neg_part (negsuc n) = suc n

-- a - b, as an integer.
abbrev pub sub_ℕ : ℕ → ℕ → ℤ
sub_ℕ a b = if leb b a then pos (a - b) else negsuc (b - a - 1)

abbrev pub neg : ℕ → ℤ
neg zero = pos 0
neg (suc n) = negsuc n

infixl 65 ◌+ℤ◌ ◌-ℤ◌
infixl 70 ◌*ℤ◌
infix 50 ◌≤ℤ◌ ◌<ℤ◌
unfoldable pub ◌+ℤ◌ : ℤ → ℤ → ℤ
a +ℤ b = sub_ℕ (pos_part a + pos_part b) (neg_part a + neg_part b)

unfoldable pub ◌-ℤ◌ : ℤ → ℤ → ℤ
a -ℤ b = sub_ℕ (pos_part a + neg_part b) (neg_part a + pos_part b)

unfoldable pub ◌*ℤ◌ : ℤ → ℤ → ℤ
a *ℤ b =
    sub_ℕ (pos_part a * pos_part b + neg_part a * neg_part b)
      (pos_part a * neg_part b + neg_part a * pos_part b)

-- `Quo`: division that rounds toward zero.
unfoldable pub quo : ℤ → ℤ → ℤ
quo (pos a) (pos b) = pos (a / b)
quo (pos a) (negsuc b) = neg (a / suc b)
quo (negsuc a) (pos b) = neg (suc a / b)
quo (negsuc a) (negsuc b) = pos (suc a / suc b)

abbrev pub ◌≤ℤ◌ : ℤ → ℤ → Type 0
a ≤ℤ b = pos_part a + neg_part b ≤ pos_part b + neg_part a

abbrev pub ◌<ℤ◌ : ℤ → ℤ → Type 0
a <ℤ b = pos_part a + neg_part b < pos_part b + neg_part a

abbrev pub ltb_ℤ : ℤ → ℤ → Bool
ltb_ℤ a b = ltb (pos_part a + neg_part b) (pos_part b + neg_part a)

abbrev pub leb_ℤ : ℤ → ℤ → Bool
leb_ℤ a b = leb (pos_part a + neg_part b) (pos_part b + neg_part a)

abbrev pub is_zero : ℤ → Bool
is_zero (pos zero) = true
is_zero (pos (suc n)) = false
is_zero (negsuc n) = false

abbrev pub int_beq : ℤ → ℤ → Bool
int_beq a b = if leb_ℤ a b then leb_ℤ b a else false

pub eq_of_parts : (a b : ℤ) → pos_part a + neg_part b ≡ pos_part b + neg_part a → a ≡ b
eq_of_parts a b h = ground arith

pub int_beq_iff : (a b : ℤ) → (int_beq a b ≡ true) ↔ (a ≡ b)
int_beq_iff a b = ground arith

instance abbrev pub int_eq : Eq ℤ
int_eq = record { test = int_beq; test_iff = int_beq_iff }

-- One lemma for each operation lets `omega` work with the operations shut.
pub +ℤ_parts :
    (a b : ℤ)
    → pos_part (a +ℤ b) + neg_part a + neg_part b ≡ neg_part (a +ℤ b) + pos_part a + pos_part b
unfolding ◌+ℤ◌
+ℤ_parts a b = ground arith

pub -ℤ_parts :
    (a b : ℤ)
    → pos_part (a -ℤ b) + neg_part a + pos_part b ≡ neg_part (a -ℤ b) + pos_part a + neg_part b
unfolding ◌-ℤ◌
-ℤ_parts a b = ground arith

pub ruleset int_laws = (arith, +ℤ_parts, -ℤ_parts, eq_of_parts)

pub mul_mono_left : (m a b : ℕ) → a ≤ b → m * a ≤ m * b
mul_mono_left m a b h = grind arith

pub div_mono : (d a b : ℕ) → a ≤ b → a / d ≤ b / d
div_mono d a b h = grind arith

sub_ℕ_parts : (a b : ℕ) → pos_part (sub_ℕ a b) + b ≡ neg_part (sub_ℕ a b) + a
sub_ℕ_parts a b = ground arith

pub *ℤ_parts :
    (a b : ℤ)
    → pos_part (a *ℤ b) + (pos_part a * neg_part b + neg_part a * pos_part b)
      ≡ neg_part (a *ℤ b) + (pos_part a * pos_part b + neg_part a * neg_part b)
unfolding ◌*ℤ◌
*ℤ_parts a b = sub_ℕ_parts _ _

-- A factor of zero or more keeps the order.
pub *ℤ_mono_left : (m : ℕ) (a b : ℤ) → a ≤ℤ b → pos m *ℤ a ≤ℤ pos m *ℤ b
*ℤ_mono_left m a b h = omega (arith, *ℤ_parts (pos m) a, *ℤ_parts (pos m) b, mul_mono_left m _ _ h)

pub *ℤ_comm : (a b : ℤ) → a *ℤ b ≡ b *ℤ a
*ℤ_comm a b = omega (arith, *ℤ_parts a b, *ℤ_parts b a, eq_of_parts)

pub *ℤ_mono_right : (m : ℕ) (a b : ℤ) → a ≤ℤ b → a *ℤ pos m ≤ℤ b *ℤ pos m
*ℤ_mono_right m a b h = rw (*ℤ_comm a, *ℤ_comm b) (*ℤ_mono_left m a b h)

pub neg_parts : (n : ℕ) → (pos_part (neg n) ≡ 0) × (neg_part (neg n) ≡ n)
neg_parts zero = (refl, refl)
neg_parts (suc n) = (refl, refl)

pub quo_mono : (d : ℕ) (a b : ℤ) → a ≤ℤ b → quo a (pos d) ≤ℤ quo b (pos d)
unfolding quo
quo_mono d (pos a) (pos b) h = omega (arith, div_mono d a b (omega arith))
quo_mono d (pos a) (negsuc b) h = absurd (omega arith)
quo_mono d (negsuc a) (pos b) h = omega (arith, neg_parts (suc a / d))
quo_mono d (negsuc a) (negsuc b) h =
    omega (
      arith,
      neg_parts (suc a / d),
      neg_parts (suc b / d),
      div_mono d (suc b) (suc a) (omega arith),
    )

pub quo_nonneg : (d : ℕ) (a : ℤ) → pos 0 ≤ℤ a → pos 0 ≤ℤ quo a (pos d)
unfolding quo
quo_nonneg d a h = ground arith

-- Conversions: `int32(x)`, `uint32(x)`, `int64(x)` keep the low bits.
abbrev pub mod_ℤ : ℤ → ℕ → ℕ
mod_ℤ (pos n) m = n % m
mod_ℤ (negsuc n) m = m - 1 - n % m

unfoldable pub to_signed : ℕ → ℕ → ℤ
to_signed m w = if ltb w (m / 2) then pos w else negsuc (m - w - 1)

unfoldable pub to_int32 : ℤ → ℤ
unfolding to_signed
to_int32 z = to_signed (2 ^ 32) (mod_ℤ z (2 ^ 32))

unfoldable pub to_int64 : ℤ → ℤ
unfolding to_signed
to_int64 z = to_signed (2 ^ 64) (mod_ℤ z (2 ^ 64))

unfoldable pub to_uint32 : ℤ → ℕ
to_uint32 z = mod_ℤ z (2 ^ 32)

pub div_mul_le : (a b : ℕ) → a / b * b ≤ a
div_mul_le a b = grind arith

pub mul_cancel_le : (c x y : ℕ) → 0 < c → x * c ≤ y * c → x ≤ y
mul_cancel_le c x y h k = grind arith

pub *ℤ_pos : (a b : ℕ) → pos a *ℤ pos b ≡ pos (a * b)
unfolding ◌*ℤ◌
*ℤ_pos a b = ground arith

-- A product of numbers of opposite signs, as a difference.
pub pos-*ℤ-neg : (a b : ℕ) → pos a *ℤ neg b ≡ neg (a * b)
pos-*ℤ-neg a zero = rw *ℤ_pos (ground arith)
pos-*ℤ-neg a (suc b) =
    eq_of_parts _ _ (omega (arith, *ℤ_parts (pos a) (negsuc b), neg_parts (a * suc b)))

pub quo-neg : (n d : ℕ) → quo (neg n) (pos d) ≡ neg (n / d)
unfolding quo
quo-neg zero d = ground arith
quo-neg (suc n) d = refl

-- `Neg`.
abbrev pub neg_ℤ : ℤ → ℤ
neg_ℤ (pos n) = neg n
neg_ℤ (negsuc n) = pos (suc n)

neg_ℤ-neg : (n : ℕ) → neg_ℤ (neg n) ≡ pos n
neg_ℤ-neg zero = refl
neg_ℤ-neg (suc n) = refl

neg_ℤ-sub_ℕ : (a b : ℕ) → neg_ℤ (sub_ℕ a b) ≡ sub_ℕ b a
neg_ℤ-sub_ℕ a b = ground arith

pub *ℤ-neg_ℤ : (a b : ℤ) → neg_ℤ a *ℤ b ≡ neg_ℤ (a *ℤ b)
unfolding ◌*ℤ◌
*ℤ-neg_ℤ (pos zero) b = rw neg_ℤ-sub_ℕ (ground arith)
*ℤ-neg_ℤ (pos (suc n)) b = rw neg_ℤ-sub_ℕ (ground arith)
*ℤ-neg_ℤ (negsuc n) b = rw neg_ℤ-sub_ℕ (ground arith)

pub quo-neg_ℤ : (a : ℤ) (d : ℕ) → quo (neg_ℤ a) (pos d) ≡ neg_ℤ (quo a (pos d))
unfolding quo
quo-neg_ℤ (pos zero) d = ground arith
quo-neg_ℤ (pos (suc n)) d = refl
quo-neg_ℤ (negsuc n) d = rw (neg_ℤ-neg (suc n / d))

pub +ℤ-neg_ℤ : (a b : ℤ) → a +ℤ neg_ℤ b ≡ a -ℤ b
unfolding ◌+ℤ◌ ◌-ℤ◌
+ℤ-neg_ℤ a (pos zero) = ground arith
+ℤ-neg_ℤ a (pos (suc n)) = ground arith
+ℤ-neg_ℤ a (negsuc n) = ground arith

pub -ℤ-neg_ℤ : (a b : ℤ) → a -ℤ neg_ℤ b ≡ a +ℤ b
unfolding ◌+ℤ◌ ◌-ℤ◌
-ℤ-neg_ℤ a (pos zero) = ground arith
-ℤ-neg_ℤ a (pos (suc n)) = ground arith
-ℤ-neg_ℤ a (negsuc n) = ground arith

pub neg_ℤ--ℤ : (a b : ℤ) → neg_ℤ (a -ℤ b) ≡ b -ℤ a
unfolding ◌-ℤ◌
neg_ℤ--ℤ a b = ground arith
