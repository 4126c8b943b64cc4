-- ===== src/Base/Text.antt =====
-- Go strings as lists of bytes, and the decimal text of integers: `%d`, `(*big.Int).String`,
-- `(*big.Int).SetString(s, 10)` of the Go standard library.
use Prim.Native.Nat.{ℕ, zero, suc, ◌+◌, ◌-◌, ◌*◌, ◌/◌, ◌%◌, ◌≤◌, ◌<◌}
use Prim.Native.Char.{code}
use Prim.Native.String.{String}
use mathlib.Core.Path.{◌≡◌, refl, ap, subst, ◌∙◌}
use mathlib.Core.Logic.{◌≢◌, inl, inr}
use mathlib.Core.Bool.{Bool, true, false, ◌&&◌, ◌||◌}
use mathlib.Core.Option
use mathlib.Core.Option.{Option, none, some}
use mathlib.Core.List.{List, [], ◌∷◌, ◌++◌, append_assoc, append-nil}
use native.Mathlib.Omega.{arith}
use lumen_liquid_backend.Base.Tests.{ltb, leb, nat_beq, if◌then◌else◌, Bool-cases}
use lumen_liquid_backend.Base.Lists.{All, All-append}
use lumen_liquid_backend.Base.Int.{ℤ, pos, negsuc, neg}

abbrev pub Text : Type 0
Text = List ℕ

abbrev pub codes : String → Text
codes String.[] = []
codes (String.◌∷◌ c s) = code c ∷ codes s

abbrev pub is_digit : ℕ → Bool
is_digit c = leb 48 c && leb c 57

-- `strings.HasPrefix` and `strings.Contains`.
unfoldable pub has_prefix : Text → Text → Bool
has_prefix s [] = true
has_prefix [] (c ∷ t) = false
has_prefix (x ∷ s) (c ∷ t) = nat_beq x c && has_prefix s t

unfoldable pub contains : Text → Text → Bool
unfolding has_prefix
contains [] t = has_prefix [] t
contains (x ∷ s) t = has_prefix (x ∷ s) t || contains s t

-- Decimal digits, most significant first; `suc n` rounds are enough for `n`.
unfoldable pub print_fuel : ℕ → ℕ → Text
print_fuel zero n = []
print_fuel (suc f) n =
    let rest = print_fuel f (n / 10) in
    if ltb n 10 then (48 + n) ∷ [] else rest ++ (48 + n % 10) ∷ []

unfoldable pub print_ℕ : ℕ → Text
unfolding print_fuel
print_ℕ n = print_fuel (suc n) n

unfoldable pub print_ℤ : ℤ → Text
unfolding print_ℕ
print_ℤ (pos n) = print_ℕ n
print_ℤ (negsuc n) = 45 ∷ print_ℕ (suc n)

-- Digits read into an accumulator; `none` at any other byte.
unfoldable pub parse_from : ℕ → Text → Option ℕ
parse_from acc [] = some acc
parse_from acc (c ∷ s) =
    let rest = parse_from (acc * 10 + (c - 48)) s in if is_digit c then rest else none

unfoldable pub parse_ℕ : Text → Option ℕ
unfolding parse_from
parse_ℕ [] = none
parse_ℕ (c ∷ s) = parse_from 0 (c ∷ s)

-- `SetString(s, 10)`: an optional sign, then digits.
unfoldable pub parse_ℤ : Text → Option ℤ
unfolding parse_ℕ
parse_ℤ [] = none
parse_ℤ (c ∷ s) =
    if nat_beq c 45
    then Option.map neg (parse_ℕ s)
    else if nat_beq c 43
    then Option.map pos (parse_ℕ s)
    else Option.map pos (parse_ℕ (c ∷ s))

abbrev pub IsDigits : Text → Type 0
IsDigits = All (λ c. (48 ≤ c) × (c ≤ 57))

pub parse_from-digit :
    (acc d n : ℕ) (t : Text)
    → d < 10
    → acc * 10 + d ≡ n
    → parse_from acc ((48 + d) ∷ t) ≡ parse_from n t
unfolding parse_from
parse_from-digit acc d n t h e = rw (← e) (ground arith)

parse_from-print :
    (f n : ℕ) (t : Text) → n < f → parse_from 0 (print_fuel f n ++ t) ≡ parse_from n t
unfolding print_fuel
parse_from-print zero n t h = absurd (omega arith)
parse_from-print (suc f) n t h = elim (Bool-cases (ltb n 10)) [
  | inl small ↦ rw small (parse_from-digit 0 n n t (ground arith) (omega arith))
  | inr big ↦
      rw (big, append_assoc (print_fuel f (n / 10)) ((48 + n % 10) ∷ []) t)
        (parse_from-print f (n / 10) ((48 + n % 10) ∷ t) (ground arith)
          ∙ parse_from-digit (n / 10) (n % 10) n t (omega arith) (omega arith))
]

print_fuel-IsDigits : (f n : ℕ) → IsDigits (print_fuel f n)
unfolding print_fuel
print_fuel-IsDigits zero n = tt
print_fuel-IsDigits (suc f) n = elim (Bool-cases (ltb n 10)) [
  | inl small ↦ rw small ((omega arith, ground arith), tt)
  | inr big ↦ rw big (
      All-append _ (print_fuel f (n / 10)) _ (print_fuel-IsDigits f (n / 10))
        ((omega arith, omega arith), tt))
]

pub print_ℕ-IsDigits : (n : ℕ) → IsDigits (print_ℕ n)
unfolding print_ℕ
print_ℕ-IsDigits n = print_fuel-IsDigits (suc n) n

append-ne-nil : (s : Text) (c : ℕ) → s ++ c ∷ [] ≢ []
append-ne-nil [] c h = cc
append-ne-nil (x ∷ s) c h = cc

pub print_ℕ-ne-nil : (n : ℕ) → print_ℕ n ≢ []
unfolding print_ℕ
print_ℕ-ne-nil n h = elim (Bool-cases (ltb n 10)) [
  | inl small ↦ cc (small, h)
  | inr big ↦ append-ne-nil (print_fuel n (n / 10)) (48 + n % 10) (rw big at h)
]

parse_ℕ-parse_from : (s : Text) → s ≢ [] → parse_ℕ s ≡ parse_from 0 s
unfolding parse_ℕ
parse_ℕ-parse_from [] h = absurd (h refl)
parse_ℕ-parse_from (c ∷ s) h = refl

parse_from-print_ℕ : (n : ℕ) → parse_from 0 (print_ℕ n) ≡ some n
unfolding print_ℕ parse_from
parse_from-print_ℕ n =
    subst (λ s. parse_from 0 s ≡ some n) (append-nil (print_fuel (suc n) n))
      (parse_from-print (suc n) n [] (omega arith))

-- Reading back what `%d` wrote gives the number.
pub parse_ℕ-print_ℕ : (n : ℕ) → parse_ℕ (print_ℕ n) ≡ some n
parse_ℕ-print_ℕ n = parse_ℕ-parse_from (print_ℕ n) (print_ℕ-ne-nil n) ∙ parse_from-print_ℕ n

parse_ℤ-digits : (s : Text) → IsDigits s → parse_ℤ s ≡ Option.map pos (parse_ℕ s)
unfolding parse_ℤ
parse_ℤ-digits [] d = refl
parse_ℤ-digits (c ∷ s) d = ground arith

pub parse_ℤ-print_ℤ : (z : ℤ) → parse_ℤ (print_ℤ z) ≡ some z
unfolding print_ℤ
parse_ℤ-print_ℤ (pos n) =
    parse_ℤ-digits (print_ℕ n) (print_ℕ-IsDigits n) ∙ ap (Option.map pos) (parse_ℕ-print_ℕ n)
parse_ℤ-print_ℤ (negsuc n) = unfold parse_ℤ in ap (Option.map neg) (parse_ℕ-print_ℕ (suc n))

-- A separator that neither part holds splits a text in one way only: at its first place, and at its
-- last.
pub split-first :
    (c : ℕ) (xs ys s t : Text)
    → All (λ x. x ≢ c) xs
    → All (λ x. x ≢ c) ys
    → xs ++ c ∷ s ≡ ys ++ c ∷ t
    → (xs ≡ ys) × (s ≡ t)
split-first c [] [] s t h k e = (refl, cc)
split-first c [] (y ∷ ys) s t h k e = absurd (k.0 (cc))
split-first c (x ∷ xs) [] s t h k e = absurd (h.0 (cc))
split-first c (x ∷ xs) (y ∷ ys) s t h k e =
    let rest = split-first c xs ys s t h.1 k.1 (cc) in (cc (rest.0), rest.1)

middle-All : (c : ℕ) (P : ℕ → Type 0) (s t : Text) → All P (s ++ c ∷ t) → P c
middle-All c P [] t h = h.0
middle-All c P (x ∷ s) t h = middle-All c P s t h.1

pub split-last :
    (c : ℕ) (xs ys s t : Text)
    → All (λ x. x ≢ c) s
    → All (λ x. x ≢ c) t
    → xs ++ c ∷ s ≡ ys ++ c ∷ t
    → (xs ≡ ys) × (s ≡ t)
split-last c [] [] s t h k e = (refl, cc)
split-last c [] (y ∷ ys) s t h k e =
    absurd (middle-All c (λ x. x ≢ c) ys t (subst (All (λ x. x ≢ c)) (cc) h) refl)
split-last c (x ∷ xs) [] s t h k e =
    absurd (middle-All c (λ x. x ≢ c) xs s (subst (All (λ x. x ≢ c)) (cc) k) refl)
split-last c (x ∷ xs) (y ∷ ys) s t h k e =
    let rest = split-last c xs ys s t h k (cc) in (cc (rest.0), rest.1)

IsDigits-no_bar : (s : Text) → IsDigits s → All (λ c. c ≢ 124) s
IsDigits-no_bar [] d = tt
IsDigits-no_bar (c ∷ s) d = (omega arith, IsDigits-no_bar s d.1)

-- The text of a number holds no bar.
pub print_ℤ-no_bar : (z : ℤ) → All (λ c. c ≢ 124) (print_ℤ z)
unfolding print_ℤ
print_ℤ-no_bar (pos n) = IsDigits-no_bar (print_ℕ n) (print_ℕ-IsDigits n)
print_ℤ-no_bar (negsuc n) =
    (omega arith, IsDigits-no_bar (print_ℕ (suc n)) (print_ℕ-IsDigits (suc n)))

pub print_ℤ-injective : (a b : ℤ) → print_ℤ a ≡ print_ℤ b → a ≡ b
print_ℤ-injective a b h = cc (parse_ℤ-print_ℤ a, parse_ℤ-print_ℤ b, ap parse_ℤ h)
