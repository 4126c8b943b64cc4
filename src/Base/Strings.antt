-- ===== src/Base/Strings.antt =====
-- `strings.TrimSpace`, `ToUpper`, `ToLower`, `Split`, `Cut` of the Go standard library and
-- `strconv.Atoi`, on texts of ASCII bytes.
use Prim.Native.Nat.{ℕ, ◌+◌, ◌-◌, ◌^◌}
use mathlib.Core.Path.{◌≡◌, refl}
use mathlib.Core.Logic.{◌≢◌}
use mathlib.Core.Bool.{Bool, false, ◌&&◌, ◌||◌}
use mathlib.Core.Option.{Option, none, some}
use mathlib.Core.List.{List, [], ◌∷◌, ◌++◌}
use native.Mathlib.Omega.{arith}
use lumen_liquid_backend.Base.Tests.{leb, nat_beq, if◌then◌else◌}
use lumen_liquid_backend.Base.Lists.{All}
use lumen_liquid_backend.Base.Int.{ℤ, pos, negsuc, leb_ℤ}
use lumen_liquid_backend.Base.Text.{Text, parse_ℤ, IsDigits}

-- Tab, line feed, vertical tab, form feed, carriage return and the space.
abbrev pub is_space : ℕ → Bool
is_space c = nat_beq c 32 || (leb 9 c && leb c 13)

unfoldable pub trim_left : Text → Text
trim_left [] = []
trim_left (c ∷ s) = if is_space c then trim_left s else c ∷ s

-- A text of spaces only loses all of it.
unfoldable pub trim_right : Text → Text
trim_right [] = []
trim_right (c ∷ s) = elim (trim_right s) [
  | [] ↦ if is_space c then [] else c ∷ []
  | d ∷ t ↦ c ∷ d ∷ t
]

unfoldable pub trim_space : Text → Text
trim_space s = trim_right (trim_left s)

unfoldable pub to_upper : Text → Text
to_upper [] = []
to_upper (c ∷ s) = (if leb 97 c && leb c 122 then c - 32 else c) ∷ to_upper s

unfoldable pub to_lower : Text → Text
to_lower [] = []
to_lower (c ∷ s) = (if leb 65 c && leb c 90 then c + 32 else c) ∷ to_lower s

-- What stands before the first separator, and what stands after it where there is one.
unfoldable pub cut : ℕ → Text → Text × Option Text
cut sep [] = ([], none)
cut sep (c ∷ s) =
    let (before, after) = cut sep s in if nat_beq c sep then ([], some s) else (c ∷ before, after)

abbrev add_to_first : ℕ → List Text → List Text
add_to_first c [] = (c ∷ []) ∷ []
add_to_first c (part ∷ parts) = (c ∷ part) ∷ parts

-- Never without a part.
unfoldable pub split_on : ℕ → Text → List Text
split_on sep [] = [] ∷ []
split_on sep (c ∷ s) =
    let parts = split_on sep s in if nat_beq c sep then [] ∷ parts else add_to_first c parts

-- `Atoi` on a machine of 64 bits.
abbrev in_int64 : ℤ → Option ℤ
in_int64 z = if leb_ℤ (negsuc (2 ^ 63 - 1)) z && leb_ℤ z (pos (2 ^ 63 - 1)) then some z else none

unfoldable pub atoi : Text → Option ℤ
atoi s = elim (parse_ℤ s) [ none ↦ none | some z ↦ in_int64 z ]

pub cut_first : (sep : ℕ) (s t : Text) → All (λ c. c ≢ sep) s → cut sep (s ++ sep ∷ t) ≡ (s, some t)
unfolding cut
cut_first sep [] t h = ground arith
cut_first sep (c ∷ s) t h = rw (cut_first sep s t h.1) (ground (arith, h.0))

pub cut-none : (sep : ℕ) (s : Text) → All (λ c. c ≢ sep) s → cut sep s ≡ (s, none)
unfolding cut
cut-none sep [] h = refl
cut-none sep (c ∷ s) h = rw (cut-none sep s h.1) (ground (arith, h.0))

-- A text without spaces is trimmed to itself.
abbrev pub NoSpaces : Text → Type 0
NoSpaces = All (λ c. is_space c ≡ false)

trim_left-NoSpaces : (s : Text) → NoSpaces s → trim_left s ≡ s
unfolding trim_left
trim_left-NoSpaces [] h = refl
trim_left-NoSpaces (c ∷ s) h = rw (h.0) refl

trim_right-NoSpaces : (s : Text) → NoSpaces s → trim_right s ≡ s
unfolding trim_right
trim_right-NoSpaces [] h = refl
trim_right-NoSpaces (c ∷ []) h = rw (h.0) refl
trim_right-NoSpaces (c ∷ d ∷ s) h = rw (trim_right-NoSpaces (d ∷ s) h.1) refl

pub trim_space-NoSpaces : (s : Text) → NoSpaces s → trim_space s ≡ s
unfolding trim_space
trim_space-NoSpaces s h = rw (trim_left-NoSpaces s h, trim_right-NoSpaces s h) refl

pub IsDigits-NoSpaces : (s : Text) → IsDigits s → NoSpaces s
IsDigits-NoSpaces [] h = tt
IsDigits-NoSpaces (c ∷ s) h = (ground arith, IsDigits-NoSpaces s h.1)
