-- ===== src/Keeper/Binance/Price.antt =====
-- The price of a trade message, at the scale of the oracle.
use lumen_liquid_backend.Base.{
  ℕ, zero, suc, ◌*◌, ◌/◌, ◌^◌, ◌≡◌, ◌≢◌, refl, false, Option, none, some, [], ◌∷◌, ◌++◌,
  if◌then◌else◌, nat_beq, length, take, replicate, All, All-append, arith, text_eq, text_beq,
}
use lumen_liquid_backend.Base.Int.{ℤ, pos}
use lumen_liquid_backend.Base.Text.{Text, IsDigits, parse_ℤ}
use lumen_liquid_backend.Base.Strings.{
  NoSpaces, trim_space, trim_left, trim_right, trim_space-NoSpaces, IsDigits-NoSpaces, cut_first,
  cut-none,
}
use lumen_liquid_backend.Keeper.Binance.{positive, scaled_digits, parse_price_to_scale}
use lumen_liquid_backend.Keeper.Binance.Digits.{
  value, fourteen, value-fourteen, take-IsDigits, parse_ℤ-value,
}

-- The price that a decimal number of the given digits stands for, at the scale of the oracle.
abbrev pub price_of : Text → Text → Option ℤ
price_of s t =
    let price = value (s ++ t) * 10 ^ 14 / 10 ^ length t in
    if nat_beq price 0 then none else some (pos price)

replicate-IsDigits : (n : ℕ) → IsDigits (replicate n 48)
replicate-IsDigits zero = tt
replicate-IsDigits (suc n) = ((omega arith, omega arith), replicate-IsDigits n)

fourteen-IsDigits : (s t : Text) → IsDigits s → IsDigits t → IsDigits (s ++ fourteen t)
fourteen-IsDigits s t hs ht =
    All-append _ s (fourteen t) hs
      (All-append _ (take 14 t) _ (take-IsDigits 14 t ht) (replicate-IsDigits _))

parse_ℤ-fourteen :
    (s t : Text)
    → IsDigits (s ++ fourteen t)
    → parse_ℤ (s ++ fourteen t) ≡ some (pos (value (s ++ fourteen t)))
parse_ℤ-fourteen [] [] h = parse_ℤ-value 48 _ h
parse_ℤ-fourteen [] (c ∷ t) h = parse_ℤ-value c _ h
parse_ℤ-fourteen (c ∷ s) t h = parse_ℤ-value c _ h

scaled_price :
    (s t : Text) → IsDigits s → IsDigits t → positive (parse_ℤ (s ++ fourteen t)) ≡ price_of s t
scaled_price s t hs ht =
    rw (parse_ℤ-fourteen s t (fourteen-IsDigits s t hs ht), value-fourteen s t ht) (ground arith)

IsDigits-no_point : (s : Text) → IsDigits s → All (λ c. c ≢ 46) s
IsDigits-no_point [] h = tt
IsDigits-no_point (c ∷ s) h = (omega arith, IsDigits-no_point s h.1)

point-NoSpaces : (s t : Text) → IsDigits s → IsDigits t → NoSpaces (s ++ 46 ∷ t)
point-NoSpaces s t hs ht =
    All-append _ s (46 ∷ t) (IsDigits-NoSpaces s hs) (refl, IsDigits-NoSpaces t ht)

point-filled : (s t : Text) → text_beq (s ++ 46 ∷ t) [] ≡ false
unfolding text_beq
point-filled [] t = refl
point-filled (c ∷ s) t = refl

with_point :
    (s t : Text) → IsDigits s → IsDigits t → parse_price_to_scale (s ++ 46 ∷ t) ≡ price_of s t
unfolding parse_price_to_scale scaled_digits
with_point s t hs ht =
    rw
      (
        trim_space-NoSpaces (s ++ 46 ∷ t) (point-NoSpaces s t hs ht),
        cut_first 46 s t (IsDigits-no_point s hs),
        point-filled s t,
      )
      (scaled_price s t hs ht)

without_point : (s : Text) → IsDigits s → parse_price_to_scale s ≡ price_of s []
unfolding parse_price_to_scale scaled_digits text_beq trim_space trim_left trim_right
without_point [] h = refl
without_point (c ∷ s) h =
    rw
      (
        trim_space-NoSpaces (c ∷ s) (IsDigits-NoSpaces (c ∷ s) h),
        cut-none 46 (c ∷ s) (IsDigits-no_point (c ∷ s) h),
      )
      (scaled_price (c ∷ s) [] h tt)

-- A price text of digits with a point between them, or of digits alone, is read as the number it
-- stands for times 10 ^ 14, rounded down; it gives no price exactly when that is zero.
pub parse_price_of :
    (s t : Text)
    → IsDigits s
    → IsDigits t
    → (parse_price_to_scale (s ++ 46 ∷ t) ≡ price_of s t) × (parse_price_to_scale s ≡ price_of s [])
parse_price_of s t hs ht = (with_point s t hs ht, without_point s hs)
