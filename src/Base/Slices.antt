-- ===== src/Base/Slices.antt =====
-- Lemmas on parts of lists: `take`, `drop`, the last entry. No code of the repository stands here.
use Prim.Native.Nat.{ℕ, zero, suc, ◌-◌, ◌≤◌, ◌<◌}
use mathlib.Core.Path.{◌≡◌, refl, ap}
use mathlib.Core.Option.{some}
use mathlib.Core.List.{List, [], ◌∷◌, ◌++◌, map}
use native.Mathlib.Omega.{arith}
use lumen_liquid_backend.Base.Lists.{length, take, drop, get_elem?, length-append}

module _ {A : Type 0} where
  pub length-take : (n : ℕ) (xs : List A) → n ≤ length xs → length (take n xs) ≡ n
  length-take zero xs h = refl
  length-take (suc n) [] h = absurd (omega arith)
  length-take (suc n) (x ∷ xs) h = ap suc (length-take n xs (omega arith))

  pub take-take-suc : (n : ℕ) (xs : List A) → take n (take (suc n) xs) ≡ take n xs
  take-take-suc zero xs = refl
  take-take-suc (suc n) [] = refl
  take-take-suc (suc n) (x ∷ xs) = ap (λ ys. x ∷ ys) (take-take-suc n xs)

  pub take_all : (n : ℕ) (xs : List A) → length xs ≤ n → take n xs ≡ xs
  take_all zero [] h = refl
  take_all zero (x ∷ xs) h = absurd (omega arith)
  take_all (suc n) [] h = refl
  take_all (suc n) (x ∷ xs) h = ap (λ ys. x ∷ ys) (take_all n xs (omega arith))

  -- A list that is longer than a number above zero: the entry at that place ends the first part.
  pub split_at :
      (n : ℕ) (xs : List A)
      → n < length xs
      → (front : List A) × (a : A) × (take (suc n) xs ≡ front ++ a ∷ [])
        × (xs ≡ front ++ a ∷ drop (suc n) xs)
  split_at n [] h = absurd (omega arith)
  split_at zero (x ∷ xs) h = ([], x, refl, refl)
  split_at (suc n) (x ∷ xs) h =
      let (front, a, first, whole) = split_at n xs (omega arith) in
      (x ∷ front, a, ap (λ ys. x ∷ ys) first, ap (λ ys. x ∷ ys) whole)

  last_at : (xs : List A) (a : A) → get_elem? (xs ++ a ∷ []) (length xs) ≡ some a
  last_at [] a = refl
  last_at (x ∷ xs) a = last_at xs a

  last_index : (xs : List A) (a : A) → length (xs ++ a ∷ []) - 1 ≡ length xs
  last_index xs a = omega (arith, length-append xs (a ∷ []))

  pub last_of :
      (xs : List A) (a : A) → get_elem? (xs ++ a ∷ []) (length (xs ++ a ∷ []) - 1) ≡ some a
  last_of xs a = rw last_index (last_at xs a)

  pub take-drop : (n : ℕ) (xs : List A) → take n xs ++ drop n xs ≡ xs
  take-drop zero xs = refl
  take-drop (suc n) [] = refl
  take-drop (suc n) (x ∷ xs) = ap (λ ys. x ∷ ys) (take-drop n xs)

  pub length-drop : (n : ℕ) (xs : List A) → length (drop n xs) ≡ length xs - n
  length-drop zero xs = omega arith
  length-drop (suc n) [] = omega arith
  length-drop (suc n) (x ∷ xs) = omega (arith, length-drop n xs)

module _ {A B : Type 0} (f : A → B) where
  pub map-take : (n : ℕ) (xs : List A) → take n (map f xs) ≡ map f (take n xs)
  map-take zero xs = refl
  map-take (suc n) [] = refl
  map-take (suc n) (x ∷ xs) = ap (λ ys. f x ∷ ys) (map-take n xs)

  pub map-append : (xs ys : List A) → map f (xs ++ ys) ≡ map f xs ++ map f ys
  map-append [] ys = refl
  map-append (x ∷ xs) ys = ap (λ zs. f x ∷ zs) (map-append xs ys)

  pub length-map : (xs : List A) → length (map f xs) ≡ length xs
  length-map [] = refl
  length-map (x ∷ xs) = ap suc (length-map xs)
