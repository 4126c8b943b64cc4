-- ===== src/Base/Sort.antt =====
-- Insertion sort by a Boolean order, for `ORDER BY`. No code of the repository stands here.
use mathlib.Core.Path.{◌≡◌, refl, ap, ◌∙◌}
use mathlib.Core.Bool.{Bool}
use mathlib.Core.List.{List, [], ◌∷◌, map}
use mathlib.Core.Logic.{inl, inr}
use lumen_liquid_backend.Base.Tests.{if◌then◌else◌, Bool-cases}
use lumen_liquid_backend.Base.Lists.{All}

module _ {A : Type 0} (le : A → A → Bool) where
  abbrev pub insert_by : A → List A → List A
  insert_by x [] = x ∷ []
  insert_by x (y ∷ ys) = let rest = insert_by x ys in if le x y then x ∷ y ∷ ys else y ∷ rest

  abbrev pub sort_by : List A → List A
  sort_by [] = []
  sort_by (x ∷ xs) = insert_by x (sort_by xs)

  insert_by-All : (P : A → Type 0) (x : A) (xs : List A) → P x → All P xs → All P (insert_by x xs)
  insert_by-All P x [] h a = (h, tt)
  insert_by-All P x (y ∷ ys) h a = elim (Bool-cases (le x y)) [
    | inl before ↦ rw before (h, a)
    | inr after ↦ rw after (a.0, insert_by-All P x ys h a.1)
  ]

  pub sort_by-All : (P : A → Type 0) (xs : List A) → All P xs → All P (sort_by xs)
  sort_by-All P [] a = tt
  sort_by-All P (x ∷ xs) a = insert_by-All P x (sort_by xs) a.0 (sort_by-All P xs a.1)

-- A map that keeps the order goes through a sort.
module _ {A B : Type 0} (le : A → A → Bool) (le' : B → B → Bool) (f : A → B) where
  insert_by-map :
      (x : A) (xs : List A)
      → ((a b : A) → le' (f a) (f b) ≡ le a b)
      → insert_by le' (f x) (map f xs) ≡ map f (insert_by le x xs)
  insert_by-map x [] same = refl
  insert_by-map x (y ∷ ys) same = elim (Bool-cases (le x y)) [
    | inl before ↦ rw (same x y, before) refl
    | inr after ↦ rw (same x y, after) (ap (λ zs. f y ∷ zs) (insert_by-map x ys same))
  ]

  pub sort_by-map :
      (xs : List A)
      → ((a b : A) → le' (f a) (f b) ≡ le a b)
      → sort_by le' (map f xs) ≡ map f (sort_by le xs)
  sort_by-map [] same = refl
  sort_by-map (x ∷ xs) same =
      ap (insert_by le' (f x)) (sort_by-map xs same) ∙ insert_by-map x (sort_by le xs) same
