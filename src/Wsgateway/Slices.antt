-- ===== src/Wsgateway/Slices.antt =====
-- The loops over slices in internal/wsgateway/cache.go (`hasTrade`, `removeTrade`, `updateTradeTpSl`
-- and their twins for limit orders): each stops at the first entry with the wanted indices.
use lumen_liquid_backend.Base.{
  ◌≡◌, refl, Bool, true, false, Option, none, some, List, [], ◌∷◌, ◌++◌, arith, any, if◌then◌else◌,
  Bool-cases, Option-cases, inl, inr, Eq, ◌==◌,
}

abbrev pub cons_found : {A : Type 0} → A → Option (List A) → Option (List A)
cons_found x none = none
cons_found x (some ys) = some (x ∷ ys)

module _ {K : Type 0} {A : Type 0} ⦃e : Eq K⦄ (key : A → K) where
  abbrev pub has_key : K → List A → Bool
  has_key k xs = any (λ x. key x == k) xs

  -- The slice without its first entry under `k`; `none` where there is no such entry.
  unfoldable pub remove_first : K → List A → Option (List A)
  remove_first k [] = none
  remove_first k (x ∷ xs) =
      let rest = cons_found x (remove_first k xs) in if key x == k then some xs else rest

  unfoldable pub update_first : (A → A) → K → List A → Option (List A)
  update_first f k [] = none
  update_first f k (x ∷ xs) =
      let rest = cons_found x (update_first f k xs) in if key x == k then some (f x ∷ xs) else rest

  -- No two entries have the same key.
  abbrev pub Unique : List A → Type 0
  Unique [] = Unit
  Unique (x ∷ xs) = (has_key (key x) xs ≡ false) × Unique xs

  pub remove_first-absent : (k : K) (xs : List A) → has_key k xs ≡ false → remove_first k xs ≡ none
  unfolding remove_first
  remove_first-absent k [] h = refl
  remove_first-absent k (x ∷ xs) h = ground (arith, remove_first-absent k xs)

  pub update_first-absent :
      (f : A → A) (k : K) (xs : List A) → has_key k xs ≡ false → update_first f k xs ≡ none
  unfolding update_first
  update_first-absent f k [] h = refl
  update_first-absent f k (x ∷ xs) h = ground (arith, update_first-absent f k xs)

  has_key-remove_first_other :
      (j k : K) (xs ys : List A)
      → has_key j xs ≡ false
      → remove_first k xs ≡ some ys
      → has_key j ys ≡ false
  unfolding remove_first
  has_key-remove_first_other j k [] ys a h = cc
  has_key-remove_first_other j k (x ∷ xs) ys a h = elim (Option-cases (remove_first k xs)) [
    | inl missing ↦ ground arith
    | inr (zs, found) ↦ ground (arith, has_key-remove_first_other j k xs zs)
  ]

  -- Of unique keys none is left once its entry is removed.
  pub has_key-remove_first :
      (k : K) (xs ys : List A) → Unique xs → remove_first k xs ≡ some ys → has_key k ys ≡ false
  unfolding remove_first
  has_key-remove_first k [] ys u h = cc
  has_key-remove_first k (x ∷ xs) ys u h = elim (Option-cases (remove_first k xs)) [
    | inl missing ↦ ground (arith, e.test_iff (key x) k)
    | inr (zs, found) ↦ ground (arith, e.test_iff (key x) k, has_key-remove_first k xs zs)
  ]

  pub has_key-append : (k : K) (x : A) (xs : List A) → key x ≡ k → has_key k (xs ++ x ∷ []) ≡ true
  has_key-append k x [] h = ground (arith, e.test_iff (key x) k)
  has_key-append k x (y ∷ ys) h = ground (arith, has_key-append k x ys h)

  has_key-append_ne :
      (k : K) (x : A) (xs : List A)
      → (key x == k) ≡ false
      → has_key k xs ≡ false
      → has_key k (xs ++ x ∷ []) ≡ false
  has_key-append_ne k x [] h a = ground arith
  has_key-append_ne k x (y ∷ ys) h a = ground (arith, has_key-append_ne k x ys h)

  pub append-Unique :
      (x : A) (xs : List A) → has_key (key x) xs ≡ false → Unique xs → Unique (xs ++ x ∷ [])
  append-Unique x [] a u = (refl, tt)
  append-Unique x (y ∷ ys) a u = (
    has_key-append_ne (key y) x ys
        (ground (arith, e.test_iff (key x) (key y), e.test_iff (key y) (key x))) u.0,
    append-Unique x ys (ground arith) u.1,
  )

  pub remove_first-Unique :
      (k : K) (xs ys : List A) → Unique xs → remove_first k xs ≡ some ys → Unique ys
  unfolding remove_first
  remove_first-Unique k [] ys u h = absurd (cc)
  remove_first-Unique k (x ∷ xs) ys u h = elim (Option-cases (remove_first k xs)) [
    | inl missing ↦ ground arith
    | inr (zs, found) ↦ ground (
      arith,
      remove_first-Unique k xs zs u.1 found,
      has_key-remove_first_other (key x) k xs zs u.0 found,
    )
  ]

  -- An update that keeps the key and is done twice over changes nothing the second time.
  module _ (f : A → A) (same_key : (x : A) → key (f x) ≡ key x)
      (twice : (x : A) → f (f x) ≡ f x) where
    pub update_first_again :
        (k : K) (xs ys : List A) → update_first f k xs ≡ some ys → update_first f k ys ≡ some ys
    unfolding update_first
    update_first_again k [] ys h = absurd (cc)
    update_first_again k (x ∷ xs) ys h = elim (Bool-cases (key x == k)) [
      | inl hit ↦ ground (arith, same_key x, twice x)
      | inr miss ↦ elim (Option-cases (update_first f k xs)) [
        | inl missing ↦ cc (miss, missing)
        | inr (zs, found) ↦ ground (arith, update_first_again k xs zs found)
      ]
    ]

    has_key-update_first :
        (j k : K) (xs ys : List A) → update_first f k xs ≡ some ys → has_key j ys ≡ has_key j xs
    unfolding update_first
    has_key-update_first j k [] ys h = cc
    has_key-update_first j k (x ∷ xs) ys h = elim (Option-cases (update_first f k xs)) [
      | inl missing ↦ ground (arith, same_key x)
      | inr (zs, found) ↦ ground (arith, same_key x, has_key-update_first j k xs zs found)
    ]

    pub update_first-Unique :
        (k : K) (xs ys : List A) → Unique xs → update_first f k xs ≡ some ys → Unique ys
    unfolding update_first
    update_first-Unique k [] ys u h = absurd (cc)
    update_first-Unique k (x ∷ xs) ys u h = elim (Option-cases (update_first f k xs)) [
      | inl missing ↦ ground (arith, same_key x)
      | inr (zs, found) ↦ ground (
        arith,
        same_key x,
        update_first-Unique k xs zs u.1 found,
        has_key-update_first (key x) k xs zs found,
      )
    ]
