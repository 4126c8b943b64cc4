-- ===== src/Base/Assoc.antt =====
-- Go maps as association lists with any key that has an equality test. The order of the list stands
-- for the order in which `range` visits the entries, which Go leaves open. No code of the
-- repository stands here.
use Prim.Native.Nat.{suc, ◌≤◌}
use mathlib.Core.Path.{◌≡◌, refl, sym, subst, subst₂}
use mathlib.Core.Logic.{inl, inr, ◌≢◌}
use mathlib.Core.List.{List, [], ◌∷◌}
use mathlib.Core.Option.{Option, none, some}
use native.Mathlib.Omega.{arith}
use lumen_liquid_backend.Base.Tests.{if◌then◌else◌, Bool-cases}
use lumen_liquid_backend.Base.Lists.{length}
use lumen_liquid_backend.Base.Equality.{Eq, ◌==◌, ==_refl}

abbrev pub Map {ℓ κ} : Type ℓ → Type κ → Type (ℓ ⊔ κ)
Map K V = List (K × V)

module _ {K : Type 0} {V : Type 0} ⦃e : Eq K⦄ where
  unfoldable pub lookup : K → Map K V → Option V
  lookup key [] = none
  lookup key ((i, u) ∷ rest) = if i == key then some u else lookup key rest

  -- `m[k] = v`
  unfoldable pub insert : K → V → Map K V → Map K V
  insert key v [] = (key, v) ∷ []
  insert key v ((i, u) ∷ rest) = if i == key then (i, v) ∷ rest else (i, u) ∷ insert key v rest

  -- `delete(m, k)`
  unfoldable pub erase : K → Map K V → Map K V
  erase k [] = []
  erase k ((j, w) ∷ m) = let rest = erase k m in if j == k then rest else (j, w) ∷ rest

  pub lookup-insert :
      (i j : K) (u : V) (m : Map K V)
      → lookup j (insert i u m) ≡ (if i == j then some u else lookup j m)
  unfolding lookup insert
  lookup-insert i j u [] = refl
  lookup-insert i j u ((key, w) ∷ rest) =
      ground (arith, lookup-insert i j u rest, e.test_iff i j, e.test_iff key i, e.test_iff key j)

  pub lookup-erase :
      (k j : K) (m : Map K V) → lookup j (erase k m) ≡ (if k == j then none else lookup j m)
  unfolding lookup erase
  lookup-erase k j [] = ground arith
  lookup-erase k j ((i, w) ∷ m) =
      ground (arith, e.test_iff k j, e.test_iff i k, e.test_iff i j, lookup-erase k j m)

  -- Writing a value that is there already changes nothing.
  pub insert-insert : (k : K) (v w : V) (m : Map K V) → insert k v (insert k w m) ≡ insert k v m
  unfolding insert
  insert-insert k v w [] = ground (arith, e.test_iff k k)
  insert-insert k v w ((i, u) ∷ m) = ground (arith, e.test_iff i k, insert-insert k v w m)

  pub erase-erase : (k : K) (m : Map K V) → erase k (erase k m) ≡ erase k m
  unfolding erase
  erase-erase k [] = refl
  erase-erase k ((i, u) ∷ m) = ground (arith, erase-erase k m)

  pub length-erase : (k : K) (m : Map K V) → length (erase k m) ≤ length m
  unfolding erase
  length-erase k [] = omega arith
  length-erase k ((i, u) ∷ m) = ground (arith, length-erase k m)

  pub length-insert : (k : K) (v : V) (m : Map K V) → length (insert k v m) ≤ suc (length m)
  unfolding insert
  length-insert k v [] = omega arith
  length-insert k v ((i, u) ∷ m) = ground (arith, length-insert k v m)

  -- No key stands twice.
  abbrev pub Distinct : Map K V → Type 0
  Distinct [] = Unit
  Distinct ((k, v) ∷ m) = (lookup k m ≡ none) × Distinct m

  pub insert-Distinct : (k : K) (v : V) (m : Map K V) → Distinct m → Distinct (insert k v m)
  unfolding insert lookup
  insert-Distinct k v [] d = (refl, tt)
  insert-Distinct k v ((i, u) ∷ m) d =
      ground
        (arith, insert-Distinct k v m d.1, lookup-insert k i v m, e.test_iff k i, e.test_iff i k)

  pub erase-Distinct : (k : K) (m : Map K V) → Distinct m → Distinct (erase k m)
  unfolding erase
  erase-Distinct k [] d = tt
  erase-Distinct k ((i, u) ∷ m) d =
      ground (arith, erase-Distinct k m d.1, lookup-erase k i m, e.test_iff k i, e.test_iff i k)

  -- Every entry satisfies `P`.
  abbrev pub Each {κ} : (K → V → Type κ) → Map K V → Type κ
  Each P [] = Unit
  Each P ((k, v) ∷ m) = P k v × Each P m

module _ {κ} {K : Type 0} {V : Type 0} ⦃e : Eq K⦄ (P : K → V → Type κ) where
  pub erase-Each : (k : K) (m : Map K V) → Each P m → Each P (erase k m)
  unfolding erase
  erase-Each k [] h = tt
  erase-Each k ((i, u) ∷ m) h = elim (Bool-cases (i == k)) [
    | inl hit ↦ rw hit (erase-Each k m h.1)
    | inr miss ↦ rw miss (h.0, erase-Each k m h.1)
  ]

  pub insert-Each : (k : K) (v : V) (m : Map K V) → P k v → Each P m → Each P (insert k v m)
  unfolding insert
  insert-Each k v [] p h = (p, tt)
  insert-Each k v ((i, u) ∷ m) p h = elim (Bool-cases (i == k)) [
    | inl hit ↦ rw hit (subst (λ j. P j v) (sym ((e.test_iff i k).0 hit)) p, h.1)
    | inr miss ↦ rw miss (h.0, insert-Each k v m p h.1)
  ]

  pub lookup-Each : (k : K) (v : V) (m : Map K V) → Each P m → lookup k m ≡ some v → P k v
  unfolding lookup
  lookup-Each k v [] h found = cc
  lookup-Each k v ((i, u) ∷ m) h found = elim (Bool-cases (i == k)) [
    | inl hit ↦ subst₂ P ((e.test_iff i k).0 hit) (cc (hit, found)) h.0
    | inr miss ↦ lookup-Each k v m h.1 (rw miss at found)
  ]

module _ {K : Type 0} {V : Type 0} ⦃e : Eq K⦄ where
  pub lookup-insert_self : (k : K) (v : V) (m : Map K V) → lookup k (insert k v m) ≡ some v
  lookup-insert_self k v m = rw (lookup-insert k k v m, ==_refl k)

  pub lookup-erase_self : (k : K) (m : Map K V) → lookup k (erase k m) ≡ none
  lookup-erase_self k m = rw (lookup-erase k k m, ==_refl k)

  pub lookup-insert_ne :
      (k j : K) (v : V) (m : Map K V) → k ≢ j → lookup j (insert k v m) ≡ lookup j m
  lookup-insert_ne k j v m h = ground (arith, lookup-insert k j v m, e.test_iff k j)

  pub lookup-erase_ne : (k j : K) (m : Map K V) → k ≢ j → lookup j (erase k m) ≡ lookup j m
  lookup-erase_ne k j m h = ground (arith, lookup-erase k j m, e.test_iff k j)
