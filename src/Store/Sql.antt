-- ===== src/Store/Sql.antt =====
-- The statements of internal/store/store.go that write one row.
use lumen_liquid_backend.Base.{◌≡◌, refl, Option, none, some, Eq, Option-cases, inl, inr}
use lumen_liquid_backend.Base.Assoc.{Map, lookup, insert, lookup-insert_self}

-- What an upsert leaves under its key.
abbrev pub upserted {ℓ} : {V : Type ℓ} → V → (V → V) → Option V → V
upserted fresh change none = fresh
upserted fresh change (some v) = change v

module _ {K : Type 0} {V : Type 0} ⦃e : Eq K⦄ where
  -- `INSERT … ON CONFLICT DO UPDATE`: the new row, or the change of the row that is there.
  unfoldable pub upsert : K → V → (V → V) → Map K V → Map K V
  upsert k fresh change m = elim (lookup k m) [
    | none ↦ insert k fresh m
    | some v ↦ insert k (change v) m
  ]

  -- `UPDATE … WHERE`
  unfoldable pub update_row : K → (V → V) → Map K V → Map K V
  update_row k change m = elim (lookup k m) [ none ↦ m | some v ↦ insert k (change v) m ]

  -- `INSERT … ON CONFLICT DO NOTHING`
  unfoldable pub insert_new : K → V → Map K V → Map K V
  insert_new k v m = elim (lookup k m) [ none ↦ insert k v m | some w ↦ m ]

  pub upsert-insert :
      (k : K) (fresh : V) (change : V → V) (m : Map K V)
      → upsert k fresh change m ≡ insert k (upserted fresh change (lookup k m)) m
  unfolding upsert
  upsert-insert k fresh change m = elim (Option-cases (lookup k m)) [
    | inl missing ↦ rw (missing, upsert) refl
    | inr (v, found) ↦ rw (found, upsert) refl
  ]

  pub lookup-upsert_self :
      (k : K) (fresh : V) (change : V → V) (m : Map K V)
      → lookup k (upsert k fresh change m) ≡ some (upserted fresh change (lookup k m))
  lookup-upsert_self k fresh change m =
      rw (upsert-insert k fresh change m)
        (lookup-insert_self k (upserted fresh change (lookup k m)) m)

  pub update_row-missing :
      (k : K) (change : V → V) (m : Map K V) → lookup k m ≡ none → update_row k change m ≡ m
  unfolding update_row
  update_row-missing k change m h = rw (h, update_row) refl

  pub update_row-found :
      (k : K) (change : V → V) (m : Map K V) (v : V)
      → lookup k m ≡ some v
      → update_row k change m ≡ insert k (change v) m
  unfolding update_row
  update_row-found k change m v h = rw (h, update_row) refl

  insert_new-missing :
      (k : K) (v : V) (m : Map K V) → lookup k m ≡ none → insert_new k v m ≡ insert k v m
  unfolding insert_new
  insert_new-missing k v m h = rw (h, insert_new) refl

  insert_new-found : (k : K) (v w : V) (m : Map K V) → lookup k m ≡ some w → insert_new k v m ≡ m
  unfolding insert_new
  insert_new-found k v w m h = rw (h, insert_new) refl

  -- A key that was inserted keeps its first row.
  pub insert_new-again :
      (k : K) (v w : V) (m : Map K V) → insert_new k w (insert_new k v m) ≡ insert_new k v m
  insert_new-again k v w m = elim (Option-cases (lookup k m)) [
    | inl missing ↦
        rw (insert_new-missing k v m missing)
          (insert_new-found k w v (insert k v m) (lookup-insert_self k v m))
    | inr (u, found) ↦ rw (insert_new-found k v u m found) (insert_new-found k w u m found)
  ]
