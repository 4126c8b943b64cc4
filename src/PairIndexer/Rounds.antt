-- ===== src/PairIndexer/Rounds.antt =====
-- The rows of the pairs, round by round (cmd/pair-indexer/main.go).
use lumen_liquid_backend.Base.{
  ℕ, zero, suc, ◌+◌, ◌≤◌, ◌<◌, ◌≡◌, refl, ap, ◌∙◌, Bool, true, false, inl, inr, Option, none, some,
  ◌&&◌, if◌then◌else◌, Bool-cases, arith, ◌==◌, nat_eq, nat_beq_iff, ltb, leb,
}
use lumen_liquid_backend.Base.Text.{Text}
use lumen_liquid_backend.Base.Assoc.{lookup, insert, lookup-insert}
use lumen_liquid_backend.PairIndexer.{PairInfo, Group, FeeState, Oi, PairRecord, FeeRecord, Tables}
use lumen_liquid_backend.PairIndexer.Sync.{
  Registry, Progress, pair_record, upsert_pair, upsert_group, put_fees, fees_read,
  sync_fee_accumulators, group_read, sync_group, pair_read, sync_pair, sync_from,
}

module _ (reg : Registry) (at_ledger : ℕ) where
  -- The fees of a pair touch neither the pairs nor the groups.
  put_fees-kept :
      (a b : Bool) (i : ℕ) (f : FeeRecord) (o : Oi) (t : Tables)
      → ((put_fees a b i f o t).pairs ≡ t.pairs) × ((put_fees a b i f o t).groups ≡ t.groups)
  put_fees-kept false b i f o t = (refl, refl)
  put_fees-kept true false i f o t = (refl, refl)
  put_fees-kept true true i f o t = (refl, refl)

  fees_read-kept :
      (i : ℕ) (r f : Option FeeState) (o : Option Oi) (a : Option Text) (p : Option (Text × Text))
      (t : Tables)
      → ((fees_read reg at_ledger i r f o a p t).pairs ≡ t.pairs)
        × ((fees_read reg at_ledger i r f o a p t).groups ≡ t.groups)
  fees_read-kept i none f o a p t = (refl, refl)
  fees_read-kept i (some r) none o a p t = (refl, refl)
  fees_read-kept i (some r) (some f) none a p t = (refl, refl)
  fees_read-kept i (some r) (some f) (some o) none p t = (refl, refl)
  fees_read-kept i (some r) (some f) (some o) (some a) none t = (refl, refl)
  fees_read-kept i (some r) (some f) (some o) (some a) (some (x, y)) t =
      put_fees-kept (reg.takes_fees i) (reg.takes_oi i) i _ o t

  pub sync_fee_accumulators-kept :
      (i : ℕ) (t : Tables)
      → ((sync_fee_accumulators reg at_ledger i t).pairs ≡ t.pairs)
        × ((sync_fee_accumulators reg at_ledger i t).groups ≡ t.groups)
  unfolding sync_fee_accumulators
  sync_fee_accumulators-kept i t = fees_read-kept i _ _ _ _ _ t

  group_read-pairs :
      (g : ℕ) (group : Option Group) (s : Progress)
      → (group_read reg at_ledger g group s).tables.pairs ≡ s.tables.pairs
  unfolding upsert_group
  group_read-pairs g none s = refl
  group_read-pairs g (some group) s = ground arith

  sync_group-pairs :
      (g : ℕ) (s : Progress) → (sync_group reg at_ledger g s).tables.pairs ≡ s.tables.pairs
  unfolding sync_group
  sync_group-pairs g s = ground (arith, group_read-pairs g (reg.group g) s)

  -- The state behind a stored pair, before its group.
  abbrev pub stored : ℕ → PairInfo → Progress → Progress
  stored i p s = record s {
    tables = sync_fee_accumulators reg at_ledger i (upsert_pair i p (reg.depth i) s.tables);
  }

  stored-pairs :
      (i : ℕ) (p : PairInfo) (s : Progress)
      → (sync_group reg at_ledger p.group_index (stored i p s)).tables.pairs
        ≡ insert i (pair_record p (reg.depth i)) s.tables.pairs
  unfolding upsert_pair
  stored-pairs i p s =
      sync_group-pairs p.group_index (stored i p s)
      ∙ (sync_fee_accumulators-kept i (upsert_pair i p (reg.depth i) s.tables)).0

  -- The row of a pair after its round.
  abbrev pub row_after : ℕ → Option PairInfo → Option PairRecord → Option PairRecord
  row_after i none old = old
  row_after i (some p) old = if reg.takes_pair i then some (pair_record p (reg.depth i)) else old

  pair_read-row :
      (i j : ℕ) (p : Option PairInfo) (s : Progress)
      → lookup j (pair_read reg at_ledger i p s).tables.pairs
        ≡ (if i == j then row_after i p (lookup j s.tables.pairs) else lookup j s.tables.pairs)
  pair_read-row i j none s = ground arith
  pair_read-row i j (some p) s = elim (Bool-cases (reg.takes_pair i)) [
    | inl taken ↦
        rw
          (
            taken,
            stored-pairs i p s,
            lookup-insert i j (pair_record p (reg.depth i)) s.tables.pairs,
          )
          refl
    | inr refused ↦ rw refused (ground arith)
  ]

  sync_pair-row :
      (i j : ℕ) (s : Progress)
      → lookup j (sync_pair reg at_ledger i s).tables.pairs ≡ (
          if i == j
          then row_after i (reg.pair i) (lookup j s.tables.pairs)
          else lookup j s.tables.pairs)
  unfolding sync_pair
  sync_pair-row i j s = pair_read-row i j (reg.pair i) s

  sync_from-outside :
      (n i j : ℕ) (s : Progress)
      → (leb i j && ltb j (i + n)) ≡ false
      → lookup j (sync_from reg at_ledger n i s).tables.pairs ≡ lookup j s.tables.pairs
  unfolding sync_from
  sync_from-outside zero i j s h = refl
  sync_from-outside (suc n) i j s h =
      sync_from-outside n (i + 1) j (sync_pair reg at_ledger i s) (ground arith)
      ∙ sync_pair-row i j s
      ∙ ground arith

  pub sync_from-row :
      (n i j : ℕ) (s : Progress)
      → i ≤ j
      → j < i + n
      → lookup j (sync_from reg at_ledger n i s).tables.pairs
        ≡ row_after j (reg.pair j) (lookup j s.tables.pairs)
  unfolding sync_from
  sync_from-row zero i j s h k = absurd (omega arith)
  sync_from-row (suc n) i j s h k = elim (Bool-cases (i == j)) [
    | inl here ↦
        sync_from-outside n (i + 1) j (sync_pair reg at_ledger i s) (ground arith)
        ∙ sync_pair-row i j s
        ∙ rw here (
            ap (λ m. row_after m (reg.pair m) (lookup j s.tables.pairs)) ((nat_beq_iff i j).0 here))
    | inr there ↦
        sync_from-row n (i + 1) j (sync_pair reg at_ledger i s) (ground arith) (omega arith)
        ∙ ap (row_after j (reg.pair j)) (sync_pair-row i j s ∙ rw there refl)
  ]
