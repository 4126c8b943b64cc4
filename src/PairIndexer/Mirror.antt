-- ===== src/PairIndexer/Mirror.antt =====
-- What the tables hold after a snapshot of the registry (cmd/pair-indexer/main.go).
use lumen_liquid_backend.Base.{
  ℕ, zero, suc, ◌+◌, ◌≤◌, ◌<◌, ◌≡◌, refl, sym, ap, subst, ◌∙◌, true, inl, inr, Option, none, some,
  if◌then◌else◌, Bool-cases, arith, ◌==◌, nat_eq, nat_beq_iff,
}
use lumen_liquid_backend.Base.Assoc.{lookup, lookup-insert}
use lumen_liquid_backend.PairIndexer.{PairInfo, Group, Tables}
use lumen_liquid_backend.PairIndexer.Sync.{
  Registry, Progress, pair_record, upsert_pair, upsert_group, saw, group_read, sync_group,
  pair_read, sync_pair, sync_from, unsynced, sync,
}
use lumen_liquid_backend.PairIndexer.Rounds.{sync_fee_accumulators-kept, stored, sync_from-row}

module _ (reg : Registry) (at_ledger : ℕ) where
  -- Each group that is marked has the row of the registry's answer.
  abbrev Marked : Progress → Type 0
  Marked s = (g : ℕ) → s.groups_seen g ≡ true → lookup g s.tables.groups ≡ reg.group g

  -- Marks are never taken back, and every mark has its row.
  record IsKept (before after : Progress) : Type 0 where
    marks : (g : ℕ) → before.groups_seen g ≡ true → after.groups_seen g ≡ true
    rows : Marked after

  marked_row :
      (g k : ℕ) (group : Group) (s : Progress)
      → reg.group g ≡ some group
      → Marked s
      → saw g s.groups_seen k ≡ true
      → (if g == k then some group else lookup k s.tables.groups) ≡ reg.group k
  marked_row g k group s e h m = elim (Bool-cases (g == k)) [
    | inl same ↦ rw same (sym e ∙ ap reg.group ((nat_beq_iff g k).0 same))
    | inr other ↦ rw other (h k (ground arith))
  ]

  group_read-IsKept :
      (g : ℕ) (o : Option Group) (s : Progress)
      → reg.group g ≡ o
      → Marked s
      → IsKept s (group_read reg at_ledger g o s)
  unfolding upsert_group
  group_read-IsKept g none s e h = record { marks = λ k m. m; rows = h }
  group_read-IsKept g (some group) s e h = elim (Bool-cases (reg.takes_group g)) [
    | inl taken ↦ rw taken (record {
      marks = λ k m. ground arith;
      rows = λ k m. rw (lookup-insert g k group s.tables.groups) (marked_row g k group s e h m);
    })
    | inr refused ↦ rw refused (record { marks = λ k m. m; rows = h })
  ]

  sync_group-IsKept : (g : ℕ) (s : Progress) → Marked s → IsKept s (sync_group reg at_ledger g s)
  unfolding sync_group
  sync_group-IsKept g s h = elim (Bool-cases (s.groups_seen g)) [
    | inl seen ↦ rw (sync_group, seen) (record { marks = λ k m. m; rows = h })
    | inr new ↦ rw (sync_group, new) (group_read-IsKept g (reg.group g) s refl h)
  ]

  stored-Marked :
      (i : ℕ) (p : PairInfo) (s : Progress) → Marked s → Marked (stored reg at_ledger i p s)
  unfolding upsert_pair
  stored-Marked i p s h g m =
      rw (sync_fee_accumulators-kept reg at_ledger i (upsert_pair i p (reg.depth i) s.tables)).1
        (h g m)

  pair_read-IsKept :
      (i : ℕ) (p : Option PairInfo) (s : Progress)
      → Marked s
      → IsKept s (pair_read reg at_ledger i p s)
  pair_read-IsKept i none s h = record { marks = λ g m. m; rows = h }
  pair_read-IsKept i (some p) s h = elim (Bool-cases (reg.takes_pair i)) [
    | inl taken ↦
        let kept =
          sync_group-IsKept p.group_index (stored reg at_ledger i p s) (stored-Marked i p s h) in
        rw taken (record { marks = kept.marks; rows = kept.rows })
    | inr refused ↦ rw refused (record { marks = λ g m. m; rows = h })
  ]

  sync_from-IsKept : (n i : ℕ) (s : Progress) → Marked s → IsKept s (sync_from reg at_ledger n i s)
  unfolding sync_from sync_pair
  sync_from-IsKept zero i s h = record { marks = λ g m. m; rows = h }
  sync_from-IsKept (suc n) i s h =
      let first = pair_read-IsKept i (reg.pair i) s h in
      let rest = sync_from-IsKept n (i + 1) (sync_pair reg at_ledger i s) first.rows in
      record { marks = λ g m. rest.marks g (first.marks g m); rows = rest.rows }

  -- The round of a stored reg at_ledger pair whose group can be read and written leaves the group marked.
  sync_group-marks :
      (g : ℕ) (group : Group) (s : Progress)
      → reg.group g ≡ some group
      → reg.takes_group g ≡ true
      → (sync_group reg at_ledger g s).groups_seen g ≡ true
  unfolding sync_group
  sync_group-marks g group s e taken = elim (Bool-cases (s.groups_seen g)) [
    | inl seen ↦ rw (sync_group, seen) seen
    | inr new ↦ rw (sync_group, new, e, taken) (ground arith)
  ]

  unsynced-Marked : (t : Tables) → Marked (unsynced t)
  unsynced-Marked t g m = absurd (cc m)

  module _ (p : PairInfo) (group : Group) (j : ℕ) where
    -- The registry answers for the pair and its group, and the database takes both.
    pub record IsAnswered : Type 0 where
      pub pair_answer : reg.pair j ≡ some p
      pub group_answer : reg.group p.group_index ≡ some group
      pub pair_taken : reg.takes_pair j ≡ true
      pub group_taken : reg.takes_group p.group_index ≡ true

    round_marks :
        (s : Progress)
        → IsAnswered
        → (pair_read reg at_ledger j (reg.pair j) s).groups_seen p.group_index ≡ true
    round_marks s a =
        rw (a.pair_answer, a.pair_taken)
          (sync_group-marks p.group_index group (stored reg at_ledger j p s) a.group_answer
            a.group_taken)

    sync_from-marks :
        (n i : ℕ) (s : Progress)
        → IsAnswered
        → Marked s
        → i ≤ j
        → j < i + n
        → (sync_from reg at_ledger n i s).groups_seen p.group_index ≡ true
    unfolding sync_from sync_pair
    sync_from-marks zero i s a h low high = absurd (omega arith)
    sync_from-marks (suc n) i s a h low high =
        let first = pair_read-IsKept i (reg.pair i) s h in
        elim (Bool-cases (i == j)) [
          | inl here ↦
              (sync_from-IsKept n (i + 1) (sync_pair reg at_ledger i s) first.rows).marks
                p.group_index
                (subst
                  (λ m. (pair_read reg at_ledger m (reg.pair m) s).groups_seen p.group_index ≡ true)
                  (sym ((nat_beq_iff i j).0 here)) (round_marks s a))
          | inr there ↦
              sync_from-marks n (i + 1) (sync_pair reg at_ledger i s) a first.rows (ground arith)
                (omega arith)
        ]

    -- After a snapshot of the registry, each pair of the range that it answers for, and the group of
    -- such a pair, have exactly the rows of those answers, whatever stood in the tables before, where
    -- the group is answered for too and the database takes the writes.
    pub sync-answered :
        (pairs_count : ℕ) (t : Tables)
        → IsAnswered
        → j < pairs_count
        → (lookup j (sync reg at_ledger pairs_count t).tables.pairs
            ≡ some (pair_record p (reg.depth j)))
          × (lookup p.group_index (sync reg at_ledger pairs_count t).tables.groups ≡ some group)
    unfolding sync
    sync-answered pairs_count t a h = (
      sync_from-row reg at_ledger pairs_count 0 j (unsynced t) (omega arith) (omega arith)
          ∙ rw (a.pair_answer, a.pair_taken) refl,
      (sync_from-IsKept pairs_count 0 (unsynced t) (unsynced-Marked t)).rows p.group_index (
            sync_from-marks pairs_count 0 (unsynced t) a (unsynced-Marked t) (omega arith)
              (omega arith))
          ∙ a.group_answer,
    )
