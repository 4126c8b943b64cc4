-- ===== src/Api/Pairs/Agree.antt =====
-- The list of the pairs and the single pair (cmd/api/main.go, handleGetPairs and handleGetPair).
use lumen_liquid_backend.Base.{
  ◌^◌, ◌≡◌, refl, sym, subst, inl, inr, Option, none, some, List, [], ◌∷◌, if◌then◌else◌, map, All,
  In, arith, ◌==◌, ==_refl, All-In,
}
use lumen_liquid_backend.Base.Int.{ℤ, pos, ◌<ℤ◌, ◌≤ℤ◌, int_eq}
use lumen_liquid_backend.Base.Text.{print_ℤ, parse_ℤ-print_ℤ}
use lumen_liquid_backend.Base.Strings.{atoi}
use lumen_liquid_backend.Base.Assoc.{lookup}
use lumen_liquid_backend.Api.{json}
use lumen_liquid_backend.Api.Pairs.{
  PairGroup, PairRow, Pair, RowResult, row_found, err_no_rows, load_pair_groups, pair_list,
  handle_get_pairs, handle_get_pair, pair_with_group, index_of,
}
use lumen_liquid_backend.Api.Pairs.Sorted.{Ascending, table, group_map-table}

-- The query for one row: `WHERE group_index = $1`, `WHERE pair_index = $1`.
abbrev pub select_group : List PairGroup → ℤ → RowResult PairGroup
select_group [] i = err_no_rows
select_group (g ∷ gs) i = if g.group_index == i then row_found g else select_group gs i

abbrev pub select_pair : List PairRow → ℤ → RowResult PairRow
select_pair [] i = err_no_rows
select_pair (p ∷ ps) i = if p.pair_index == i then row_found p else select_pair ps i

abbrev group_or_none : RowResult PairGroup → Option PairGroup
group_or_none (row_found g) = some g
group_or_none _ = none

-- A row with the group of its index, where there is one.
abbrev pub the_pair : List PairGroup → PairRow → Pair
the_pair groups p = record { row = p; group = group_or_none (select_group groups p.group_index) }

-- Each index once, in the range of the column.
abbrev pub IsTable : List PairRow → Type 0
IsTable [] = Unit
IsTable (p ∷ ps) =
    (pos 0 ≤ℤ p.pair_index)
    × (p.pair_index <ℤ pos (2 ^ 31))
    × All (λ q. p.pair_index <ℤ q.pair_index) ps
    × IsTable ps

lookup-select :
    (i : ℤ) (gs : List PairGroup) → lookup i (table gs) ≡ group_or_none (select_group gs i)
unfolding lookup
lookup-select i [] = refl
lookup-select i (g ∷ gs) = ground (arith, lookup-select i gs)

pair_list-map :
    (groups : List PairGroup) (pairs : List PairRow)
    → pair_list (table groups) (map some pairs) ≡ some (map (the_pair groups) pairs)
unfolding pair_list
pair_list-map groups [] = refl
pair_list-map groups (p ∷ pairs) =
    rw (pair_list, pair_list-map groups pairs, lookup-select p.group_index groups) refl

select_pair-In :
    (pairs : List PairRow) (p : PairRow)
    → IsTable pairs
    → In p pairs
    → select_pair pairs p.pair_index ≡ row_found p
select_pair-In [] p h i = elim i [ ]
select_pair-In (q ∷ pairs) p h (inl same) =
    subst (λ x. select_pair (q ∷ pairs) x.pair_index ≡ row_found x) (sym same)
      (rw (==_refl q.pair_index) refl)
select_pair-In (q ∷ pairs) p h (inr i) =
    ground (
      arith,
      select_pair-In pairs p h.3 i,
      All-In (λ r. q.pair_index <ℤ r.pair_index) p pairs h.2 i,
    )

select_group-answered :
    (p : PairRow) (gs : List PairGroup) (i : ℤ)
    → pair_with_group p (select_group gs i)
      ≡ json (record { row = p; group = group_or_none (select_group gs i) })
select_group-answered p [] i = refl
select_group-answered p (g ∷ gs) i = ground (arith, select_group-answered p gs i)

index_of-print_ℤ : (z : ℤ) → pos 0 ≤ℤ z → z <ℤ pos (2 ^ 31) → index_of (print_ℤ z) ≡ some z
unfolding atoi
index_of-print_ℤ z low high = rw (index_of, atoi, parse_ℤ-print_ℤ z) (ground arith)

bounds :
    (pairs : List PairRow) (p : PairRow)
    → IsTable pairs
    → In p pairs
    → (pos 0 ≤ℤ p.pair_index) × (p.pair_index <ℤ pos (2 ^ 31))
bounds [] p h i = elim i [ ]
bounds (q ∷ pairs) p h (inl same) =
    subst (λ r. (pos 0 ≤ℤ r.pair_index) × (r.pair_index <ℤ pos (2 ^ 31))) (sym same) (h.0, h.1)
bounds (q ∷ pairs) p h (inr i) = bounds pairs p h.3 i

-- For tables in which each index stands once: the list of the pairs shows each row with the group of
-- its index, where there is one, and asking for a single pair by the text of its index gives exactly
-- the entry of the list.
pub pairs_agree :
    (groups : List PairGroup) (pairs : List PairRow) (p : PairRow)
    → Ascending groups
    → IsTable pairs
    → In p pairs
    → (handle_get_pairs (some (map some groups)) (some (map some pairs))
        ≡ json (map (the_pair groups) pairs))
      × (handle_get_pair (select_group groups) (select_pair pairs) (print_ℤ p.pair_index)
          ≡ json (the_pair groups p))
unfolding handle_get_pairs load_pair_groups handle_get_pair
pairs_agree groups pairs p h k i = (
  rw (group_map-table [] groups h, pair_list-map groups pairs) refl,
  rw
      (
        handle_get_pair,
        index_of-print_ℤ p.pair_index (bounds pairs p k i).0 (bounds pairs p k i).1,
        select_pair-In pairs p k i,
      )
      (select_group-answered p groups p.group_index),
)
