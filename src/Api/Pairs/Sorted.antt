-- ===== src/Api/Pairs/Sorted.antt =====
-- The list of the groups (cmd/api/main.go, handleGetPairGroups).
use mathlib.Core.Logic.{∥∥₁_elim}
use mathlib.Core.List.{Perm, append_assoc, append-nil, is_set, Permᴰ}
use lumen_liquid_backend.Base.{
  ◌≡◌, refl, sym, ap, subst, ◌∙◌, some, List, [], ◌∷◌, ◌++◌, map, All, arith,
}
use lumen_liquid_backend.Base.Int.{ℤ, ◌<ℤ◌, int_eq, eq_of_parts}
use lumen_liquid_backend.Base.Assoc.{Map, lookup, insert}
use lumen_liquid_backend.Api.{json}
use lumen_liquid_backend.Api.Pairs.{
  PairGroup, group_map, load_pair_groups, insert_sorted, sort_ints, keys, groups_at,
  handle_get_pair_groups,
}

-- By index, with no index twice.
abbrev pub Ascending : List PairGroup → Type 0
Ascending [] = Unit
Ascending (g ∷ []) = Unit
Ascending (g ∷ h ∷ gs) = (g.group_index <ℤ h.group_index) × Ascending (h ∷ gs)

insert_sorted_comm :
    (a b : ℤ) (zs : List ℤ)
    → insert_sorted a (insert_sorted b zs) ≡ insert_sorted b (insert_sorted a zs)
unfolding insert_sorted
insert_sorted_comm a b [] = ground (arith, eq_of_parts a b)
insert_sorted_comm a b (z ∷ zs) = ground (arith, insert_sorted_comm a b zs, eq_of_parts a b)

sort_ints-same : {xs ys : List ℤ} → Permᴰ xs ys → sort_ints xs ≡ sort_ints ys
unfolding sort_ints
sort_ints-same Permᴰ.nil = refl
sort_ints-same (Permᴰ.cons e p) = cc (e, sort_ints-same p)
sort_ints-same (Permᴰ.swap {a} {b} {l} e f) = cc (insert_sorted_comm a b (sort_ints l), e, f)
sort_ints-same (Permᴰ.trans p q) = sort_ints-same p ∙ sort_ints-same q

ℤ_set : IsSet ℤ
ℤ_set = hlevel

-- The order of the keys does not matter to the sort.
sort_ints-Perm : (xs ys : List ℤ) → Perm xs ys → sort_ints xs ≡ sort_ints ys
sort_ints-Perm xs ys p =
    ∥∥₁_elim p (is_set ℤ_set (sort_ints xs) (sort_ints ys)) (λ q. sort_ints-same q)

abbrev indexes : List PairGroup → List ℤ
indexes [] = []
indexes (g ∷ gs) = g.group_index ∷ indexes gs

sort_ints-indexes : (gs : List PairGroup) → Ascending gs → sort_ints (indexes gs) ≡ indexes gs
unfolding sort_ints insert_sorted
sort_ints-indexes [] h = refl
sort_ints-indexes (g ∷ []) h = refl
sort_ints-indexes (g ∷ k ∷ gs) h = rw (sort_ints-indexes (k ∷ gs) h.1) (ground (arith, h.0))

abbrev pub table : List PairGroup → Map ℤ PairGroup
table [] = []
table (g ∷ gs) = (g.group_index, g) ∷ table gs

keys-table : (gs : List PairGroup) → keys (table gs) ≡ indexes gs
keys-table [] = refl
keys-table (g ∷ gs) = ap (λ is. g.group_index ∷ is) (keys-table gs)

-- Below every index of a list of groups.
abbrev Below : ℤ → PairGroup → Type 0
Below i g = i <ℤ g.group_index

All-Below_trans : (i j : ℤ) (gs : List PairGroup) → i <ℤ j → All (Below j) gs → All (Below i) gs
All-Below_trans i j [] h k = tt
All-Below_trans i j (g ∷ gs) h k = (omega (arith, h, k.0), All-Below_trans i j gs h k.1)

Ascending-tail : (g : PairGroup) (gs : List PairGroup) → Ascending (g ∷ gs) → Ascending gs
Ascending-tail g [] h = tt
Ascending-tail g (k ∷ gs) h = h.1

Ascending-Below :
    (g : PairGroup) (gs : List PairGroup) → Ascending (g ∷ gs) → All (Below g.group_index) gs
Ascending-Below g [] h = tt
Ascending-Below g (k ∷ gs) h =
    (h.0, All-Below_trans g.group_index k.group_index gs h.0 (Ascending-Below k gs h.1))

insert-last :
    (g : PairGroup) (gs : List PairGroup)
    → All (λ k. Below k.group_index g) gs
    → insert g.group_index g (table gs) ≡ table (gs ++ g ∷ [])
unfolding insert
insert-last g [] h = refl
insert-last g (k ∷ gs) h = ground (arith, h.0, insert-last g gs h.1)

middle-Below :
    (i : ℤ) (gs : List PairGroup) (g : PairGroup) (later : List PairGroup)
    → All (Below i) (gs ++ g ∷ later)
    → Below i g
middle-Below i [] g later h = h.0
middle-Below i (k ∷ gs) g later h = middle-Below i gs g later h.1

firsts-Below :
    (gs : List PairGroup) (g : PairGroup) (later : List PairGroup)
    → Ascending (gs ++ g ∷ later)
    → All (λ k. Below k.group_index g) gs
firsts-Below [] g later h = tt
firsts-Below (k ∷ gs) g later h = (
  middle-Below k.group_index gs g later (Ascending-Below k (gs ++ g ∷ later) h),
  firsts-Below gs g later (Ascending-tail k (gs ++ g ∷ later) h),
)

pub group_map-table :
    (gs later : List PairGroup)
    → Ascending (gs ++ later)
    → group_map (map some later) (table gs) ≡ some (table (gs ++ later))
unfolding group_map
group_map-table gs [] h = ap (λ ks. some (table ks)) (sym (append-nil gs))
group_map-table gs (g ∷ later) h =
    rw (group_map, insert-last g gs (firsts-Below gs g later h))
      (group_map-table (gs ++ g ∷ []) later
          (subst Ascending (sym (append_assoc gs (g ∷ []) later)) h)
        ∙ ap (λ ks. some (table ks)) (append_assoc gs (g ∷ []) later))

lookup-table :
    (gs : List PairGroup) (g : PairGroup) (later : List PairGroup)
    → All (λ k. Below k.group_index g) gs
    → lookup g.group_index (table (gs ++ g ∷ later)) ≡ some g
unfolding lookup
lookup-table [] g later h = ground arith
lookup-table (k ∷ gs) g later h = ground (arith, h.0, lookup-table gs g later h.1)

groups_at-table :
    (gs later : List PairGroup)
    → Ascending (gs ++ later)
    → groups_at (table (gs ++ later)) (indexes later) ≡ later
unfolding groups_at
groups_at-table gs [] h = refl
groups_at-table gs (g ∷ later) h =
    rw (groups_at, lookup-table gs g later (firsts-Below gs g later h))
      (ap (λ ks. g ∷ ks)
        (subst (λ ks. groups_at (table ks) (indexes later) ≡ later) (append_assoc gs (g ∷ []) later)
          (groups_at-table (gs ++ g ∷ []) later
            (subst Ascending (sym (append_assoc gs (g ∷ []) later)) h))))

-- The groups of the table are listed by index, each once, in whatever order the map of them is
-- visited.
pub handle_get_pair_groups-sorted :
    (visit : List ℤ → List ℤ) (groups : List PairGroup)
    → ((is : List ℤ) → Perm (visit is) is)
    → Ascending groups
    → handle_get_pair_groups visit (some (map some groups)) ≡ json groups
unfolding handle_get_pair_groups load_pair_groups
handle_get_pair_groups-sorted visit groups permutes h =
    rw
      (
        group_map-table [] groups h,
        keys-table groups,
        sort_ints-Perm (visit (indexes groups)) (indexes groups) (permutes (indexes groups)),
        sort_ints-indexes groups h,
      )
      (ap json (groups_at-table [] groups h))
