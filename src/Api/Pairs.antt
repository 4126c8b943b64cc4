-- ===== src/Api/Pairs.antt =====
-- The handlers of cmd/api/main.go for pairs and their groups. The tables are lists of rows in the
-- order of `ORDER BY`; a query that fails and a row that cannot be scanned are answers too.
pub mod Sorted
pub mod Agree
use lumen_liquid_backend.Base.{
  ℕ, Bool, true, false, ◌&&◌, ◌||◌, Option, none, some, List, [], ◌∷◌, ◌++◌, if◌then◌else◌, ◌==◌,
  map,
}
use lumen_liquid_backend.Base.Int.{ℤ, pos, leb_ℤ, ltb_ℤ, int_eq}
use lumen_liquid_backend.Base.Text.{Text, codes}
use lumen_liquid_backend.Base.Strings.{atoi}
use lumen_liquid_backend.Base.Assoc.{Map, lookup, insert}
use lumen_liquid_backend.Api.{Response, json, http_error, Rows}

-- `pairGroupResponse`
pub record PairGroup : Type 0 where
  pub group_index : ℤ
  pub name : Text
  pub max_collateral_usdc : Text
  pub open_fee_p : Text
  pub close_fee_p : Text
  pub synced_at : ℕ

-- The columns of a row of `pairs`.
pub record PairRow : Type 0 where
  pub pair_index : ℤ
  pub symbol : Text
  pub reflector_asset_type : Text
  pub reflector_asset : Text
  pub group_index : ℤ
  pub spread_p : Text
  pub min_leverage : ℤ
  pub max_leverage : ℤ
  pub min_lev_pos_usdc : Text
  pub max_oi_usdc : Text
  pub max_neg_pnl_p : Text
  pub liq_threshold_p : ℤ
  pub max_gain_p : ℤ
  pub disabled : Bool
  pub one_percent_depth : Text
  pub synced_at : ℕ

-- `pairResponse`: the row, and its group where there is one.
pub record Pair : Type 0 where
  pub row : PairRow
  pub group : Option PairGroup

-- The answer to `QueryRow(…).Scan`.
pub data RowResult (A : Type 0) : Type 0 where
  row_found : A → RowResult A
  err_no_rows : RowResult A
  row_error : RowResult A

module _ {A : Type 0} where
  abbrev pub query_failed : Response A
  query_failed = http_error (codes "query failed") 500

  abbrev pub json_or_failed : Option A → Response A
  json_or_failed none = http_error (codes "query failed") 500
  json_or_failed (some a) = json a

-- Groups by their index; the first row that cannot be scanned ends it with an error.
unfoldable pub group_map : List (Option PairGroup) → Map ℤ PairGroup → Option (Map ℤ PairGroup)
group_map [] groups = some groups
group_map (none ∷ rows) groups = none
group_map (some g ∷ rows) groups = group_map rows (insert g.group_index g groups)

unfoldable pub load_pair_groups : Rows PairGroup → Option (Map ℤ PairGroup)
load_pair_groups none = none
load_pair_groups (some rows) = group_map rows []

abbrev pub with_group : Map ℤ PairGroup → PairRow → Pair
with_group groups p = record { row = p; group = lookup p.group_index groups }

unfoldable pub pair_list : Map ℤ PairGroup → List (Option PairRow) → Option (List Pair)
pair_list groups [] = some []
pair_list groups (none ∷ rows) = none
pair_list groups (some p ∷ rows) = elim (pair_list groups rows) [
  | none ↦ none
  | some pairs ↦ some (with_group groups p ∷ pairs)
]

abbrev pub pairs_with : Rows PairRow → Option (Map ℤ PairGroup) → Response (List Pair)
pairs_with pairs none = query_failed
pairs_with none (some groups) = query_failed
pairs_with (some rows) (some groups) = json_or_failed (pair_list groups rows)

unfoldable pub handle_get_pairs : Rows PairGroup → Rows PairRow → Response (List Pair)
handle_get_pairs groups pairs = pairs_with pairs (load_pair_groups groups)

-- `strconv.Atoi` of the path, and `< 0`.
abbrev pub index_of : Text → Option ℤ
index_of s = elim (atoi s) [ none ↦ none | some z ↦ if ltb_ℤ z (pos 0) then none else some z ]

abbrev pub pair_with_group : PairRow → RowResult PairGroup → Response Pair
pair_with_group p (row_found g) = json (record { row = p; group = some g })
pair_with_group p err_no_rows = json (record { row = p; group = none })
pair_with_group p row_error = query_failed

abbrev pub pair_found : (ℤ → RowResult PairGroup) → RowResult PairRow → Response Pair
pair_found load_group (row_found p) = pair_with_group p (load_group p.group_index)
pair_found load_group err_no_rows = http_error (codes "pair not found") 404
pair_found load_group row_error = query_failed

-- `load_pair` and `load_group` are the two queries for one row.
unfoldable pub handle_get_pair :
    (ℤ → RowResult PairGroup) → (ℤ → RowResult PairRow) → Text → Response Pair
handle_get_pair load_group load_pair index = elim (index_of index) [
  | none ↦ http_error (codes "invalid pair_index") 400
  | some i ↦ pair_found load_group (load_pair i)
]

abbrev pub group_found : RowResult PairGroup → Response PairGroup
group_found (row_found g) = json g
group_found err_no_rows = http_error (codes "group not found") 404
group_found row_error = query_failed

unfoldable pub handle_get_pair_group : (ℤ → RowResult PairGroup) → Text → Response PairGroup
handle_get_pair_group load_group index = elim (index_of index) [
  | none ↦ http_error (codes "invalid group_index") 400
  | some i ↦ group_found (load_group i)
]

-- `sort.Ints`
unfoldable pub insert_sorted : ℤ → List ℤ → List ℤ
insert_sorted z [] = z ∷ []
insert_sorted z (y ∷ ys) =
    let rest = insert_sorted z ys in if leb_ℤ z y then z ∷ y ∷ ys else y ∷ rest

unfoldable pub sort_ints : List ℤ → List ℤ
sort_ints [] = []
sort_ints (z ∷ zs) = insert_sorted z (sort_ints zs)

abbrev pub keys : Map ℤ PairGroup → List ℤ
keys [] = []
keys ((i, g) ∷ m) = i ∷ keys m

-- `groupsByIndex[idx]` for each index; a missing one cannot be among the keys.
unfoldable pub groups_at : Map ℤ PairGroup → List ℤ → List PairGroup
groups_at m [] = []
groups_at m (i ∷ is) = elim (lookup i m) [ none ↦ groups_at m is | some g ↦ g ∷ groups_at m is ]

-- `visit` is the order in which `range` meets the keys.
abbrev pub groups_response :
    (List ℤ → List ℤ) → Option (Map ℤ PairGroup) → Response (List PairGroup)
groups_response visit none = query_failed
groups_response visit (some m) = json (groups_at m (sort_ints (visit (keys m))))

unfoldable pub handle_get_pair_groups :
    (List ℤ → List ℤ) → Rows PairGroup → Response (List PairGroup)
handle_get_pair_groups visit groups = groups_response visit (load_pair_groups groups)
