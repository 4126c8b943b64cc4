-- ===== src/Wsgateway/Cache/Snapshot.antt =====
-- `GetSnapshot` and `GetAllSnapshot` (internal/wsgateway/cache.go), before they become JSON.
use lumen_liquid_backend.Base.{
  Bool, true, Option, List, [], ◌∷◌, ◌++◌, if◌then◌else◌, ◌==◌, text_eq, any,
}
use lumen_liquid_backend.Base.Int.{ℤ, int_eq}
use lumen_liquid_backend.Base.Text.{Text}
use lumen_liquid_backend.Base.Assoc.{Map, lookup}
use lumen_liquid_backend.Wsgateway.Cache.{CachedTrade, CachedLimit, CachedPair, TradeCache, list_of}
use lumen_liquid_backend.Wsgateway.Fees.{PairFeeRow, enrich_trades}

pub record Snapshot : Type 0 where
  pub trades : List CachedTrade
  pub limits : List CachedLimit
  pub pairs : List CachedPair

-- `pairSet[idx]`
abbrev pub is_used : List CachedTrade → List CachedLimit → ℤ → Bool
is_used trades limits i =
    if any (λ t. t.pair_index == i) trades then true else any (λ l. l.pair_index == i) limits

unfoldable pub used_pairs : (ℤ → Bool) → Map ℤ CachedPair → List CachedPair
used_pairs used [] = []
used_pairs used ((i, p) ∷ m) = let rest = used_pairs used m in if used i then p ∷ rest else rest

-- The last argument but one is the answer to the query for the fees.
unfoldable pub get_snapshot : Text → Option (List PairFeeRow) → TradeCache → Snapshot
get_snapshot trader fees c =
    let trades = enrich_trades fees (list_of (lookup trader c.trades)) in
    let limits = list_of (lookup trader c.limits) in
    record { trades = trades; limits = limits; pairs = used_pairs (is_used trades limits) c.pairs }

module _ {K : Type 0} {A : Type 0} where
  unfoldable pub all_lists : Map K (List A) → List A
  all_lists [] = []
  all_lists ((k, xs) ∷ m) = xs ++ all_lists m

module _ {A : Type 0} where
  unfoldable pub all_values : Map ℤ A → List A
  all_values [] = []
  all_values ((i, a) ∷ m) = a ∷ all_values m

unfoldable pub get_all_snapshot : Option (List PairFeeRow) → TradeCache → Snapshot
get_all_snapshot fees c = record {
  trades = enrich_trades fees (all_lists c.trades);
  limits = all_lists c.limits;
  pairs = all_values c.pairs;
}
