-- ===== src/Store/Interest.antt =====
-- The open interest of a pair (`pair_oi`) in internal/store/store.go.
use lumen_liquid_backend.Base.{Bool, true, false, Option, none, some, arith}
use lumen_liquid_backend.Base.Int.{ℤ, pos, negsuc, ◌+ℤ◌, ◌-ℤ◌, ◌≤ℤ◌, int_eq}
use lumen_liquid_backend.Base.Text.{Text}
use lumen_liquid_backend.Base.Assoc.{Map, Each, lookup, insert-Each}
use lumen_liquid_backend.Store.Tables.{Database, PairOi}
use lumen_liquid_backend.Store.Sql.{upsert, upserted, upsert-insert}
use lumen_liquid_backend.Store.Balances.{store_oi, greatest_0, by_side, oi_row}

-- Both sides of every pair are zero at least.
abbrev pub IsCovered : ℤ → PairOi → Type 0
IsCovered i p = (pos 0 ≤ℤ p.long_oi) × (pos 0 ≤ℤ p.short_oi)

abbrev pub AllCovered : Database → Type 0
AllCovered s = Each IsCovered s.pair_oi

greatest_0-IsCovered : (z : ℤ) → pos 0 ≤ℤ greatest_0 z
greatest_0-IsCovered (pos n) = ground arith
greatest_0-IsCovered (negsuc n) = ground arith

oi_row-IsCovered : (i l q : ℤ) (at : Text) → IsCovered i (oi_row (l, q) at)
oi_row-IsCovered i l q at = (greatest_0-IsCovered l, greatest_0-IsCovered q)

put-AllCovered :
    (i : ℤ) (fresh : PairOi) (change : PairOi → PairOi) (m : Map ℤ PairOi)
    → IsCovered i fresh
    → ((p : PairOi) → IsCovered i (change p))
    → Each IsCovered m
    → Each IsCovered (upsert i fresh change m)
put-AllCovered i fresh change m f c h =
    rw (upsert-insert i fresh change m) (insert-Each IsCovered i _ m (covered (lookup i m)) h)
  where
    covered : (old : Option PairOi) → IsCovered i (upserted fresh change old)
    covered none = f
    covered (some p) = c p

-- Open interest that is added to one side of a pair, or taken from it, never leaves a side of any
-- pair below zero.
pub store_oi-AllCovered :
    (adds : Bool) (i : Option ℤ) (side : Option Bool) (a : Option ℤ) (at : Text) (s : Database)
    → AllCovered s
    → AllCovered (store_oi adds i side a at s)
unfolding store_oi
store_oi-AllCovered true (some i) (some side) (some a) at s h =
    put-AllCovered i _ _ s.pair_oi (oi_row-IsCovered i (by_side side a).0 (by_side side a).1 at)
      (λ p.
        oi_row-IsCovered i (p.long_oi +ℤ (by_side side a).0) (p.short_oi +ℤ (by_side side a).1) at)
      h
store_oi-AllCovered false (some i) (some side) (some a) at s h =
    put-AllCovered i _ _ s.pair_oi (oi_row-IsCovered i (pos 0) (pos 0) at)
      (λ p.
        oi_row-IsCovered i (p.long_oi -ℤ (by_side side a).0) (p.short_oi -ℤ (by_side side a).1) at)
      h
store_oi-AllCovered true none side a at s h = h
store_oi-AllCovered true (some i) none a at s h = h
store_oi-AllCovered true (some i) (some side) none at s h = h
store_oi-AllCovered false none side a at s h = h
store_oi-AllCovered false (some i) none a at s h = h
store_oi-AllCovered false (some i) (some side) none at s h = h
