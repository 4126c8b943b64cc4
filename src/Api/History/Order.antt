-- ===== src/Api/History/Order.antt =====
-- The rows of a trader's history in the order of the query (cmd/api/main.go).
use lumen_liquid_backend.Base.{
  ℕ, ◌≤◌, ◌<◌, ◌≡◌, refl, ap, true, false, some, List, [], ◌∷◌, ◌++◌, text_eq, ltb, keep, All,
  arith, lt→ltb,
}
use lumen_liquid_backend.Base.Time.{whole_second}
use lumen_liquid_backend.Api.History.{HistoryRow, older}

-- Newest first, with no two rows closed in the same second.
abbrev pub Descending : List HistoryRow → Type 0
Descending [] = Unit
Descending (r ∷ []) = Unit
Descending (r ∷ q ∷ rows) =
    (whole_second q.closed_at < whole_second r.closed_at) × Descending (q ∷ rows)

Descending-tail :
    (r : HistoryRow) (rows : List HistoryRow) → Descending (r ∷ rows) → Descending rows
Descending-tail r [] d = tt
Descending-tail r (q ∷ rows) d = d.1

-- Closed in an earlier second than the given time.
abbrev IsBelow : ℕ → HistoryRow → Type 0
IsBelow t r = whole_second r.closed_at < whole_second t

All-IsBelow_trans :
    (t u : ℕ) (rows : List HistoryRow)
    → whole_second t < whole_second u
    → All (IsBelow t) rows
    → All (IsBelow u) rows
All-IsBelow_trans t u [] h k = tt
All-IsBelow_trans t u (r ∷ rows) h k = (omega (arith, h, k.0), All-IsBelow_trans t u rows h k.1)

Descending-IsBelow :
    (r : HistoryRow) (rows : List HistoryRow)
    → Descending (r ∷ rows)
    → All (IsBelow r.closed_at) rows
Descending-IsBelow r [] d = tt
Descending-IsBelow r (q ∷ rows) d =
    (d.0, All-IsBelow_trans q.closed_at r.closed_at rows d.0 (Descending-IsBelow q rows d.1))

before_second : (a t : ℕ) → whole_second a < whole_second t → ltb a (whole_second t) ≡ true
before_second a t h = lt→ltb a (whole_second t) (omega arith)

not_before : (a t : ℕ) → whole_second t ≤ whole_second a → ltb a (whole_second t) ≡ false
not_before a t h = ground arith

keep_below :
    (t : ℕ) (rows : List HistoryRow)
    → All (IsBelow t) rows
    → keep (λ r. ltb r.closed_at (whole_second t)) rows ≡ rows
keep_below t [] h = refl
keep_below t (r ∷ rows) h =
    rw (before_second r.closed_at t h.0) (ap (λ rs. r ∷ rs) (keep_below t rows h.1))

middle-IsBelow :
    (t : ℕ) (xs : List HistoryRow) (r : HistoryRow) (ys : List HistoryRow)
    → All (IsBelow t) (xs ++ r ∷ ys)
    → IsBelow t r
middle-IsBelow t [] r ys h = h.0
middle-IsBelow t (x ∷ xs) r ys h = middle-IsBelow t xs r ys h.1

-- What stands after a row is exactly what is older than its second.
pub older_than_row :
    (xs : List HistoryRow) (r : HistoryRow) (ys : List HistoryRow)
    → Descending (xs ++ r ∷ ys)
    → older (some (whole_second r.closed_at)) (xs ++ r ∷ ys) ≡ ys
older_than_row [] r ys d =
    rw (not_before r.closed_at r.closed_at (omega arith))
      (keep_below r.closed_at ys (Descending-IsBelow r ys d))
older_than_row (x ∷ xs) r ys d =
    rw
      (not_before x.closed_at r.closed_at
        (omega (arith, middle-IsBelow x.closed_at xs r ys (Descending-IsBelow x (xs ++ r ∷ ys) d))))
      (older_than_row xs r ys (Descending-tail x (xs ++ r ∷ ys) d))
