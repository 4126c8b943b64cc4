-- ===== src/Api/History/Cursor.antt =====
-- What a page behind a cursor can show (cmd/api/main.go, handleGetTradingHistory).
use lumen_liquid_backend.Base.{
  ℕ, zero, suc, ◌+◌, ◌<◌, inl, inr, some, List, [], ◌∷◌, map, ltb, length, take, All, Bool-cases,
  ltb→lt, text_eq,
}
use lumen_liquid_backend.Base.Text.{Text}
use lumen_liquid_backend.Base.Time.{Rfc3339, IsClock, whole_second}
use lumen_liquid_backend.Api.{Response, json, http_error}
use lumen_liquid_backend.Api.History.{
  HistoryRow, HistoryEntry, HistoryPage, page_limit, older, select_history, entries, history_page,
  handle_get_trading_history,
}
use lumen_liquid_backend.Api.History.Follow.{ask_page, not_empty}

abbrev pub ClosedBefore : ℕ → HistoryEntry → Type 0
ClosedBefore t e = e.row.closed_at < t

module _ {A : Type 0} (P : A → Type 0) where
  take-All : (n : ℕ) (xs : List A) → All P xs → All P (take n xs)
  take-All zero xs h = tt
  take-All (suc n) [] h = tt
  take-All (suc n) (x ∷ xs) h = (h.0, take-All n xs h.1)

older-All : (t : ℕ) (rows : List HistoryRow) → All (λ r. r.closed_at < t) (older (some t) rows)
older-All t [] = tt
older-All t (r ∷ rows) = elim (Bool-cases (ltb r.closed_at t)) [
  | inl hit ↦ rw hit (ltb→lt r.closed_at t hit, older-All t rows)
  | inr miss ↦ rw miss (older-All t rows)
]

module _ (clock : Rfc3339) (t : ℕ) where
  entries-All :
      (rows : List HistoryRow)
      → All (λ r. r.closed_at < t) rows
      → All (ClosedBefore t) (entries clock (map some rows))
  entries-All [] h = tt
  entries-All (r ∷ rows) h = (h.0, entries-All rows h.1)

  history_page-All :
      (trader : Text) (limit : ℕ) (es : List HistoryEntry)
      → All (ClosedBefore t) es
      → All (ClosedBefore t) (history_page clock trader limit es).history
  unfolding history_page
  history_page-All trader limit es h = elim (Bool-cases (ltb limit (length es))) [
    | inl more ↦ rw (history_page, more) (take-All (ClosedBefore t) limit es h)
    | inr last ↦ rw (history_page, last) h
  ]

-- The trades in a response.
abbrev pub shown_by : Response HistoryPage → List HistoryEntry
shown_by (json p) = p.history
shown_by (http_error message status) = []

-- A page that is asked for with a trade's close time as the cursor shows only trades closed before
-- the second of that time, so never a trade that closed in the same second, whether or not an
-- earlier page has shown it.
pub after_cursor_older :
    (clock : Rfc3339) (rows : List HistoryRow) (trader limit_text : Text) (t : ℕ)
    → IsClock clock
    → All
        (ClosedBefore (whole_second t))
        (shown_by (ask_page clock rows trader limit_text (clock.format t)))
unfolding handle_get_trading_history select_history
after_cursor_older clock rows trader limit_text t law =
    rw (handle_get_trading_history, not_empty (clock.format t) (law.filled t), law.reads t)
      (history_page-All clock (whole_second t) trader (page_limit limit_text) _ (
        entries-All clock (whole_second t) _
          (take-All _ (page_limit limit_text + 1) _ (older-All (whole_second t) rows))))
