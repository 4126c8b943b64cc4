-- ===== src/Api/History/Pages.antt =====
-- The pages of the history, one after the other (cmd/api/main.go, handleGetTradingHistory).
use mathlib.Core.List.{append_assoc}
use lumen_liquid_backend.Base.{
  ℕ, zero, suc, ◌+◌, ◌<◌, ◌≡◌, refl, sym, ap, subst, ◌∙◌, inl, inr, none, some, List, [], ◌∷◌, ◌++◌,
  map, text_eq, text_beq, ltb, leb, length, take, drop, keep, arith, Bool-cases, leb→le,
}
use lumen_liquid_backend.Base.Text.{Text}
use lumen_liquid_backend.Base.Time.{Rfc3339, IsClock, whole_second}
use lumen_liquid_backend.Api.{Response, json}
use lumen_liquid_backend.Api.History.{
  HistoryRow, HistoryEntry, HistoryPage, page_limit, select_history, history_entry, history_page,
  handle_get_trading_history,
}
use lumen_liquid_backend.Base.Slices.{split_at, take-drop, length-drop, map-append}
use lumen_liquid_backend.Api.History.Order.{Descending, older_than_row}
use lumen_liquid_backend.Api.History.Follow.{
  ask_page, follow, page_limit-positive, entries-map, same_second, not_empty, more_than,
  history_page-last, history_page-more,
}

module _ (clock : Rfc3339) (rows : List HistoryRow) (trader limit_text : Text) where
  abbrev limit : ℕ
  limit = page_limit limit_text

  -- The response that shows the first of the rows `ys`.
  abbrev first_of : List HistoryRow → Response HistoryPage
  first_of ys =
      json (history_page clock trader limit (map (history_entry clock) (take (limit + 1) ys)))

  ask_page-first : ask_page clock rows trader limit_text [] ≡ first_of rows
  unfolding handle_get_trading_history select_history text_beq
  ask_page-first = rw (entries-map clock (take (limit + 1) rows)) refl

  older_than :
      (xs : List HistoryRow) (a : HistoryRow) (ys : List HistoryRow)
      → rows ≡ xs ++ a ∷ ys
      → Descending rows
      → keep (λ r. ltb r.closed_at (whole_second a.closed_at)) rows ≡ ys
  older_than xs a ys e d = rw e (older_than_row xs a ys (subst Descending e d))

  ask_page-next :
      (law : IsClock clock) (xs : List HistoryRow) (a : HistoryRow) (ys : List HistoryRow)
      → rows ≡ xs ++ a ∷ ys
      → Descending rows
      → ask_page clock rows trader limit_text (clock.format (whole_second a.closed_at))
        ≡ first_of ys
  unfolding handle_get_trading_history select_history
  ask_page-next law xs a ys e d =
      rw
        (
          handle_get_trading_history,
          not_empty (clock.format (whole_second a.closed_at)) (law.filled _),
          law.reads (whole_second a.closed_at),
          same_second a.closed_at,
          select_history,
          older_than xs a ys e d,
          entries-map clock (take (limit + 1) ys),
        )
        refl

  split_limit :
      (n : ℕ) (ys : List HistoryRow)
      → 0 < n
      → n < length ys
      → (front : List HistoryRow) × ((a : HistoryRow) × ((take n ys ≡ front ++ a ∷ [])
            × (ys ≡ front ++ a ∷ drop n ys)))
  split_limit zero ys h k = absurd (omega arith)
  split_limit (suc n) ys h k =
      let (front, a, first, whole) = split_at n ys (omega arith) in (front, (a, (first, whole)))

  follow-last :
      (fuel : ℕ) (c : Text) (p : HistoryPage)
      → ask_page clock rows trader limit_text c ≡ json p
      → p.next_cursor ≡ none
      → follow clock rows trader limit_text (suc fuel) c ≡ some p.history
  unfolding follow
  follow-last fuel c p h e = rw (follow, h, e) refl

  follow-next :
      (fuel : ℕ) (c next : Text) (p : HistoryPage) (later : List HistoryEntry)
      → ask_page clock rows trader limit_text c ≡ json p
      → p.next_cursor ≡ some next
      → follow clock rows trader limit_text fuel next ≡ some later
      → follow clock rows trader limit_text (suc fuel) c ≡ some (p.history ++ later)
  unfolding follow
  follow-next fuel c next p later h e k = rw (follow, h, e, k) refl

  follow_from :
      (law : IsClock clock) (d : Descending rows) (fuel : ℕ) (c : Text) (xs ys : List HistoryRow)
      → rows ≡ xs ++ ys
      → ask_page clock rows trader limit_text c ≡ first_of ys
      → length ys < fuel
      → follow clock rows trader limit_text fuel c ≡ some (map (history_entry clock) ys)
  follow_from law d zero c xs ys e req h = absurd (omega arith)
  follow_from law d (suc fuel) c xs ys e req h = elim (Bool-cases (leb (length ys) limit)) [
    | inl small ↦
        follow-last fuel c _
          (req ∙ ap json (history_page-last clock trader limit ys (leb→le _ limit small))) refl
    | inr big ↦
        let (front, (a, (first, whole))) =
          split_limit limit ys (page_limit-positive limit_text) (more_than limit ys big) in
        let split =
          e ∙ ap (λ zs. xs ++ zs) whole ∙ sym (append_assoc xs front (a ∷ drop limit ys)) in
        follow-next fuel c (clock.format (whole_second a.closed_at)) _
          (map (history_entry clock) (drop limit ys))
          (req
            ∙ ap json (
                history_page-more clock trader law limit front ys a (more_than limit ys big) first))
          refl
          (follow_from law d fuel (clock.format (whole_second a.closed_at))
            ((xs ++ front) ++ a ∷ []) (drop limit ys)
            (split ∙ sym (append_assoc (xs ++ front) (a ∷ []) (drop limit ys)))
            (ask_page-next law (xs ++ front) a (drop limit ys) split d)
            (omega (
              arith,
              length-drop limit ys,
              page_limit-positive limit_text,
              h,
              more_than limit ys big,
            )))
        ∙ ap some (
            sym (map-append (history_entry clock) (take limit ys) (drop limit ys))
            ∙ ap (map (history_entry clock)) (take-drop limit ys))
  ]

  -- A client that follows `next_cursor`, with any limit in its requests, gets every closed trade of
  -- the trader exactly once and in order, when the clock's texts are read back to the second and no
  -- two of the trades closed in the same second; one more request than there are trades is enough.
  pub all_pages :
      (fuel : ℕ)
      → IsClock clock
      → Descending rows
      → length rows < fuel
      → follow clock rows trader limit_text fuel [] ≡ some (map (history_entry clock) rows)
  all_pages fuel law d h = follow_from law d fuel [] [] rows refl ask_page-first h
