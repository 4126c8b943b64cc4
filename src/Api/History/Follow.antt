-- ===== src/Api/History/Follow.antt =====
-- One page of the history, and the client that asks for the next (cmd/api/main.go,
-- handleGetTradingHistory).
use lumen_liquid_backend.Base.{
  ℕ, zero, suc, ◌+◌, ◌-◌, ◌≤◌, ◌<◌, ◌≡◌, ◌≢◌, refl, ap, true, false, Option, none, some, List, [],
  ◌∷◌, ◌++◌, map, ◌==◌, text_eq, text_beq_iff, ltb, leb, length, take, get_elem?, arith, lt→ltb,
}
use lumen_liquid_backend.Base.Text.{Text}
use lumen_liquid_backend.Base.Int.{ℤ}
use lumen_liquid_backend.Base.Strings.{atoi}
use lumen_liquid_backend.Base.Time.{Rfc3339, IsClock, whole_second}
use lumen_liquid_backend.Api.{Response, json, http_error, Rows}
use lumen_liquid_backend.Api.History.{
  HistoryRow, HistoryEntry, HistoryPage, chosen, page_limit, select_history, history_entry, entries,
  must_parse_rfc3339, cursor_of, history_page, handle_get_trading_history,
}
use lumen_liquid_backend.Base.Slices.{
  length-take, take-take-suc, take_all, last_of, map-take, map-append, length-map,
}

-- The database, which answers each query with the rows that it selects.
abbrev pub database : List HistoryRow → Option ℕ → ℕ → Rows HistoryRow
database rows cursor n = some (map some (select_history cursor n rows))

module _ (clock : Rfc3339) (rows : List HistoryRow) (trader limit_text : Text) where
  abbrev pub ask_page : Text → Response HistoryPage
  ask_page = handle_get_trading_history clock (database rows) trader limit_text

  -- The client asks for the next page until there is none; `none` when a request fails or the fuel
  -- is used up.
  unfoldable pub follow : ℕ → Text → Option (List HistoryEntry)
  follow zero cursor = none
  follow (suc fuel) cursor = elim (ask_page cursor) [
    | http_error message status ↦ none
    | json p ↦ elim p.next_cursor [
      | none ↦ some p.history
      | some next ↦ elim (follow fuel next) [ none ↦ none | some later ↦ some (p.history ++ later) ]
    ]
  ]

chosen-positive : (o : Option ℤ) → 0 < chosen o
chosen-positive none = omega arith
chosen-positive (some n) = ground arith

pub page_limit-positive : (l : Text) → 0 < page_limit l
unfolding page_limit
page_limit-positive l = ground (arith, chosen-positive (atoi l))

pub entries-map :
    (clock : Rfc3339) (rows : List HistoryRow)
    → entries clock (map some rows) ≡ map (history_entry clock) rows
entries-map clock [] = refl
entries-map clock (r ∷ rows) = ap (λ es. history_entry clock r ∷ es) (entries-map clock rows)

pub same_second : (t : ℕ) → whole_second (whole_second t) ≡ whole_second t
same_second t = omega arith

pub not_empty : (s : Text) → s ≢ [] → (s == []) ≡ false
not_empty s h = ground (arith, text_beq_iff s [])

pub more_than : (n : ℕ) (ys : List HistoryRow) → leb (length ys) n ≡ false → n < length ys
more_than n ys h = ground arith

add_one : (n : ℕ) → n + 1 ≡ suc n
add_one n = omega arith

module _ (clock : Rfc3339) (trader : Text) where
  not_more : (limit : ℕ) (ys : List HistoryRow) → length ys ≤ limit → ltb limit (length ys) ≡ false
  not_more limit ys h = ground arith

  -- The last page.
  pub history_page-last :
      (limit : ℕ) (ys : List HistoryRow)
      → length ys ≤ limit
      → history_page clock trader limit (map (history_entry clock) (take (limit + 1) ys)) ≡ record {
        trader = trader;
        history = map (history_entry clock) ys;
        next_cursor = none;
        has_more = false;
      }
  unfolding history_page
  history_page-last limit ys h =
      rw
        (
          take_all (limit + 1) ys (omega arith),
          length-map (history_entry clock) ys,
          not_more limit ys h,
        )
        refl

  shown_part :
      (n : ℕ) (ys : List HistoryRow)
      → take n (map (history_entry clock) (take (n + 1) ys)) ≡ map (history_entry clock) (take n ys)
  shown_part n ys = rw (map-take (history_entry clock), add_one n, take-take-suc n ys) refl

  one_more :
      (n : ℕ) (ys : List HistoryRow)
      → n < length ys
      → ltb n (length (map (history_entry clock) (take (n + 1) ys))) ≡ true
  one_more n ys h =
      rw (length-map (history_entry clock), length-take (n + 1) ys (omega arith))
        (lt→ltb n (n + 1) (omega arith))

  parsed :
      (law : IsClock clock) (t : ℕ) → must_parse_rfc3339 clock (clock.format t) ≡ whole_second t
  unfolding must_parse_rfc3339
  parsed law t = rw (must_parse_rfc3339, law.reads t) refl

  last_cursor :
      (law : IsClock clock) (front : List HistoryRow) (a : HistoryRow)
      → cursor_of clock (
          get_elem?
            (map (history_entry clock) (front ++ a ∷ []))
            (length (map (history_entry clock) (front ++ a ∷ [])) - 1))
        ≡ some (clock.format (whole_second a.closed_at))
  last_cursor law front a =
      rw
        (
          map-append (history_entry clock) front (a ∷ []),
          last_of (map (history_entry clock) front) (history_entry clock a),
        )
        (ap (λ t. some (clock.format t)) (parsed law a.closed_at))

  pub history_page-more :
      (law : IsClock clock) (n : ℕ) (front ys : List HistoryRow) (a : HistoryRow)
      → n < length ys
      → take n ys ≡ front ++ a ∷ []
      → history_page clock trader n (map (history_entry clock) (take (n + 1) ys)) ≡ record {
        trader = trader;
        history = map (history_entry clock) (take n ys);
        next_cursor = some (clock.format (whole_second a.closed_at));
        has_more = true;
      }
  unfolding history_page
  history_page-more law n front ys a h e =
      rw (one_more n ys h, shown_part n ys)
        (ap
          (λ c. record {
            trader = trader;
            history = map (history_entry clock) (take n ys);
            next_cursor = c;
            has_more = true;
          })
          (rw e (last_cursor law front a)))
