-- ===== src/Api/Trades/Same.antt =====
-- The open trades over HTTP (cmd/api/main.go) and those of the gateway's cache after it is loaded
-- (internal/wsgateway/cache.go).
use mathlib.Core.List.{append_assoc, append-nil}
use lumen_liquid_backend.Base.{
  ℕ, ◌≡◌, ◌≢◌, arith, true, keep, All, refl, sym, ap, ◌∙◌, Bool, inl, inr, Option, none, some, List,
  [], ◌∷◌, ◌++◌, map, if◌then◌else◌, Bool-cases, ◌==◌, text_eq, text_beq, text_beq_iff, nat_eq,
  subst,
}
use lumen_liquid_backend.Base.Sort.{sort_by, sort_by-All, sort_by-map}
use lumen_liquid_backend.Base.Int.{ℤ}
use lumen_liquid_backend.Base.Text.{Text, parse_ℤ}
use lumen_liquid_backend.Base.Time.{Rfc3339}
use lumen_liquid_backend.Base.Assoc.{Map, lookup, lookup-insert_self, lookup-insert_ne}
use lumen_liquid_backend.Keeper.Math.{
  Result, ok, err, rollover_fee_for_trade, funding_fee_for_trade, liquidation_price,
}
use lumen_liquid_backend.Wsgateway.Cache.{CachedTrade, CachedPair, TradeCache, list_of}
use lumen_liquid_backend.Wsgateway.Cache.Load.{
  TradeColumns, JoinedTrade, threshold_of, scanned, set_if_known, append_to, loaded_trade, load_row,
  load_trades, load_from_db, JoinedLimit,
}
use lumen_liquid_backend.Wsgateway.Fees.{
  TradeFees, fees_and_liq, all_known, calculate_trade_time_fees_and_liq, set_dynamic_trade_fees,
  ensure_dynamic_defaults, with_funding, with_rollover, show_fees,
}
use lumen_liquid_backend.Api.{Response, json, http_error}
use lumen_liquid_backend.Api.Trades.{
  TradeJson, TradesJson, FeeTriple, triple, after_liq, after_funding, after_rollover, fees_of,
  time_fees_and_liq, with_fees, bare, fees_if_known, trade_json, ordered, row_ordered,
  select_trades, trades_of, handle_get_trades,
}

-- A JSON entry as the gateway shows it: the time is a text of whole seconds.
abbrev pub as_cached : Rfc3339 → TradeJson → CachedTrade
as_cached clock t = record {
  trader = t.trader;
  pair_index = t.pair_index;
  trade_index = t.trade_index;
  is_long = t.is_long;
  leverage = t.leverage;
  collateral = t.collateral;
  open_price = t.open_price;
  acc_rollover_open = t.acc_rollover_open;
  acc_funding_open = t.acc_funding_open;
  tp_price = t.tp_price;
  sl_price = t.sl_price;
  liq_price = t.liq_price;
  current_liq_price = t.current_liq_price;
  rollover_fee = t.rollover_fee;
  funding_fee = t.funding_fee;
  opened_at = clock.format t.opened_at;
}

abbrev pub cached_ordered : CachedTrade → CachedTrade → Bool
cached_ordered a b = ordered a.pair_index a.trade_index b.pair_index b.trade_index

abbrev as_fees : FeeTriple → TradeFees
as_fees f = record { rollover_fee = f.rollover; funding_fee = f.funding; current_liq = f.liq }

after_funding-same :
    (r : ℤ) (level : ℤ → Result ℤ) (fund : Result ℤ)
    → with_funding level r fund ≡ as_fees (after_funding r level fund)
after_funding-same r level (err e) = refl
after_funding-same r level (ok f) = liq_same (level f)
  where
    liq_same : (l : Result ℤ) → with_funding (λ g. l) r (ok f) ≡ as_fees (after_liq r f l)
    liq_same (ok l) = refl
    liq_same (err e) = refl

after_rollover-same :
    (fund : ℤ → Result ℤ) (level : ℤ → ℤ → Result ℤ) (roll : Result ℤ)
    → with_rollover (λ r. with_funding (level r) r (fund r)) roll
      ≡ as_fees (after_rollover fund level roll)
after_rollover-same fund level (err e) = refl
after_rollover-same fund level (ok r) = after_funding-same r (level r) (fund r)

fees_of-same :
    (a b c d e f : Option ℤ) (is_long : Bool) (leverage p : ℕ)
    → all_known (λ o c' ro fo rn fn. fees_and_liq o c' ro fo rn fn is_long leverage p) a b c d e f
      ≡ as_fees (fees_of a b c d e f is_long leverage p)
unfolding fees_and_liq
fees_of-same none b c d e f l v p = refl
fees_of-same (some a) none c d e f l v p = refl
fees_of-same (some a) (some b) none d e f l v p = refl
fees_of-same (some a) (some b) (some c) none e f l v p = refl
fees_of-same (some a) (some b) (some c) (some d) none f l v p = refl
fees_of-same (some a) (some b) (some c) (some d) (some e) none l v p = refl
fees_of-same (some a) (some b) (some c) (some d) (some e) (some f) l v p =
    after_rollover-same (λ r. funding_fee_for_trade (some d) (some f) (some b) v)
      (λ r g. liquidation_price (some a) l (some b) v (some r) (some g) (if p == 0 then 90 else p))
      (rollover_fee_for_trade (some c) (some e) (some b))

fee_triple-same :
    (r : TradeColumns) (roll fund : Text)
    → calculate_trade_time_fees_and_liq r.open_price r.collateral r.acc_rollover_open
        r.acc_funding_open roll fund r.is_long r.leverage
        (threshold_of r)
      ≡ as_fees (time_fees_and_liq r roll fund)
unfolding calculate_trade_time_fees_and_liq time_fees_and_liq
fee_triple-same r roll fund =
    fees_of-same (parse_ℤ r.open_price) (parse_ℤ r.collateral) (parse_ℤ r.acc_rollover_open)
      (parse_ℤ r.acc_funding_open) (parse_ℤ roll) (parse_ℤ fund) r.is_long r.leverage
      (threshold_of r)

module _ (clock : Rfc3339) where
  shown-same :
      (trader : Text) (r : TradeColumns) (a b c : Option ℤ)
      → record (show_fees (as_fees (triple a b c)) (ensure_dynamic_defaults (scanned trader r))) {
        opened_at = clock.format r.opened_at;
      }
        ≡ as_cached clock (with_fees (triple a b c) (bare trader r))
  unfolding ensure_dynamic_defaults text_beq
  shown-same trader r none none none = refl
  shown-same trader r none none (some c) = refl
  shown-same trader r none (some b) none = refl
  shown-same trader r none (some b) (some c) = refl
  shown-same trader r (some a) none none = refl
  shown-same trader r (some a) none (some c) = refl
  shown-same trader r (some a) (some b) none = refl
  shown-same trader r (some a) (some b) (some c) = refl

  known-same :
      (trader : Text) (r : TradeColumns) (roll long short : Option Text)
      → record (set_if_known (threshold_of r) roll long short (scanned trader r)) {
        opened_at = clock.format r.opened_at;
      }
        ≡ as_cached clock (fees_if_known r roll long short (bare trader r))
  unfolding ensure_dynamic_defaults text_beq set_dynamic_trade_fees
  known-same trader r none long short = refl
  known-same trader r (some roll) none short = refl
  known-same trader r (some roll) (some long) none = refl
  known-same trader r (some roll) (some long) (some short) =
      rw (fee_triple-same r roll (if r.is_long then long else short)) (shown-same trader r _ _ _)

  loaded_trade-same :
      (trader : Text) (r : TradeColumns)
      → loaded_trade clock trader r ≡ as_cached clock (trade_json trader r)
  unfolding loaded_trade trade_json
  loaded_trade-same trader r =
      known-same trader r r.acc_rollover r.acc_funding_long r.acc_funding_short

  trade_json-pair : (t : Text) (r : TradeColumns) → (trade_json t r).pair_index ≡ r.pair_index
  unfolding trade_json
  trade_json-pair t r = by_options r.acc_rollover r.acc_funding_long r.acc_funding_short
    where
      by_options :
          (a b c : Option Text) → (fees_if_known r a b c (bare t r)).pair_index ≡ r.pair_index
      by_options none b c = refl
      by_options (some a) none c = refl
      by_options (some a) (some b) none = refl
      by_options (some a) (some b) (some c) = refl

  trade_json-index : (t : Text) (r : TradeColumns) → (trade_json t r).trade_index ≡ r.trade_index
  unfolding trade_json
  trade_json-index t r = by_options r.acc_rollover r.acc_funding_long r.acc_funding_short
    where
      by_options :
          (a b c : Option Text) → (fees_if_known r a b c (bare t r)).trade_index ≡ r.trade_index
      by_options none b c = refl
      by_options (some a) none c = refl
      by_options (some a) (some b) none = refl
      by_options (some a) (some b) (some c) = refl

  -- A row as the gateway shows it.
  abbrev row_shown : JoinedTrade → CachedTrade
  row_shown row = as_cached clock (trade_json row.trader row.columns)

  same_order : (a b : JoinedTrade) → cached_ordered (row_shown a) (row_shown b) ≡ row_ordered a b
  same_order a b =
      rw
        (
          trade_json-pair a.trader a.columns,
          trade_json-pair b.trader b.columns,
          trade_json-index a.trader a.columns,
          trade_json-index b.trader b.columns,
        )
        refl

  -- One row more.
  load_row-hit :
      (trader : Text) (r : TradeColumns) (m : Map Text (List CachedTrade))
      → list_of (lookup trader (load_row clock trader r m))
        ≡ list_of (lookup trader m) ++ as_cached clock (trade_json trader r) ∷ []
  unfolding append_to
  load_row-hit trader r m =
      rw (append_to, lookup-insert_self trader _ m, loaded_trade-same trader r) refl

  load_row-miss :
      (trader other : Text) (r : TradeColumns) (m : Map Text (List CachedTrade))
      → other ≢ trader
      → lookup trader (load_row clock other r m) ≡ lookup trader m
  unfolding append_to
  load_row-miss trader other r m h = lookup-insert_ne other trader _ m h

  load_row-lookup :
      (trader : Text) (row : JoinedTrade) (rows : List JoinedTrade)
      (m : Map Text (List CachedTrade))
      → list_of (lookup trader (load_row clock row.trader row.columns m))
          ++ map row_shown (keep (λ x. x.trader == trader) rows)
        ≡ list_of (lookup trader m) ++ map row_shown (keep (λ x. x.trader == trader) (row ∷ rows))
  load_row-lookup trader row rows m = elim (Bool-cases (row.trader == trader)) [
    | inl hit ↦ rw hit (
        subst
          (λ t.
            list_of (lookup t (load_row clock row.trader row.columns m))
              ++ map row_shown (keep (λ x. x.trader == trader) rows)
            ≡ list_of (lookup t m)
              ++ row_shown row ∷ map row_shown (keep (λ x. x.trader == trader) rows))
          ((text_beq_iff row.trader trader).0 hit)
          (rw (load_row-hit row.trader row.columns m) (
            append_assoc (list_of (lookup row.trader m)) (row_shown row ∷ [])
              (map row_shown (keep (λ x. x.trader == trader) rows)))))
    | inr miss ↦
        rw
          (
            miss,
            load_row-miss trader row.trader row.columns m
                (λ e. (cc (miss, (text_beq_iff row.trader trader).1 e))),
          )
          refl
  ]

  load_trades-scanned :
      (row : JoinedTrade) (rows : List JoinedTrade) (m : Map Text (List CachedTrade))
      → row.scans ≡ true
      → load_trades clock (row ∷ rows) m
        ≡ load_trades clock rows (load_row clock row.trader row.columns m)
  unfolding load_trades
  load_trades-scanned row rows m scan = ground (arith, scan)

  load_trades-lookup :
      (trader : Text) (rows : List JoinedTrade) (m : Map Text (List CachedTrade))
      → All (λ row. row.scans ≡ true) rows
      → list_of (lookup trader (load_trades clock rows m))
        ≡ list_of (lookup trader m) ++ map row_shown (keep (λ x. x.trader == trader) rows)
  unfolding load_trades
  load_trades-lookup trader [] m scan = sym (append-nil (list_of (lookup trader m)))
  load_trades-lookup trader (row ∷ rows) m scan =
      ap (λ n. list_of (lookup trader n)) (load_trades-scanned row rows m scan.0)
      ∙ load_trades-lookup trader rows (load_row clock row.trader row.columns m) scan.1
      ∙ load_row-lookup trader row rows m

  trades_of-map :
      (rows : List JoinedTrade)
      → All (λ row. row.scans ≡ true) rows
      → map (as_cached clock) (trades_of rows) ≡ map row_shown rows
  unfolding trades_of
  trades_of-map [] scan = refl
  trades_of-map (row ∷ rows) scan =
      rw (trades_of, scan.0) (ap (λ ts. row_shown row ∷ ts) (trades_of-map rows scan.1))

  keep-All :
      (trader : Text) (rows : List JoinedTrade)
      → All (λ row. row.scans ≡ true) rows
      → All (λ row. row.scans ≡ true) (keep (λ x. x.trader == trader) rows)
  keep-All trader [] scan = tt
  keep-All trader (row ∷ rows) scan = elim (Bool-cases (row.trader == trader)) [
    | inl hit ↦ rw hit (scan.0, keep-All trader rows scan.1)
    | inr miss ↦ rw miss (keep-All trader rows scan.1)
  ]

  select_trades-shown :
      (trader : Text) (rows : List JoinedTrade)
      → All (λ row. row.scans ≡ true) rows
      → map (as_cached clock) (trades_of (select_trades trader rows))
        ≡ sort_by cached_ordered (map row_shown (keep (λ x. x.trader == trader) rows))
  unfolding select_trades
  select_trades-shown trader rows scan =
      trades_of-map (select_trades trader rows) (
        sort_by-All row_ordered (λ row. row.scans ≡ true) (keep (λ x. x.trader == trader) rows)
          (keep-All trader rows scan))
      ∙ sym (
          sort_by-map row_ordered cached_ordered row_shown (keep (λ x. x.trader == trader) rows)
            same_order)

-- The trades in a response.
abbrev pub trades_shown : Response TradesJson → List TradeJson
trades_shown (json t) = t.trades
trades_shown (http_error message status) = []

-- When every row can be scanned, a trader is shown over HTTP exactly the trades, with the same fees
-- and the same current level, that the gateway's cache holds for the trader after it is loaded from
-- the same rows, sorted by pair and trade index; the time is cut to seconds there.
pub handle_get_trades-load :
    (clock : Rfc3339) (rows : List JoinedTrade) (limits : List (Option JoinedLimit))
    (pairs : List (Option CachedPair)) (trader : Text) (c : TradeCache)
    → All (λ row. row.scans ≡ true) rows
    → map (as_cached clock) (trades_shown (handle_get_trades (some rows) trader))
      ≡ sort_by cached_ordered (
          list_of
            (lookup trader (load_from_db clock (some rows) (some limits) (some pairs) c).0.trades))
unfolding load_from_db handle_get_trades lookup
handle_get_trades-load clock rows limits pairs trader c scan =
    select_trades-shown clock trader rows scan
    ∙ ap (sort_by cached_ordered) (sym (load_trades-lookup clock trader rows [] scan))
