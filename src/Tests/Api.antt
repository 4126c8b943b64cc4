-- ===== src/Tests/Api.antt =====
-- Tests of the HTTP handlers: each theorem on small tables.
use lumen_liquid_backend.Base.{
  ◌≡◌, ◌*◌, ◌/◌, refl, true, false, none, some, List, [], ◌∷◌, map, arith, inl, text_eq, All, ap,
}
use mathlib.Core.Option
use mathlib.Core.List.Perm
use lumen_liquid_backend.Base.Int.{pos}
use lumen_liquid_backend.Base.Text.{
  codes, print_ℕ, parse_ℕ, print_ℤ, parse_ℕ-print_ℕ, print_ℕ-ne-nil,
}
use lumen_liquid_backend.Base.Time.{Rfc3339, IsClock, whole_second}
use lumen_liquid_backend.Base.Assoc.{lookup}
use lumen_liquid_backend.Wsgateway.Cache.{TradeCache, list_of}
use lumen_liquid_backend.Wsgateway.Cache.Load.{TradeColumns, JoinedTrade, load_from_db}
use lumen_liquid_backend.Api.{json}
use lumen_liquid_backend.Api.History.{HistoryRow, history_entry}
use lumen_liquid_backend.Api.History.Follow.{ask_page, follow}
use lumen_liquid_backend.Api.History.Pages.{all_pages}
use lumen_liquid_backend.Api.History.Cursor.{ClosedBefore, shown_by, after_cursor_older}
use lumen_liquid_backend.Api.Pairs.{
  PairGroup, PairRow, handle_get_pairs, handle_get_pair, handle_get_pair_groups,
}
use lumen_liquid_backend.Api.Pairs.Sorted.{handle_get_pair_groups-sorted}
use lumen_liquid_backend.Api.Pairs.Agree.{the_pair, select_group, select_pair, pairs_agree}
use lumen_liquid_backend.Api.Trades.{handle_get_trades}
use lumen_liquid_backend.Api.Trades.Same.{
  cached_ordered, as_cached, trades_shown, handle_get_trades-load,
}
use lumen_liquid_backend.Base.Sort.{sort_by}
use lumen_liquid_backend.Tests.{alice}

-- A clock that writes the number of seconds.
abbrev a_clock : Rfc3339
a_clock = record {
  format = λ t. print_ℕ (t / 1_000_000);
  parse = λ s. Option.map (λ n. n * 1_000_000) (parse_ℕ s);
}

a_clock-IsClock : IsClock a_clock
a_clock-IsClock = record {
  reads = λ t. ap (Option.map (λ n. n * 1_000_000)) (parse_ℕ-print_ℕ (t / 1_000_000));
  filled = λ t. print_ℕ-ne-nil (t / 1_000_000);
}

abbrev a_row : HistoryRow
a_row = record {
  pair_index = pos 1;
  trade_index = pos 0;
  is_long = true;
  leverage = pos 10;
  collateral = codes "1000";
  open_price = codes "50000";
  close_price = none;
  acc_rollover_open = codes "0";
  acc_funding_open = codes "0";
  tp_price = codes "0";
  sl_price = codes "0";
  realized_pnl = none;
  open_fee = none;
  close_fee = none;
  close_reason = codes "manual";
  opened_at = 1_000_000;
  opened_tx = codes "tx1";
  closed_at = 9_000_000;
  closed_tx = codes "tx2";
}

abbrev rows : List HistoryRow
rows = a_row ∷ record a_row { closed_at = 8_500_000 } ∷ record a_row { closed_at = 7_000_000 } ∷ []

all_pages_example :
    follow a_clock rows alice (codes "2") 4 [] ≡ some (map (history_entry a_clock) rows)
all_pages_example =
    all_pages a_clock rows alice (codes "2") 4 a_clock-IsClock (omega arith, (omega arith, tt))
      (omega arith)

after_cursor_older_example :
    All
      (ClosedBefore (whole_second 8_500_000))
      (shown_by (ask_page a_clock rows alice (codes "2") (a_clock.format 8_500_000)))
after_cursor_older_example =
    after_cursor_older a_clock rows alice (codes "2") 8_500_000 a_clock-IsClock

abbrev a_group : PairGroup
a_group = record {
  group_index = pos 0;
  name = codes "crypto";
  max_collateral_usdc = codes "1000";
  open_fee_p = codes "8";
  close_fee_p = codes "8";
  synced_at = 0;
}

abbrev groups : List PairGroup
groups = a_group ∷ record a_group { group_index = pos 2 } ∷ []

abbrev a_pair : PairRow
a_pair = record {
  pair_index = pos 1;
  symbol = codes "BTC";
  reflector_asset_type = codes "other";
  reflector_asset = codes "BTC";
  group_index = pos 2;
  spread_p = codes "0";
  min_leverage = pos 2;
  max_leverage = pos 100;
  min_lev_pos_usdc = codes "0";
  max_oi_usdc = codes "0";
  max_neg_pnl_p = codes "0";
  liq_threshold_p = pos 90;
  max_gain_p = pos 900;
  disabled = false;
  one_percent_depth = codes "0";
  synced_at = 0;
}

-- The keys are visited in the order of the table.
handle_get_pair_groups-sorted_example :
    handle_get_pair_groups (λ is. is) (some (map some groups)) ≡ json groups
handle_get_pair_groups-sorted_example =
    handle_get_pair_groups-sorted (λ is. is) groups (λ is. Perm.refl is) (omega arith, tt)

pairs_agree_example :
    (handle_get_pairs (some (map some groups)) (some (some a_pair ∷ []))
      ≡ json (the_pair groups a_pair ∷ []))
    × (handle_get_pair (select_group groups) (select_pair (a_pair ∷ [])) (codes "1")
        ≡ json (the_pair groups a_pair))
unfolding print_ℤ
pairs_agree_example =
    pairs_agree groups (a_pair ∷ []) a_pair (omega arith, tt) (omega arith, omega arith, tt, tt)
      (inl refl)

abbrev columns : TradeColumns
columns = record {
  pair_index = pos 1;
  trade_index = pos 0;
  is_long = true;
  leverage = 10;
  collateral = codes "1000";
  open_price = codes "50000";
  acc_rollover_open = codes "0";
  acc_funding_open = codes "0";
  tp_price = codes "0";
  sl_price = codes "0";
  liq_price = codes "45500";
  pair_threshold = none;
  trade_threshold = 90;
  acc_rollover = some (codes "10000");
  acc_funding_long = some (codes "10000");
  acc_funding_short = some (codes "0");
  opened_at = 1_000_000;
}

abbrev joined : List JoinedTrade
joined =
    record { trader = alice; columns = record columns { trade_index = pos 1 }; scans = true }
    ∷ record { trader = codes "GBOB"; columns = columns; scans = true }
    ∷ record { trader = alice; columns = columns; scans = true }
    ∷ []

abbrev an_empty_cache : TradeCache
an_empty_cache = record { trades = []; limits = []; pairs = [] }

handle_get_trades-load_example :
    map (as_cached a_clock) (trades_shown (handle_get_trades (some joined) alice))
    ≡ sort_by cached_ordered (
        list_of (
          lookup alice
            (load_from_db a_clock (some joined) (some []) (some []) an_empty_cache).0.trades))
handle_get_trades-load_example =
    handle_get_trades-load a_clock joined [] [] alice an_empty_cache (refl, (refl, (refl, tt)))
