-- ===== src/Wsgateway/Fees.antt =====
-- The fees and the current liquidation level that internal/wsgateway/cache.go works out for each
-- shown trade (`enrichTrades` and what it calls). The rows of the query are an argument.
pub mod Shown
use lumen_liquid_backend.Base.{
  ℕ, Bool, true, false, Option, none, some, List, [], ◌∷◌, if◌then◌else◌, Eq, ◌==◌, text_eq, nat_eq,
  ◌||◌,
}
use lumen_liquid_backend.Base.Int.{ℤ, pos, int_eq}
use lumen_liquid_backend.Base.Text.{Text, codes, print_ℤ, parse_ℤ}
use lumen_liquid_backend.Base.Assoc.{Map, lookup, insert}
use lumen_liquid_backend.Keeper.Math.{
  Result, ok, err, rollover_fee_for_trade, funding_fee_for_trade, liquidation_price,
}
use lumen_liquid_backend.Wsgateway.Cache.{CachedTrade}

-- `pairFeeSnapshot`
pub record PairFeeSnapshot : Type 0 where
  pub liq_threshold_p : ℕ
  pub acc_rollover : Text
  pub acc_funding_long : Text
  pub acc_funding_short : Text

-- A row of the join: a pair without accumulators has nulls.
pub record PairFeeRow : Type 0 where
  pub pair_index : ℤ
  pub liq_threshold_p : ℕ
  pub acc_rollover : Option Text
  pub acc_funding_long : Option Text
  pub acc_funding_short : Option Text

abbrev text_or_empty : Option Text → Text
text_or_empty none = []
text_or_empty (some s) = s

abbrev or_default : Text → Text → Text
or_default s d = if s == [] then d else s

unfoldable pub ensure_dynamic_defaults : CachedTrade → CachedTrade
ensure_dynamic_defaults t = record t {
  current_liq_price = or_default t.current_liq_price t.liq_price;
  rollover_fee = or_default t.rollover_fee (codes "0");
  funding_fee = or_default t.funding_fee (codes "0");
}

-- The rollover fee, the funding fee and the current level, each where it could be worked out.
pub record TradeFees : Type 0 where
  pub rollover_fee : Option ℤ
  pub funding_fee : Option ℤ
  pub current_liq : Option ℤ

abbrev pub no_fees : TradeFees
no_fees = record { rollover_fee = none; funding_fee = none; current_liq = none }

abbrev with_liq : ℤ → ℤ → Result ℤ → TradeFees
with_liq r f (err e) = record { rollover_fee = some r; funding_fee = some f; current_liq = none }
with_liq r f (ok l) = record { rollover_fee = some r; funding_fee = some f; current_liq = some l }

abbrev pub with_funding : (ℤ → Result ℤ) → ℤ → Result ℤ → TradeFees
with_funding level r (err e) = record {
  rollover_fee = some r;
  funding_fee = none;
  current_liq = none;
}
with_funding level r (ok f) = with_liq r f (level f)

abbrev threshold_p : ℕ → ℕ
threshold_p p = if p == 0 then 90 else p

abbrev pub with_rollover : (ℤ → TradeFees) → Result ℤ → TradeFees
with_rollover rest (err e) = no_fees
with_rollover rest (ok r) = rest r

unfoldable pub fees_and_liq : ℤ → ℤ → ℤ → ℤ → ℤ → ℤ → Bool → ℕ → ℕ → TradeFees
fees_and_liq price collat roll_open funding_open roll_now funding_now is_long leverage threshold =
    with_rollover
      (λ r.
        with_funding
          (λ f.
            liquidation_price (some price) is_long (some collat) leverage (some r) (some f)
              (threshold_p threshold))
          r (funding_fee_for_trade (some funding_open) (some funding_now) (some collat) leverage))
      (rollover_fee_for_trade (some roll_open) (some roll_now) (some collat))

abbrev pub all_known :
    (ℤ → ℤ → ℤ → ℤ → ℤ → ℤ → TradeFees)
    → Option ℤ
    → Option ℤ
    → Option ℤ
    → Option ℤ
    → Option ℤ
    → Option ℤ
    → TradeFees
all_known g (some a) (some b) (some c) (some d) (some e) (some f) = g a b c d e f
all_known g a b c d e f = no_fees

-- `calculateTradeTimeFeesAndLiq`
unfoldable pub calculate_trade_time_fees_and_liq :
    Text → Text → Text → Text → Text → Text → Bool → ℕ → ℕ → TradeFees
calculate_trade_time_fees_and_liq price collat roll_open funding_open roll_now funding_now is_long
      leverage threshold =
    all_known (λ o c ro fo rn fn. fees_and_liq o c ro fo rn fn is_long leverage threshold)
      (parse_ℤ price) (parse_ℤ collat) (parse_ℤ roll_open) (parse_ℤ funding_open) (parse_ℤ roll_now)
      (parse_ℤ funding_now)

abbrev text_or : Text → Option ℤ → Text
text_or old none = old
text_or old (some z) = print_ℤ z

abbrev pub show_fees : TradeFees → CachedTrade → CachedTrade
show_fees f t = record t {
  current_liq_price = text_or t.current_liq_price f.current_liq;
  rollover_fee = text_or t.rollover_fee f.rollover_fee;
  funding_fee = text_or t.funding_fee f.funding_fee;
}

-- `setDynamicTradeFees`; its only caller passes the three accumulators.
unfoldable pub set_dynamic_trade_fees : PairFeeSnapshot → CachedTrade → CachedTrade
set_dynamic_trade_fees s t =
    let d = ensure_dynamic_defaults t in
    show_fees
      (calculate_trade_time_fees_and_liq t.open_price t.collateral t.acc_rollover_open
        t.acc_funding_open s.acc_rollover
        (if t.is_long then s.acc_funding_long else s.acc_funding_short) t.is_long t.leverage
        s.liq_threshold_p)
      d

unfoldable pub pair_snapshots : List PairFeeRow → Map ℤ PairFeeSnapshot → Map ℤ PairFeeSnapshot
pair_snapshots [] m = m
pair_snapshots (r ∷ rs) m = pair_snapshots rs (
    insert r.pair_index
      (record {
        liq_threshold_p = r.liq_threshold_p;
        acc_rollover = text_or_empty r.acc_rollover;
        acc_funding_long = text_or_empty r.acc_funding_long;
        acc_funding_short = text_or_empty r.acc_funding_short;
      })
      m)

abbrev pub lacks_accumulators : PairFeeSnapshot → Bool
lacks_accumulators s = s.acc_rollover == [] || s.acc_funding_long == [] || s.acc_funding_short == []

abbrev pub enrich_with : Option PairFeeSnapshot → CachedTrade → CachedTrade
enrich_with none t = ensure_dynamic_defaults t
enrich_with (some s) t =
    if lacks_accumulators s then ensure_dynamic_defaults t else set_dynamic_trade_fees s t

abbrev enrich_each : Map ℤ PairFeeSnapshot → List CachedTrade → List CachedTrade
enrich_each m [] = []
enrich_each m (t ∷ ts) = enrich_with (lookup t.pair_index m) t ∷ enrich_each m ts

-- `enrichTrades`: without a pool, or when the query fails, the trades come back as they are.
unfoldable pub enrich_trades : Option (List PairFeeRow) → List CachedTrade → List CachedTrade
enrich_trades none ts = ts
enrich_trades (some rows) ts = enrich_each (pair_snapshots rows []) ts
