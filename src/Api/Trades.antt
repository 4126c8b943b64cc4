-- ===== src/Api/Trades.antt =====
-- `handleGetTrades` of cmd/api/main.go, with its own copy of the fee computation.
pub mod Same
use lumen_liquid_backend.Base.{
  ℕ, Bool, true, false, Option, none, some, List, [], ◌∷◌, if◌then◌else◌, ◌==◌, nat_eq, text_eq,
  keep,
}
use lumen_liquid_backend.Base.Sort.{sort_by}
use lumen_liquid_backend.Base.Int.{ℤ, int_eq, leb_ℤ}
use lumen_liquid_backend.Base.Text.{Text, codes, print_ℤ, parse_ℤ}
use lumen_liquid_backend.Keeper.Math.{
  Result, ok, err, rollover_fee_for_trade, funding_fee_for_trade, liquidation_price,
}
use lumen_liquid_backend.Wsgateway.Cache.Load.{TradeColumns, JoinedTrade, threshold_of}
use lumen_liquid_backend.Api.{Response, json, http_error}

-- An entry of the response, by its JSON keys.
pub record TradeJson : Type 0 where
  pub trader : Text
  pub pair_index : ℤ
  pub trade_index : ℤ
  pub is_long : Bool
  pub leverage : ℕ
  pub collateral : Text
  pub open_price : Text
  pub acc_rollover_open : Text
  pub acc_funding_open : Text
  pub tp_price : Text
  pub sl_price : Text
  pub liq_price : Text
  pub current_liq_price : Text
  pub rollover_fee : Text
  pub funding_fee : Text
  pub opened_at : ℕ

-- The rollover fee, the funding fee and the level; `none` is the nil pointer.
pub record FeeTriple : Type 0 where
  pub rollover : Option ℤ
  pub funding : Option ℤ
  pub liq : Option ℤ

abbrev pub triple : Option ℤ → Option ℤ → Option ℤ → FeeTriple
triple r f l = record { rollover = r; funding = f; liq = l }

abbrev pub after_liq : ℤ → ℤ → Result ℤ → FeeTriple
after_liq r f (err e) = triple (some r) (some f) none
after_liq r f (ok l) = triple (some r) (some f) (some l)

abbrev pub after_funding : ℤ → (ℤ → Result ℤ) → Result ℤ → FeeTriple
after_funding r level (err e) = triple (some r) none none
after_funding r level (ok f) = after_liq r f (level f)

abbrev pub after_rollover : (ℤ → Result ℤ) → (ℤ → ℤ → Result ℤ) → Result ℤ → FeeTriple
after_rollover funding level (err e) = triple none none none
after_rollover funding level (ok r) = after_funding r (level r) (funding r)

-- `calculateTradeTimeFeesAndLiq` and `parseBig`; the first six results are the parsed texts.
abbrev pub fees_of :
    Option ℤ → Option ℤ → Option ℤ → Option ℤ → Option ℤ → Option ℤ → Bool → ℕ → ℕ → FeeTriple
fees_of (some price) (some collat) (some ro) (some fo) (some rn) (some fn) is_long leverage p =
    let threshold = if p == 0 then 90 else p in
    after_rollover (λ r. funding_fee_for_trade (some fo) (some fn) (some collat) leverage)
      (λ r f.
        liquidation_price (some price) is_long (some collat) leverage (some r) (some f) threshold)
      (rollover_fee_for_trade (some ro) (some rn) (some collat))
fees_of price collat ro fo rn fn is_long leverage p = triple none none none

unfoldable pub time_fees_and_liq : TradeColumns → Text → Text → FeeTriple
time_fees_and_liq r roll_now funding_now =
    fees_of (parse_ℤ r.open_price) (parse_ℤ r.collateral) (parse_ℤ r.acc_rollover_open)
      (parse_ℤ r.acc_funding_open) (parse_ℤ roll_now) (parse_ℤ funding_now) r.is_long r.leverage
      (threshold_of r)

abbrev pub text_unless_nil : Option ℤ → Text → Text
text_unless_nil none s = s
text_unless_nil (some z) s = print_ℤ z

abbrev pub with_fees : FeeTriple → TradeJson → TradeJson
with_fees f t = record t {
  rollover_fee = text_unless_nil f.rollover t.rollover_fee;
  funding_fee = text_unless_nil f.funding t.funding_fee;
  current_liq_price = text_unless_nil f.liq t.current_liq_price;
}

-- The fees where the three accumulators are there.
abbrev pub fees_if_known :
    TradeColumns → Option Text → Option Text → Option Text → TradeJson → TradeJson
fees_if_known r (some roll) (some long) (some short) t =
    with_fees (time_fees_and_liq r roll (if r.is_long then long else short)) t
fees_if_known r roll long short t = t

-- The entry before the fees.
abbrev pub bare : Text → TradeColumns → TradeJson
bare trader r = record {
  trader = trader;
  pair_index = r.pair_index;
  trade_index = r.trade_index;
  is_long = r.is_long;
  leverage = r.leverage;
  collateral = r.collateral;
  open_price = r.open_price;
  acc_rollover_open = r.acc_rollover_open;
  acc_funding_open = r.acc_funding_open;
  tp_price = r.tp_price;
  sl_price = r.sl_price;
  liq_price = r.liq_price;
  current_liq_price = r.liq_price;
  rollover_fee = codes "0";
  funding_fee = codes "0";
  opened_at = r.opened_at;
}

unfoldable pub trade_json : Text → TradeColumns → TradeJson
trade_json trader r =
    fees_if_known r r.acc_rollover r.acc_funding_long r.acc_funding_short (bare trader r)

pub record TradesJson : Type 0 where
  pub trader : Text
  pub trades : List TradeJson

-- `ORDER BY pair_index, trade_index`
abbrev pub ordered : ℤ → ℤ → ℤ → ℤ → Bool
ordered pair index pair' index' = if pair == pair' then leb_ℤ index index' else leb_ℤ pair pair'

abbrev pub row_ordered : JoinedTrade → JoinedTrade → Bool
row_ordered a b =
    ordered a.columns.pair_index a.columns.trade_index b.columns.pair_index b.columns.trade_index

-- The rows of the query: `WHERE t.trader = $1`, in its order.
unfoldable pub select_trades : Text → List JoinedTrade → List JoinedTrade
select_trades trader rows = sort_by row_ordered (keep (λ row. row.trader == trader) rows)

-- The loop; a row that cannot be scanned ends it, since pgx closes the rows then.
unfoldable pub trades_of : List JoinedTrade → List TradeJson
trades_of [] = []
trades_of (row ∷ rows) =
    let rest = trades_of rows in if row.scans then trade_json row.trader row.columns ∷ rest else []

unfoldable pub handle_get_trades : Option (List JoinedTrade) → Text → Response TradesJson
handle_get_trades none trader = http_error (codes "query failed") 500
handle_get_trades (some rows) trader =
    json (record { trader = trader; trades = trades_of (select_trades trader rows) })
