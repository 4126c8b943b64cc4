-- ===== src/Wsgateway/PriceFeed.antt =====
-- internal/wsgateway/pricefeed.go: the trade stream of Binance as broadcasts on the channel of the
-- prices. The socket appears as the sessions it gives, and encoding/json as the parameter `Json`.
use lumen_liquid_backend.Base.{
  ℕ, ◌*◌, Bool, true, not, Option, none, some, List, [], ◌∷◌, ◌++◌, if◌then◌else◌, ◌==◌, text_eq,
  nat_eq, ltb, length,
}
use lumen_liquid_backend.Base.Int.{ℤ}
use lumen_liquid_backend.Base.Text.{Text, codes, print_ℤ}
use lumen_liquid_backend.Base.Strings.{trim_space, to_upper, to_lower, cut, split_on, atoi}
use lumen_liquid_backend.Base.Assoc.{Map, lookup, insert}
use lumen_liquid_backend.Keeper.Binance.{AggTradeMsg, Json, Session, unwrapped, second}

-- `Message`
pub record Message : Type 0 where
  pub channel : Text
  pub payload : Text

-- `queue` is the hub's broadcast channel, the oldest message first.
pub record PriceFeed : Type 0 where
  pub url : Text
  pub symbols : List Text
  pub symbol_to_pair : Map Text ℤ
  pub queue : List Message

abbrev broadcast_capacity : ℕ
broadcast_capacity = 256

abbrev with_symbol : Text → Option ℤ → PriceFeed → PriceFeed
with_symbol symbol none pf = pf
with_symbol symbol (some i) pf = record pf {
  symbol_to_pair = insert symbol i pf.symbol_to_pair;
  symbols = pf.symbols ++ (to_lower symbol ++ codes "@aggTrade") ∷ [];
}

abbrev with_parts : Text → Option Text → PriceFeed → PriceFeed
with_parts before none pf = pf
with_parts before (some rest) pf =
    with_symbol (to_upper (trim_space before)) (atoi (trim_space rest)) pf

unfoldable pub with_entries : List Text → PriceFeed → PriceFeed
with_entries [] pf = pf
with_entries (entry ∷ entries) pf =
    let (before, after) = cut 58 (trim_space entry) in
    with_entries entries (with_parts before after pf)

unfoldable pub new_price_feed : Text → Text → PriceFeed
new_price_feed ws_url pair_symbol_map =
    with_entries (split_on 44 pair_symbol_map)
      (record { url = ws_url; symbols = []; symbol_to_pair = []; queue = [] })

-- `fmt.Sprintf("%d|%s", …)`
abbrev payload_of : ℤ → Text → Text
payload_of pair price = print_ℤ pair ++ 124 ∷ price

-- A message that finds the hub's channel full is dropped.
unfoldable pub offer_price : ℤ → Text → PriceFeed → PriceFeed
offer_price pair price pf =
    if ltb (length pf.queue) broadcast_capacity
    then record pf {
      queue = pf.queue ++ record { channel = codes "prices"; payload = payload_of pair price } ∷ [];
    }
    else pf

abbrev price_of_pair : Text → Option ℤ → PriceFeed → PriceFeed
price_of_pair price none pf = pf
price_of_pair price (some pair) pf = offer_price pair price pf

abbrev price_message : Option AggTradeMsg → PriceFeed → PriceFeed
price_message none pf = pf
price_message (some msg) pf =
    if msg.event == codes "aggTrade"
    then price_of_pair msg.price (lookup msg.symbol pf.symbol_to_pair) pf
    else pf

unfoldable pub feed_backoff : ℕ → ℕ
feed_backoff current =
    if current == 0
    then second
    else if ltb (30 * second) (current * 2)
    then 30 * second
    else current * 2

module _ (json : Json) where
  -- `handleMessage`
  unfoldable pub handle_price : Text → PriceFeed → PriceFeed
  handle_price message pf =
      price_message (json.agg_trade_msg (unwrapped message (json.stream_wrapper message))) pf

  unfoldable pub handle_prices : List Text → PriceFeed → PriceFeed
  handle_prices [] pf = pf
  handle_prices (m ∷ ms) pf = handle_prices ms (handle_price m pf)

  -- `true` is an error, with which every session ends.
  unfoldable pub connect_feed : Session → PriceFeed → Bool × PriceFeed
  connect_feed session pf =
      if not session.dialed
      then (true, pf)
      else if not session.subscribed
      then (true, pf)
      else (true, handle_prices session.messages pf)

  unfoldable pub run_feed : List Session → PriceFeed → ℕ → PriceFeed × ℕ
  run_feed [] pf backoff = (pf, backoff)
  run_feed (session ∷ sessions) pf backoff =
      let (failed, next) = connect_feed session pf in
      run_feed sessions next (if failed then feed_backoff backoff else 0)
