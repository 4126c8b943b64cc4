-- ===== src/Tests/Binance.antt =====
-- Tests of the keeper's price stream and of its loop.
use lumen_liquid_backend.Base.{◌≡◌, ◌*◌, true, none, some, [], ◌∷◌, arith, text_eq}
use lumen_liquid_backend.Base.Int.{pos}
use lumen_liquid_backend.Base.Text.{Text, codes}
use lumen_liquid_backend.Keeper.Executor.{Executor}
use lumen_liquid_backend.Keeper.Binance.{
  BinanceClient, Json, AggTradeMsg, Session, new_binance_client, parse_price_to_scale, second, run,
}
use lumen_liquid_backend.Keeper.Binance.Price.{parse_price_of}
use lumen_liquid_backend.Keeper.Binance.Backoff.{run-wait_after}
use lumen_liquid_backend.Keeper.HotPath.Queued.{Queued}
use lumen_liquid_backend.Tests.{watched}

abbrev trade_at : Text → AggTradeMsg
trade_at price = record { event = codes "aggTrade"; symbol = codes "BTCUSDT"; price = price }

-- A decoder that takes a message for the price of a trade.
abbrev plain : Json
plain = record { stream_wrapper = λ m. none; agg_trade_msg = λ m. some (trade_at m) }

abbrev a_client : BinanceClient
a_client = new_binance_client (codes "wss") (codes " btcusdt : 1,bad,ETHUSDT:x")

abbrev a_price : Text
a_price = codes "0.00000000045"

parse_price_of_example :
    (parse_price_to_scale (codes "62738.10") ≡ some (pos 6_273_810_000_000_000_000))
    × (parse_price_to_scale (codes "62738") ≡ some (pos 6_273_800_000_000_000_000))
parse_price_of_example = parse_price_of (codes "62738") (codes "10") (omega arith) (omega arith)

abbrev working : Session
working = record { dialed = true; subscribed = true; messages = a_price ∷ [] }

run-wait_after_example : (run plain (working ∷ working ∷ []) a_client 0).1 ≡ 2 * second
run-wait_after_example = run-wait_after plain (working ∷ working ∷ []) a_client

abbrev idle : Executor
idle = record { pending = []; state = watched }
