-- ===== src/Keeper/HotPath/Queued.antt =====
-- What is due at the price of a message ends up in the executor's queue (cmd/keeper/main.go).
use lumen_liquid_backend.Base.{◌≡◌, some, text_eq}
use lumen_liquid_backend.Base.Int.{ℤ}
use lumen_liquid_backend.Base.Text.{Text, codes}
use lumen_liquid_backend.Base.Assoc.{Map, lookup}
use lumen_liquid_backend.Keeper.Detector.{PendingAction}
use lumen_liquid_backend.Keeper.Executor.{PendingItem, Executor, pend_key}
use lumen_liquid_backend.Keeper.Binance.{
  BinanceClient, AggTradeMsg, Json, unwrapped, parse_price_to_scale,
}

-- An item of the queue stays, with its retries.
abbrev pub IsKept : Map Text PendingItem → Map Text PendingItem → Type 0
IsKept m n = (k : Text) (item : PendingItem) → lookup k m ≡ some item → lookup k n ≡ some item

abbrev pub Queued : PendingAction → Map Text PendingItem → Type 0
Queued a m = (item : PendingItem) × (lookup (pend_key a) m ≡ some item)

module _ (json : Json) (message : Text) (msg : AggTradeMsg) where
  -- A message that carries a trade of a mapped symbol at a price text that is read.
  pub record IsTradeAt (b : BinanceClient) (pair price : ℤ) : Type 0 where
    pub message_decoded :
        json.agg_trade_msg (unwrapped message (json.stream_wrapper message)) ≡ some msg
    pub kind : msg.event ≡ codes "aggTrade"
    pub mapped : lookup msg.symbol b.symbol_to_pair ≡ some pair
    pub read : parse_price_to_scale msg.price ≡ some price
