-- ===== src/Keeper/HotPath.antt =====
-- cmd/keeper/main.go: the loop that takes a price tick, detects what is due and queues it. Reading
-- the settings, opening the connections and starting the other loops are left out.
pub mod Queued
use lumen_liquid_backend.Base.{
  ℕ, zero, suc, ◌≡◌, ◌≢◌, refl, sym, subst, ◌∙◌, Bool, true, false, ◌⊎◌, inl, inr, Option, none,
  some, List, [], ◌∷◌, ◌++◌, if◌then◌else◌, length, In, arith, nat_beq, ltb, leb, text_eq,
  Option-cases, Bool-cases, text_beq_iff, ◌==◌, ==_refl, In-append, lt→ltb, ◌<◌,
}
use lumen_liquid_backend.Base.Int.{ℤ, pos, leb_ℤ}
use lumen_liquid_backend.Base.Text.{Text, codes}
use lumen_liquid_backend.Base.Assoc.{Map, lookup, insert, lookup-insert, lookup-insert_self}
use lumen_liquid_backend.Keeper.State.{TradeState}
use lumen_liquid_backend.Keeper.Detector.{PendingAction, detect}
use lumen_liquid_backend.Keeper.Detector.Sound.{IsDue}
use lumen_liquid_backend.Keeper.Detector.Complete.{detect_iff}
use lumen_liquid_backend.Keeper.Executor.{PendingItem, Executor, pend_key, enqueue_one, enqueue}
use lumen_liquid_backend.Keeper.Executor.Retries.{IsQueue, enqueue-IsQueue}
use lumen_liquid_backend.Keeper.Binance.{
  PriceTick, BinanceClient, AggTradeMsg, Json, capacity, push_tick, unwrapped, parse_price_to_scale,
  handle_message,
}

-- One tick of `binance.Prices()`.
unfoldable pub on_tick : PriceTick → Executor → Executor
on_tick tick e =
    let actions = detect tick.pair_index tick.price e.state in
    if nat_beq (length actions) 0 then e else record e { pending = enqueue actions e.pending }

-- The ticks that wait in the channel, in their order.
unfoldable pub on_ticks : List PriceTick → Executor → Executor
on_ticks [] e = e
on_ticks (tick ∷ ticks) e = on_ticks ticks (on_tick tick e)

-- The channel is emptied.
unfoldable pub drain : BinanceClient → Executor → BinanceClient × Executor
drain b e = (record b { out = [] }, on_ticks b.out e)
