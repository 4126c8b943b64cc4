-- ===== src/Tests.antt =====
-- Shared data of the tests: one event of each kind, a watched state, a node's answers.
pub mod Keeper
pub mod Binance
pub mod Api
pub mod Network
pub mod Gateway
pub mod Store
use lumen_liquid_backend.Base.{ℕ, Bool, true, false, Option, none, some, List, [], ◌∷◌}
use lumen_liquid_backend.Base.Int.{ℤ, pos}
use lumen_liquid_backend.Base.Text.{Text, codes}
use lumen_liquid_backend.Events.{Event, Trade, Source, pm, empty_event}
use lumen_liquid_backend.Keeper.State.{TradeKey, TradeEntry, TradeState, apply_all, new_trade_state}

abbrev pub alice : Text
alice = codes "GALICE"

abbrev pub a_trade : Trade
a_trade = record {
  pair_index = 1;
  is_long = true;
  leverage = 10;
  open_price = some (pos 50_000);
  collateral = some (pos 1000);
  acc_rollover_open = some (pos 0);
  acc_funding_open = some (pos 0);
  tp_price = some (pos 60_000);
  sl_price = some (pos 48_000);
}

abbrev pub opened_event : Event
opened_event = record empty_event {
  source = pm;
  topic = codes "opened";
  tx_hash = codes "tx1";
  occurred_at = codes "t1";
  trader = alice;
  pair_index = some (pos 1);
  trade_index = some (pos 0);
  trade = some a_trade;
}

abbrev pub a_key : TradeKey
a_key = record { trader = alice; pair_index = pos 1; trade_index = pos 0 }

abbrev pub watched : TradeState
watched = apply_all (opened_event ∷ []) new_trade_state
