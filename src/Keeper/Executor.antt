-- ===== src/Keeper/Executor.antt =====
-- internal/keeper/executor.go: the queue of pending actions and its retries. The RPC node and the
-- transaction library answer through `Chain`; `EnqueueAt` is never read and is left out, and so is
-- logging. One call of a method is one step.
pub mod Keys
pub mod Retries
pub mod Outcome
pub mod Ends
pub mod Unnamed
pub mod Resolved
use lumen_liquid_backend.Base.{
  ℕ, suc, ◌+◌, Bool, true, false, ◌&&◌, ◌||◌, not, Option, none, some, List, [], ◌∷◌, ◌++◌,
  if◌then◌else◌, ◌==◌, text_eq, leb, length,
}
use lumen_liquid_backend.Base.Int.{ℤ, pos}
use lumen_liquid_backend.Base.Text.{Text, codes, print_ℤ, contains}
use lumen_liquid_backend.Base.Assoc.{Map, lookup, insert, erase}
use lumen_liquid_backend.Keeper.State.{
  TradeKey, LimitKey, TradeState, trade_key_eq, limit_key_eq, remove, remove_limit, values,
}
use lumen_liquid_backend.Keeper.Detector.{ActionType, liquidate, tp_sl, limit, PendingAction}

pub record PendingItem : Type 0 where
  pub action : PendingAction
  pub retries : ℕ

pub record SimResult : Type 0 where
  pub transaction_data : Text
  pub error : Text

-- What is outside of the executor: building, simulating, preparing and sending a transaction. An
-- RPC or build error is `none`; `send` answers with the status.
pub record Chain : Type 0 where
  pub build : PendingAction → Option Text
  pub simulate : Text → Option SimResult
  pub prepare : Text → SimResult → Option Text
  pub send : Text → Option Text

-- The queue, with the watched state that `tryExecute` also changes.
pub record Executor : Type 0 where
  pub pending : Map Text PendingItem
  pub state : TradeState

abbrev pub type_text : ActionType → Text
type_text liquidate = codes "liquidate"
type_text tp_sl = codes "tp_sl"
type_text limit = codes "limit"

abbrev pub action_index : ActionType → PendingAction → ℤ
action_index liquidate a = a.key.trade_index
action_index tp_sl a = a.key.trade_index
action_index limit a = a.limit_index

-- `fmt.Sprintf("%s|%s|%d|%d", …)`; 124 is the bar.
unfoldable pub pend_key : PendingAction → Text
pend_key a =
    type_text a.type
    ++ 124
      ∷ (a.key.trader ++ 124 ∷ (print_ℤ a.key.pair_index ++ 124 ∷ print_ℤ (action_index a.type a)))

-- One round of `Enqueue`: an action that is queued already stays as it is.
unfoldable pub enqueue_one : PendingAction → Map Text PendingItem → Map Text PendingItem
enqueue_one a m = elim (lookup (pend_key a) m) [
  | none ↦ insert (pend_key a) (record { action = a; retries = 0 }) m
  | some item ↦ m
]

unfoldable pub enqueue : List PendingAction → Map Text PendingItem → Map Text PendingItem
enqueue [] m = m
enqueue (a ∷ as') m = enqueue as' (enqueue_one a m)

-- `Executor.Remove`
unfoldable pub remove_pending : TradeKey → Map Text PendingItem → Map Text PendingItem
remove_pending k m =
    let probe : ActionType → PendingAction =
      λ type. record { type = type; key = k; is_long = false; limit_index = pos 0 } in
    erase (pend_key (probe liquidate)) (erase (pend_key (probe tp_sl)) m)

-- `dropItem`
unfoldable pub drop_item : PendingItem → Executor → Executor
drop_item item e = record e { pending = erase (pend_key item.action) e.pending }

-- `sim.IsSuccess()`
abbrev pub is_success : SimResult → Bool
is_success r = r.error == [] && not (r.transaction_data == [])

unfoldable pub is_trade_not_found : Text → Bool
is_trade_not_found s = contains s (codes "TradeNotFound") || contains s (codes "#17")

unfoldable pub is_price_mismatch : Text → Bool
is_price_mismatch s = contains s (codes "PriceMismatch") || contains s (codes "#21")

unfoldable pub is_limit_not_found : Text → Bool
is_limit_not_found s = contains s (codes "LimitNotFound") || contains s (codes "#28")

-- `item.Retries++` through the pointer that the queue holds; an item that was dropped is gone.
abbrev pub bumped : PendingItem → PendingItem
bumped item = record item { retries = item.retries + 1 }

unfoldable pub bump : PendingItem → Executor → Executor
bump item e = elim (lookup (pend_key item.action) e.pending) [
  | none ↦ e
  | some _ ↦ record e { pending = insert (pend_key item.action) (bumped item) e.pending }
]

-- Count one more retry, and drop the item at the limit.
unfoldable pub retry : ℕ → PendingItem → Executor → Executor
retry max_retries item e =
    if leb max_retries (item.retries + 1) then drop_item item e else bump item e

-- The entry that the detector would find again leaves the watched state.
unfoldable pub forget : ActionType → PendingAction → Executor → Executor
forget limit a e = record e {
  state =
      remove_limit
        (record {
          trader = a.key.trader;
          pair_index = a.key.pair_index;
          limit_index = a.limit_index;
        })
        e.state;
}
forget liquidate a e = record e { state = remove a.key e.state }
forget tp_sl a e = record e { state = remove a.key e.state }

-- A simulation that did not succeed.
unfoldable pub simulation_failed : ℕ → PendingItem → Text → Executor → Executor
simulation_failed max_retries item error e =
    if is_trade_not_found error || is_limit_not_found error
    then forget item.action.type item.action (drop_item item e)
    else if is_price_mismatch error
    then drop_item item e
    else retry max_retries item e

-- The switch on the status of a sent transaction; `true` is "sent".
unfoldable pub sent : ℕ → PendingItem → Text → Executor → Bool × Executor
sent max_retries item status e =
    if status == codes "PENDING" || status == codes "TRY_AGAIN_LATER"
    then (true, drop_item item e)
    else if status == codes "DUPLICATE"
    then (true, drop_item item e)
    else if status == codes "ERROR"
    then (false, retry max_retries item e)
    else (false, e)

module _ (chain : Chain) (max_retries : ℕ) where
  abbrev send_prepared : PendingItem → Option Text → Executor → Bool × Executor
  send_prepared item none e = (false, retry max_retries item e)
  send_prepared item (some status) e = sent max_retries item status e

  abbrev prepared : PendingItem → Option Text → Executor → Bool × Executor
  prepared item none e = (false, drop_item item e)
  prepared item (some tx) e = send_prepared item (chain.send tx) e

  abbrev simulated : PendingItem → Text → Option SimResult → Executor → Bool × Executor
  simulated item tx none e = (false, retry max_retries item e)
  simulated item tx (some sim) e =
      if is_success sim
      then prepared item (chain.prepare tx sim) e
      else (false, simulation_failed max_retries item sim.error e)

  abbrev built : PendingItem → Option Text → Executor → Bool × Executor
  built item none e = (false, drop_item item e)
  built item (some tx) e = simulated item tx (chain.simulate tx) e

  unfoldable pub try_execute : PendingItem → Executor → Bool × Executor
  try_execute item e = built item (chain.build item.action) e

  -- The loop of `processPending` over the items collected: it ends at the first one sent.
  unfoldable pub process_items : List PendingItem → Executor → Bool × Executor
  process_items [] e = (false, e)
  process_items (item ∷ items) e =
      let (done, e') = try_execute item e in
      let rest = process_items items e' in if done then (true, e') else rest

  unfoldable pub process_pending : Executor → Bool × Executor
  process_pending e = process_items (values e.pending) e

unfoldable pub pending_count : Executor → ℕ
pending_count e = length e.pending
