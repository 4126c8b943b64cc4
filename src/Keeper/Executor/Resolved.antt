-- ===== src/Keeper/Executor/Resolved.antt =====
-- A trade that the chain no longer knows leaves the queue and the watched state, so that no price
-- sets it off again.
use lumen_liquid_backend.Base.{
  ℕ, ◌≡◌, ◌≢◌, refl, sym, ap, subst, ◌∙◌, inl, inr, Bool, true, false, some, none, [], ◌∷◌, arith,
  In, text_eq,
}
use lumen_liquid_backend.Base.Int.{ℤ}
use lumen_liquid_backend.Base.Text.{Text}
use lumen_liquid_backend.Base.Assoc.{Map, lookup, erase, Each, lookup-erase_self}
use lumen_liquid_backend.Keeper.State.{
  TradeKey, TradeEntry, TradeState, trade_key_eq, trade_key_beq_iff, remove, values,
}
use lumen_liquid_backend.Keeper.State.Invariant.{IsKeyed, remove-IsKeyed, KeysTrade}
use lumen_liquid_backend.Keeper.Detector.{
  ActionType, liquidate, tp_sl, limit, PendingAction, detect,
}
use lumen_liquid_backend.Keeper.Detector.Sound.{IsDue, due_liquidation, due_tp_sl, due_limit}
use lumen_liquid_backend.Keeper.Detector.Complete.{detect_iff}
use lumen_liquid_backend.Keeper.Executor.{
  PendingItem, Executor, Chain, SimResult, pend_key, drop_item, forget, simulation_failed,
  try_execute, is_success, is_trade_not_found,
}

-- In a map whose entries carry their keys, an entry is found under its key.
values_found :
    (m : Map TradeKey TradeEntry) (t : TradeEntry)
    → Each KeysTrade m
    → In t (values m)
    → lookup t.key m ≢ none
unfolding lookup
values_found [] t h i = elim i [ ]
values_found ((k, u) ∷ m) t h (inl e) =
    ground (arith, trade_key_beq_iff k t.key, h.0, ap (λ (v : TradeEntry). v.key) e)
values_found ((k, u) ∷ m) t h (inr i) = ground (arith, values_found m t h.1 i)

module _ (k : TradeKey) (s : TradeState) (keyed : IsKeyed s) where
  gone : (t : TradeEntry) → In t (values (remove k s).trades) → t.key ≢ k
  unfolding remove
  gone t i e =
      values_found (erase k s.trades) t (remove-IsKeyed k s keyed).trades_keyed i
        (subst (λ j. lookup j (erase k s.trades) ≡ none) (sym e) (lookup-erase_self k s.trades))

  -- A removed trade is never due.
  pub removed_never_detected :
      (pair price : ℤ) (a : PendingAction)
      → In a (detect pair price (remove k s))
      → a.type ≢ limit
      → a.key ≢ k
  removed_never_detected pair price a i h = never ((detect_iff pair price (remove k s) a).0.0 i)
    where
      never : IsDue pair price (remove k s) a → a.key ≢ k
      never (due_liquidation t i key hit e) =
          subst (λ (b : PendingAction). b.key ≢ k) (sym e) (gone t i)
      never (due_tp_sl t i key safe hit e) =
          subst (λ (b : PendingAction). b.key ≢ k) (sym e) (gone t i)
      never (due_limit l i key hit e) = absurd (h (ap (λ (b : PendingAction). b.type) e))

forget-trade :
    (t : ActionType) (a : PendingAction) (e : Executor)
    → t ≢ limit
    → forget t a e ≡ record e { state = remove a.key e.state }
unfolding forget
forget-trade liquidate a e h = refl
forget-trade tp_sl a e h = refl
forget-trade limit a e h = absurd (h refl)

drop_item-state : (item : PendingItem) (e : Executor) → (drop_item item e).state ≡ e.state
unfolding drop_item
drop_item-state item e = refl

drop_item-lookup :
    (item : PendingItem) (e : Executor)
    → lookup (pend_key item.action) (drop_item item e).pending ≡ none
unfolding drop_item
drop_item-lookup item e = lookup-erase_self (pend_key item.action) e.pending

remove-lookup : (k : TradeKey) (s : TradeState) → lookup k (remove k s).trades ≡ none
unfolding remove
remove-lookup k s = lookup-erase_self k s.trades

module _ (chain : Chain) (max : ℕ) (item : PendingItem) (e : Executor) (tx : Text) (sim : SimResult)
    (trade : item.action.type ≢ limit) (b : chain.build item.action ≡ some tx)
    (s : chain.simulate tx ≡ some sim) (failed : is_success sim ≡ false)
    (missing : is_trade_not_found sim.error ≡ true) where
  not_found_result :
      try_execute chain max item e
      ≡ (false, record (drop_item item e) { state = remove item.action.key e.state })
  unfolding try_execute simulation_failed
  not_found_result =
      rw (b, s, failed, missing)
        (ap {B = Bool × Executor} (λ x. (false, x))
          (forget-trade item.action.type item.action (drop_item item e) trade
            ∙ ap (λ t. record (drop_item item e) { state = remove item.action.key t })
                (drop_item-state item e)))

-- When the simulation of a liquidation or of a take profit or stop loss reports that the trade is
-- not found, the item leaves the queue, the trade leaves the watched state, nothing is sent, and at
-- no price does the detector return an action on that trade, as long as no event adds it again.
pub not_found_resolves :
    (chain : Chain) (max : ℕ) (item : PendingItem) (e : Executor) (tx : Text) (sim : SimResult)
    → IsKeyed e.state
    → item.action.type ≢ limit
    → chain.build item.action ≡ some tx
    → chain.simulate tx ≡ some sim
    → is_success sim ≡ false
    → is_trade_not_found sim.error ≡ true
    → let r = try_execute chain max item e in
      (r.0 ≡ false)
      × (lookup (pend_key item.action) r.1.pending ≡ none)
      × (lookup item.action.key r.1.state.trades ≡ none)
      × ((pair price : ℤ) (a : PendingAction)
          → In a (detect pair price r.1.state)
          → a.type ≢ limit
          → a.key ≢ item.action.key)
not_found_resolves chain max item e tx sim keyed trade b s failed missing =
    rw (not_found_result chain max item e tx sim trade b s failed missing) (
      refl,
      drop_item-lookup item e,
      remove-lookup item.action.key e.state,
      removed_never_detected item.action.key e.state keyed,
    )
