-- ===== src/Keeper/Executor/Outcome.antt =====
-- The ways in which an attempt to execute an item (internal/keeper/executor.go, tryExecute) can change
-- the executor, for the lemmas on the queue.
use lumen_liquid_backend.Base.{
  ℕ, ◌≡◌, refl, inl, inr, Bool, false, ◌||◌, Option, some, none, arith, Bool-cases, Option-cases,
  ◌==◌, text_eq,
}
use lumen_liquid_backend.Base.Text.{Text, codes}
use lumen_liquid_backend.Keeper.Detector.{ActionType, liquidate, tp_sl, limit, PendingAction}
use lumen_liquid_backend.Keeper.Executor.{
  PendingItem, Executor, Chain, SimResult, drop_item, retry, forget, simulation_failed, sent,
  try_execute, is_success, is_trade_not_found, is_limit_not_found, is_price_mismatch, prepared,
  simulated, built,
}

-- The statuses that the switch of `tryExecute` names.
abbrev pub is_known_status : Text → Bool
is_known_status s =
    s == codes "PENDING"
    || s == codes "TRY_AGAIN_LATER"
    || (s == codes "DUPLICATE" || s == codes "ERROR")

pub data Outcome (chain : Chain) (max : ℕ) (item : PendingItem) (e x : Executor) : Type 0 where
  dropped : x ≡ drop_item item e → Outcome chain max item e x
  forgotten :
      x ≡ forget item.action.type item.action (drop_item item e) → Outcome chain max item e x
  retried : x ≡ retry max item e → Outcome chain max item e x
  ignored :
      (tx status : Text)
      → chain.send tx ≡ some status
      → is_known_status status ≡ false
      → x ≡ e
      → Outcome chain max item e x

pub forget-pending :
    (t : ActionType) (a : PendingAction) (x : Executor) → (forget t a x).pending ≡ x.pending
unfolding forget
forget-pending liquidate a x = refl
forget-pending tp_sl a x = refl
forget-pending limit a x = refl

module _ (chain : Chain) (max : ℕ) (item : PendingItem) (e : Executor) where
  simulation_failed-Outcome :
      (error : Text) → Outcome chain max item e (simulation_failed max item error e)
  unfolding simulation_failed
  simulation_failed-Outcome error =
      elim (Bool-cases (is_trade_not_found error || is_limit_not_found error)) [
        | inl gone ↦ rw gone (forgotten refl)
        | inr there ↦ elim (Bool-cases (is_price_mismatch error)) [
          | inl mismatch ↦ rw (there, mismatch) (dropped refl)
          | inr other ↦ rw (there, other) (retried refl)
        ]
      ]

  sent-Outcome :
      (tx status : Text)
      → chain.send tx ≡ some status
      → Outcome chain max item e (sent max item status e).1
  unfolding sent
  sent-Outcome tx status s =
      elim (Bool-cases (status == codes "PENDING" || status == codes "TRY_AGAIN_LATER")) [
        | inl pending ↦ rw pending (dropped refl)
        | inr not_pending ↦ elim (Bool-cases (status == codes "DUPLICATE")) [
          | inl duplicate ↦ rw (not_pending, duplicate) (dropped refl)
          | inr not_duplicate ↦ elim (Bool-cases (status == codes "ERROR")) [
            | inl failed ↦ rw (not_pending, not_duplicate, failed) (retried refl)
            | inr unknown ↦
                rw (not_pending, not_duplicate, unknown) (ignored tx status s (ground arith) refl)
          ]
        ]
      ]

  prepared-Outcome : (p : Option Text) → Outcome chain max item e (prepared chain max item p e).1
  prepared-Outcome none = dropped refl
  prepared-Outcome (some tx) = elim (Option-cases (chain.send tx)) [
    | inl error ↦ rw error (retried refl)
    | inr (status, s) ↦ rw s (sent-Outcome tx status s)
  ]

  simulated-Outcome :
      (tx : Text) (sim : Option SimResult)
      → Outcome chain max item e (simulated chain max item tx sim e).1
  simulated-Outcome tx none = retried refl
  simulated-Outcome tx (some sim) = elim (Bool-cases (is_success sim)) [
    | inl success ↦ rw success (prepared-Outcome (chain.prepare tx sim))
    | inr failure ↦ rw failure (simulation_failed-Outcome sim.error)
  ]

  built-Outcome : (b : Option Text) → Outcome chain max item e (built chain max item b e).1
  built-Outcome none = dropped refl
  built-Outcome (some tx) = simulated-Outcome tx (chain.simulate tx)

  -- An attempt drops the item, drops it and forgets its entry, or counts a retry; it leaves all as
  -- it was only when the node answers with a status that the code does not name.
  pub try_execute-Outcome : Outcome chain max item e (try_execute chain max item e).1
  unfolding try_execute
  try_execute-Outcome = built-Outcome (chain.build item.action)
