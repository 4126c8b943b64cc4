-- ===== src/Keeper/Executor/Retries.antt =====
-- The form of the queue of internal/keeper/executor.go: one item to a key, below the retry limit.
use lumen_liquid_backend.Base.{
  ℕ, ◌+◌, ◌<◌, ◌≡◌, refl, sym, subst, inl, inr, List, [], ◌∷◌, arith, Bool-cases, Option-cases, leb,
  text_eq,
}
use lumen_liquid_backend.Base.Text.{Text}
use lumen_liquid_backend.Base.Assoc.{
  Map, lookup, insert, erase, Distinct, Each, insert-Distinct, erase-Distinct, insert-Each,
  erase-Each,
}
use lumen_liquid_backend.Keeper.Detector.{PendingAction}
use lumen_liquid_backend.Keeper.State.{values}
use lumen_liquid_backend.Keeper.Executor.Outcome.{
  Outcome, dropped, forgotten, retried, ignored, try_execute-Outcome, forget-pending,
}
use lumen_liquid_backend.Keeper.Executor.{
  PendingItem, Executor, Chain, pend_key, enqueue_one, enqueue, drop_item, bump, bumped, retry,
  try_execute, process_items, process_pending,
}

-- An item stands under the key of its action and has retries left.
abbrev Fits : ℕ → Text → PendingItem → Type 0
Fits max k item = (pend_key item.action ≡ k) × (item.retries < max)

pub record IsQueue (max : ℕ) (m : Map Text PendingItem) : Type 0 where
  pub distinct : Distinct m
  pub fits : Each (Fits max) m

module _ (max : ℕ) where
  insert-IsQueue :
      (item : PendingItem) (m : Map Text PendingItem)
      → item.retries < max
      → IsQueue max m
      → IsQueue max (insert (pend_key item.action) item m)
  insert-IsQueue item m h q = record {
    distinct = insert-Distinct (pend_key item.action) item m q.distinct;
    fits = insert-Each (Fits max) (pend_key item.action) item m (refl, h) q.fits;
  }

  erase-IsQueue : (k : Text) (m : Map Text PendingItem) → IsQueue max m → IsQueue max (erase k m)
  erase-IsQueue k m q = record {
    distinct = erase-Distinct k m q.distinct;
    fits = erase-Each (Fits max) k m q.fits;
  }

  enqueue_one-IsQueue :
      (a : PendingAction) (m : Map Text PendingItem)
      → 0 < max
      → IsQueue max m
      → IsQueue max (enqueue_one a m)
  enqueue_one-IsQueue a m h q = elim (Option-cases (lookup (pend_key a) m)) [
    | inl free ↦
        unfold enqueue_one in
        rw (free, enqueue_one) (insert-IsQueue (record { action = a; retries = 0 }) m h q)
    | inr (item, taken) ↦ unfold enqueue_one in rw (taken, enqueue_one) q
  ]

  -- Queueing detected actions keeps the queue well-formed, however often they are detected.
  pub enqueue-IsQueue :
      (as' : List PendingAction) (m : Map Text PendingItem)
      → 0 < max
      → IsQueue max m
      → IsQueue max (enqueue as' m)
  unfolding enqueue
  enqueue-IsQueue [] m h q = q
  enqueue-IsQueue (a ∷ as') m h q =
      enqueue-IsQueue as' (enqueue_one a m) h (enqueue_one-IsQueue a m h q)

  bump-IsQueue :
      (item : PendingItem) (e : Executor)
      → item.retries + 1 < max
      → IsQueue max e.pending
      → IsQueue max (bump item e).pending
  unfolding bump
  bump-IsQueue item e h q = elim (Option-cases (lookup (pend_key item.action) e.pending)) [
    | inl missing ↦ rw (missing, bump) q
    | inr (other, found) ↦ rw (found, bump) (insert-IsQueue (bumped item) e.pending h q)
  ]

  drop_item-IsQueue :
      (item : PendingItem) (e : Executor)
      → IsQueue max e.pending
      → IsQueue max (drop_item item e).pending
  unfolding drop_item
  drop_item-IsQueue item e q = erase-IsQueue (pend_key item.action) e.pending q

  retry-IsQueue :
      (item : PendingItem) (e : Executor)
      → IsQueue max e.pending
      → IsQueue max (retry max item e).pending
  unfolding retry
  retry-IsQueue item e q = elim (Bool-cases (leb max (item.retries + 1))) [
    | inl full ↦ rw full (drop_item-IsQueue item e q)
    | inr free ↦ rw free (bump-IsQueue item e (ground arith) q)
  ]

  module _ (chain : Chain) where
    pub Outcome-IsQueue :
        (item : PendingItem) (e x : Executor)
        → Outcome chain max item e x
        → IsQueue max e.pending
        → IsQueue max x.pending
    Outcome-IsQueue item e x (dropped eq) q =
        subst (λ y. IsQueue max y.pending) (sym eq) (drop_item-IsQueue item e q)
    Outcome-IsQueue item e x (forgotten eq) q =
        subst (λ y. IsQueue max y.pending) (sym eq)
          (subst (IsQueue max)
            (sym (forget-pending item.action.type item.action (drop_item item e)))
            (drop_item-IsQueue item e q))
    Outcome-IsQueue item e x (retried eq) q =
        subst (λ y. IsQueue max y.pending) (sym eq) (retry-IsQueue item e q)
    Outcome-IsQueue item e x (ignored tx status s unknown eq) q =
        subst (λ y. IsQueue max y.pending) (sym eq) q

    process_items-IsQueue :
        (items : List PendingItem) (e : Executor)
        → IsQueue max e.pending
        → IsQueue max (process_items chain max items e).1.pending
    unfolding process_items
    process_items-IsQueue [] e q = q
    process_items-IsQueue (item ∷ items) e q =
        let r = try_execute chain max item e in
        let kept : IsQueue max r.1.pending =
          Outcome-IsQueue item e r.1 (try_execute-Outcome chain max item e) q in
        elim (Bool-cases r.0) [
          | inl done ↦ rw done kept
          | inr more ↦ rw more (process_items-IsQueue items r.1 kept)
        ]

-- A tick keeps the queue well-formed, whatever the chain answers: one item to a key, each under the
-- key of its action and with fewer retries than the limit.
pub process_pending-IsQueue :
    (chain : Chain) (max : ℕ) (e : Executor)
    → IsQueue max e.pending
    → IsQueue max (process_pending chain max e).1.pending
unfolding process_pending
process_pending-IsQueue chain max e q = process_items-IsQueue max chain (values e.pending) e q
