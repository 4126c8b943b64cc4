-- ===== src/Keeper/Executor/Ends.antt =====
-- The end of an item in the queue of internal/keeper/executor.go, for a node that keeps to the
-- statuses that the code names.
use lumen_liquid_backend.Base.{
  ℕ, suc, ◌+◌, ◌≤◌, ◌≡◌, sym, subst, ◌⊎◌, inl, inr, true, some, none, List, [], ◌∷◌, arith,
  Bool-cases, Option-cases, leb, length, text_eq, All,
}
use lumen_liquid_backend.Base.Text.{Text}
use lumen_liquid_backend.Base.Assoc.{
  Map, lookup, erase, insert, lookup-Each, lookup-erase_self, lookup-insert_self,
}
use lumen_liquid_backend.Keeper.Executor.{
  PendingItem, Executor, Chain, pend_key, drop_item, bump, bumped, retry, try_execute,
}
use lumen_liquid_backend.Keeper.Executor.Outcome.{
  Outcome, dropped, forgotten, retried, ignored, try_execute-Outcome, forget-pending,
  is_known_status,
}
use lumen_liquid_backend.Keeper.Executor.Retries.{IsQueue, Outcome-IsQueue}

module _ (max : ℕ) where
  -- One attempt on what stands under a key, if anything does.
  abbrev pub attempt : Chain → Text → Executor → Executor
  attempt chain k e = elim (lookup k e.pending) [
    | none ↦ e
    | some item ↦ (try_execute chain max item e).1
  ]

  -- The node may answer differently each time.
  abbrev pub attempts : List Chain → Text → Executor → Executor
  attempts [] k e = e
  attempts (c ∷ cs) k e = attempts cs k (attempt c k e)

-- A node that answers with the statuses of the switch only.
abbrev pub KnowsStatuses : Chain → Type 0
KnowsStatuses chain =
    (tx status : Text) → chain.send tx ≡ some status → is_known_status status ≡ true

-- At most `n` attempts are left for what stands under the key.
abbrev Left : ℕ → ℕ → Text → Map Text PendingItem → Type 0
Left max n k m =
    (lookup k m ≡ none)
    ⊎ ((item : PendingItem) × (lookup k m ≡ some item) × (max ≤ item.retries + n))

module _ (max n : ℕ) (k : Text) (e : Executor) where
  drop_item-Left :
      (item : PendingItem) → pend_key item.action ≡ k → Left max n k (drop_item item e).pending
  unfolding drop_item
  drop_item-Left item key =
      inl
        (subst (λ j. lookup k (erase j e.pending) ≡ none) (sym key) (lookup-erase_self k e.pending))

  retry-Left :
      (item : PendingItem)
      → pend_key item.action ≡ k
      → lookup k e.pending ≡ some item
      → max ≤ item.retries + suc n
      → Left max n k (retry max item e).pending
  retry-Left item key found h = elim (Bool-cases (leb max (item.retries + 1))) [
    | inl full ↦ unfold retry in rw full (drop_item-Left item key)
    | inr free ↦
        unfold retry bump in
        rw (free, key, found, bump)
          (inr (
            bumped item,
            subst (λ j. lookup k (insert j (bumped item) e.pending) ≡ some (bumped item)) (sym key)
                (lookup-insert_self k (bumped item) e.pending),
            omega arith,
          ))
  ]

  Outcome-Left :
      (chain : Chain) (item : PendingItem) (x : Executor)
      → KnowsStatuses chain
      → pend_key item.action ≡ k
      → lookup k e.pending ≡ some item
      → max ≤ item.retries + suc n
      → Outcome chain max item e x
      → Left max n k x.pending
  Outcome-Left chain item x known key found h (dropped eq) =
      subst (λ y. Left max n k y.pending) (sym eq) (drop_item-Left item key)
  Outcome-Left chain item x known key found h (forgotten eq) =
      subst (λ y. Left max n k y.pending) (sym eq)
        (subst (Left max n k) (sym (forget-pending item.action.type item.action (drop_item item e)))
          (drop_item-Left item key))
  Outcome-Left chain item x known key found h (retried eq) =
      subst (λ y. Left max n k y.pending) (sym eq) (retry-Left item key found h)
  Outcome-Left chain item x known key found h (ignored tx status s unknown eq) =
      cc (known tx status s, unknown)

  attempt-Left :
      (chain : Chain)
      → KnowsStatuses chain
      → IsQueue max e.pending
      → Left max (suc n) k e.pending
      → Left max n k (attempt max chain k e).pending
  attempt-Left chain known q (inl missing) = rw (missing, attempt) (inl missing)
  attempt-Left chain known q (inr (item, found, h)) =
      rw (found, attempt)
        (Outcome-Left chain item (try_execute chain max item e).1 known
          (lookup-Each _ k item e.pending q.fits found).0 found h
          (try_execute-Outcome chain max item e))

attempt-IsQueue :
    (max : ℕ) (chain : Chain) (k : Text) (e : Executor)
    → IsQueue max e.pending
    → IsQueue max (attempt max chain k e).pending
attempt-IsQueue max chain k e q = elim (Option-cases (lookup k e.pending)) [
  | inl missing ↦ rw (missing, attempt) q
  | inr (item, found) ↦
      rw (found, attempt)
        (Outcome-IsQueue max chain item e _ (try_execute-Outcome chain max item e) q)
]

attempts-Left :
    (max : ℕ) (cs : List Chain) (k : Text) (e : Executor)
    → All KnowsStatuses cs
    → IsQueue max e.pending
    → Left max (length cs) k e.pending
    → lookup k (attempts max cs k e).pending ≡ none
attempts-Left max [] k e known q (inl missing) = missing
attempts-Left max [] k e known q (inr (item, found, h)) =
    absurd (omega (arith, (lookup-Each _ k item e.pending q.fits found).1))
attempts-Left max (c ∷ cs) k e known q left =
    attempts-Left max cs k (attempt max c k e) known.1 (attempt-IsQueue max c k e q)
      (attempt-Left max (length cs) k e c known.0 q left)

-- Whatever a node that keeps to the named statuses answers each time, after as many attempts as the
-- retry limit allows nothing stands in the queue under the key.
pub attempts_end :
    (max : ℕ) (cs : List Chain) (k : Text) (e : Executor)
    → All KnowsStatuses cs
    → IsQueue max e.pending
    → max ≤ length cs
    → lookup k (attempts max cs k e).pending ≡ none
attempts_end max cs k e known q h =
    attempts-Left max cs k e known q (elim (Option-cases (lookup k e.pending)) [
      | inl missing ↦ inl missing
      | inr (item, found) ↦ inr (item, found, omega arith)
    ])
