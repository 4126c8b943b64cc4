-- ===== src/Keeper/Executor/Unnamed.antt =====
-- A send status that the switch of `tryExecute` does not name (internal/keeper/executor.go).
use lumen_liquid_backend.Base.{
  ℕ, ◌≡◌, refl, ap, ◌∙◌, true, false, some, List, [], ◌∷◌, All, text_eq, arith,
}
use lumen_liquid_backend.Base.Text.{Text}
use lumen_liquid_backend.Base.Assoc.{lookup}
use lumen_liquid_backend.Keeper.Detector.{PendingAction}
use lumen_liquid_backend.Keeper.Executor.{
  PendingItem, SimResult, Executor, Chain, sent, try_execute, is_success,
}
use lumen_liquid_backend.Keeper.Executor.Outcome.{is_known_status}
use lumen_liquid_backend.Keeper.Executor.Ends.{attempt, attempts}

-- All goes well for the action until the node answers the sent transaction with such a status.
pub record SendsUnnamed (a : PendingAction) (chain : Chain) : Type 0 where
  pub tx : Text
  pub sim : SimResult
  pub prepared_tx : Text
  pub status : Text
  pub builds : chain.build a ≡ some tx
  pub simulates : chain.simulate tx ≡ some sim
  pub succeeds : is_success sim ≡ true
  pub prepares : chain.prepare tx sim ≡ some prepared_tx
  pub answers : chain.send prepared_tx ≡ some status
  pub unnamed : is_known_status status ≡ false

sent-unnamed :
    (max : ℕ) (item : PendingItem) (status : Text) (e : Executor)
    → is_known_status status ≡ false
    → sent max item status e ≡ (false, e)
unfolding sent
sent-unnamed max item status e h = ground (arith, h)

try_execute-unnamed :
    (chain : Chain) (max : ℕ) (item : PendingItem) (e : Executor)
    → SendsUnnamed item.action chain
    → try_execute chain max item e ≡ (false, e)
unfolding try_execute
try_execute-unnamed chain max item e u =
    rw (try_execute, u.builds, u.simulates, u.succeeds, u.prepares, u.answers)
      (sent-unnamed max item u.status e u.unnamed)

attempt-unnamed :
    (max : ℕ) (chain : Chain) (k : Text) (item : PendingItem) (e : Executor)
    → lookup k e.pending ≡ some item
    → SendsUnnamed item.action chain
    → attempt max chain k e ≡ e
attempt-unnamed max chain k item e found u =
    rw (attempt, found) (ap (λ r. r.1) (try_execute-unnamed chain max item e u))

-- When the node answers every attempt on a queued item with a status that the code does not name,
-- then after any number of attempts, however small the retry limit, the executor is what it was: the
-- item is queued, with the retries it had, to be sent again.
pub attempts-unnamed :
    (max : ℕ) (cs : List Chain) (k : Text) (item : PendingItem) (e : Executor)
    → lookup k e.pending ≡ some item
    → All (SendsUnnamed item.action) cs
    → attempts max cs k e ≡ e
attempts-unnamed max [] k item e found u = refl
attempts-unnamed max (c ∷ cs) k item e found u =
    ap (attempts max cs k) (attempt-unnamed max c k item e found u.0)
    ∙ attempts-unnamed max cs k item e found u.1
