-- ===== src/Tests/Keeper.antt =====
-- Tests of the keeper: each theorem at a concrete state, event or transaction.
use Prim.Native.Nat.{ℕ, ◌+◌, ◌*◌, ◌-◌, ◌≤◌}
use lumen_liquid_backend.Base.{
  ◌≡◌, ◌≢◌, ◌↔◌, refl, true, false, Option, none, some, [], ◌∷◌, arith, In, if◌then◌else◌, text_eq,
  text_beq, subst,
}
use lumen_liquid_backend.Base.Int.{ℤ, pos, ◌≤ℤ◌, ◌+ℤ◌, ◌-ℤ◌, ◌*ℤ◌, quo}
use lumen_liquid_backend.Base.Text.{print_ℤ, Text, codes, contains}
use lumen_liquid_backend.Base.Assoc.{lookup}
use lumen_liquid_backend.Events.{pm_topic}
use lumen_liquid_backend.Keeper.Math.{
  ok, liquidation_price, is_liquidatable, pending_acc_funding, liq_numer, liq_distance,
}
use lumen_liquid_backend.Keeper.Math.Price.{
  is_liquidatable-stays, liquidation_price_fee_free, underwater_short_ignored,
}
use lumen_liquid_backend.Keeper.Math.Funding.{IsShare, majority_pays}
use lumen_liquid_backend.Keeper.State.{
  TradeEntry, PairFeeState, trade_key_eq, apply, new_trade_state,
}
use lumen_liquid_backend.Keeper.State.Invariant.{IsKeyed, apply_all-new-IsKeyed}
use lumen_liquid_backend.Keeper.State.Replay.{apply-apply}
use lumen_liquid_backend.Keeper.State.Watch.{watch, lookup-apply}
use lumen_liquid_backend.Keeper.Detector.{
  PendingAction, liquidate, limit, detect, current_liquidation_price,
}
use lumen_liquid_backend.Keeper.Detector.Sound.{IsDue}
use lumen_liquid_backend.Keeper.Detector.Complete.{FillsLast, detect_iff}
use lumen_liquid_backend.Keeper.Detector.Fees.{current_liquidation_price_mono}
use lumen_liquid_backend.Keeper.Executor.{
  PendingItem, SimResult, Chain, Executor, pend_key, try_execute, process_pending,
  is_trade_not_found,
}
use lumen_liquid_backend.Keeper.Executor.Keys.{pend_key-injective}
use lumen_liquid_backend.Keeper.Executor.Retries.{IsQueue, process_pending-IsQueue}
use lumen_liquid_backend.Keeper.Executor.Outcome.{is_known_status}
use lumen_liquid_backend.Keeper.Executor.Unnamed.{SendsUnnamed, attempts-unnamed}
use lumen_liquid_backend.Keeper.Executor.Ends.{attempts, attempts_end, KnowsStatuses}
use lumen_liquid_backend.Keeper.Executor.Resolved.{not_found_resolves}
use lumen_liquid_backend.Tests.{alice, opened_event, a_key, watched}

abbrev pub an_action : PendingAction
an_action = record { type = liquidate; key = a_key; is_long = true; limit_index = pos 0 }

abbrev pub an_item : PendingItem
an_item = record { action = an_action; retries = 0 }

abbrev pub an_executor : Executor
an_executor = record { pending = (pend_key an_action, an_item) ∷ []; state = watched }

-- A node that reports an expired transaction each time.
abbrev failing : Chain
failing = record {
  build = λ a. some (codes "tx");
  simulate = λ tx. some (record { transaction_data = codes "data"; error = [] });
  prepare = λ tx sim. some tx;
  send = λ tx. some (codes "ERROR");
}

abbrev missing_sim : SimResult
missing_sim = record { transaction_data = []; error = codes "TradeNotFound" }

-- A node that does not know the trade.
abbrev forgetful : Chain
forgetful = record failing { simulate = λ tx. some missing_sim }

an_executor-IsQueue : IsQueue 3 an_executor.pending
unfolding lookup
an_executor-IsQueue = record { distinct = (refl, tt); fits = ((refl, omega arith), tt) }

abbrev IsKnownAnswer : Option Text → Type 0
IsKnownAnswer none = Unit
IsKnownAnswer (some status) = is_known_status status ≡ true

error_known : is_known_status (codes "ERROR") ≡ true
unfolding text_beq
error_known = refl

failing-KnowsStatuses : KnowsStatuses failing
failing-KnowsStatuses tx status h = subst IsKnownAnswer h error_known

detect_iff_example :
    (In an_action (detect (pos 1) (pos 45_000) watched)
      ↔ IsDue (pos 1) (pos 45_000) watched an_action)
    × FillsLast (detect (pos 1) (pos 45_000) watched)
detect_iff_example = detect_iff (pos 1) (pos 45_000) watched an_action

attempts_end_example :
    lookup
      (pend_key an_action)
      (attempts 3 (failing ∷ failing ∷ failing ∷ []) (pend_key an_action) an_executor).pending
    ≡ none
attempts_end_example =
    attempts_end 3 (failing ∷ failing ∷ failing ∷ []) (pend_key an_action) an_executor
      (failing-KnowsStatuses, (failing-KnowsStatuses, (failing-KnowsStatuses, tt)))
      an_executor-IsQueue (omega arith)

lookup-apply_example :
    lookup a_key (apply opened_event new_trade_state).trades
    ≡ watch (pm_topic (codes "opened")) opened_event a_key none
unfolding lookup
lookup-apply_example = lookup-apply opened_event a_key new_trade_state

not_found_resolves_example :
    let r = try_execute forgetful 3 an_item an_executor in
    (r.0 ≡ false)
    × (lookup (pend_key an_action) r.1.pending ≡ none)
    × (lookup a_key r.1.state.trades ≡ none)
    × ((pair price : ℤ) (a : PendingAction)
        → In a (detect pair price r.1.state)
        → a.type ≢ limit
        → a.key ≢ a_key)
unfolding is_trade_not_found text_beq contains
not_found_resolves_example =
    not_found_resolves forgetful 3 an_item an_executor (codes "tx") missing_sim
      (apply_all-new-IsKeyed (opened_event ∷ [])) (λ h. (cc h)) refl refl refl refl

apply-apply_example : apply opened_event (apply opened_event watched) ≡ apply opened_event watched
apply-apply_example = apply-apply opened_event watched

apply_all-new-IsKeyed_example : IsKeyed watched
apply_all-new-IsKeyed_example = apply_all-new-IsKeyed (opened_event ∷ [])

pend_key-injective_example :
    (liquidate ≡ liquidate) × (alice ≡ alice) × (pos 1 ≡ pos 1) × (pos 0 ≡ pos 0)
unfolding pend_key
pend_key-injective_example =
    pend_key-injective an_action (record an_action { is_long = false }) refl

process_pending-IsQueue_example : IsQueue 3 (process_pending failing 3 an_executor).1.pending
process_pending-IsQueue_example = process_pending-IsQueue failing 3 an_executor an_executor-IsQueue

is_liquidatable-stays_example : is_liquidatable (some (pos 45_000)) (some (pos 46_000)) true ≡ true
unfolding liquidation_price is_liquidatable ◌-ℤ◌ liq_distance quo ◌*ℤ◌ liq_numer
is_liquidatable-stays_example =
    is_liquidatable-stays 50_000 1000 10 (pos 0) (pos 100) (pos 0) (pos 0) 90 (pos 45_500)
      (pos 46_000) (pos 45_500) (pos 45_000) true (omega arith) (omega arith) (omega arith) refl
      refl (omega arith) (omega arith) refl

liquidation_price_fee_free_example :
    (d : ℕ) × (liquidation_price (some (pos 50_000)) true (some (pos 1000)) 10 none none 90
      ≡ ok (pos (50_000 - d)))
    × (liquidation_price (some (pos 50_000)) false (some (pos 1000)) 10 none none 90
        ≡ ok (pos (50_000 + d)))
    × (d ≤ 50_000)
    × (d * 10 * 100 ≤ 50_000 * 90)
liquidation_price_fee_free_example =
    liquidation_price_fee_free 50_000 1000 10 90 (omega arith) (omega arith) (omega arith)

underwater_short_ignored_example :
    (liquidation_price
        (some (pos 50_000))
        false
        (some (pos 1000))
        10
        (some (pos 20_000))
        (some (pos 0))
        90
      ≡ ok (pos 0))
    × (is_liquidatable (some (pos 90_000)) (some (pos 0)) false ≡ false)
unfolding liq_numer ◌-ℤ◌ quo ◌*ℤ◌
underwater_short_ignored_example =
    underwater_short_ignored 50_000 1000 10 (pos 20_000) (pos 0) 90 (some (pos 90_000))
      (omega arith) (omega arith) (omega arith)

majority_pays_example :
    (x y paid : ℕ) × (pending_acc_funding
        (some (pos 5))
        (some (pos 5))
        (some (pos 300))
        (some (pos 100))
        10
        (some (pos 1_000_000_000))
      ≡ ok (pos 5 +ℤ pos x, pos 5 -ℤ pos y))
    × IsShare paid ((300 - 100) * 10 * 1_000_000_000) 1_000_000_000_000
    × IsShare x (paid * 10_000_000) 300
    × IsShare y (paid * 10_000_000) 100
majority_pays_example =
    majority_pays (pos 5) (pos 5) 300 100 10 1_000_000_000 (omega arith) (omega arith) (omega arith)
      (omega arith) (omega arith)

abbrev a_watched_trade : TradeEntry
a_watched_trade = record {
  key = a_key;
  is_long = true;
  leverage = 10;
  collateral = some (pos 1000);
  open_price = some (pos 50_000);
  acc_rollover_open = some (pos 0);
  acc_funding_open = some (pos 0);
  liq_threshold_p = 90;
  liq_price = some (pos 45_500);
  tp_price = some (pos 60_000);
  sl_price = some (pos 48_000);
}

abbrev fees_at : ℤ → PairFeeState
fees_at z = record {
  pair_index = pos 1;
  acc_rollover = some z;
  acc_funding_long = some z;
  acc_funding_short = some (pos 0);
  projected_at_ledger = 7;
}

current_liquidation_price_mono_example :
    (p q : ℤ) × (current_liquidation_price a_watched_trade (fees_at (pos 10_000)) ≡ ok p)
    × (current_liquidation_price a_watched_trade (fees_at (pos 90_000)) ≡ ok q)
    × (if true then p ≤ℤ q else q ≤ℤ p)
current_liquidation_price_mono_example =
    current_liquidation_price_mono a_watched_trade (fees_at (pos 10_000)) (fees_at (pos 90_000))
      50_000 1000 (pos 0) (pos 0) (pos 10_000) (pos 90_000) (pos 10_000) (pos 90_000) refl refl refl
      refl refl refl refl refl (omega arith) (omega arith) (omega arith) (omega arith)

-- A node whose answer to a sent transaction has another status.
abbrev odd : Chain
odd = record failing { send = λ tx. some (codes "QUEUED") }

odd-SendsUnnamed : SendsUnnamed an_action odd
unfolding text_beq
odd-SendsUnnamed = record {
  tx = codes "tx";
  sim = record { transaction_data = codes "data"; error = [] };
  prepared_tx = codes "tx";
  status = codes "QUEUED";
  builds = refl;
  simulates = refl;
  succeeds = refl;
  prepares = refl;
  answers = refl;
  unnamed = refl;
}

attempts-unnamed_example :
    attempts 1 (odd ∷ odd ∷ odd ∷ []) (pend_key an_action) an_executor ≡ an_executor
unfolding lookup text_beq pend_key print_ℤ
attempts-unnamed_example =
    attempts-unnamed 1 (odd ∷ odd ∷ odd ∷ []) (pend_key an_action) an_item an_executor refl
      (odd-SendsUnnamed, (odd-SendsUnnamed, (odd-SendsUnnamed, tt)))
