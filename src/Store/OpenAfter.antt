-- ===== src/Store/OpenAfter.antt =====
-- Whether a trade is open after a position event, and the trades that the keeper watches
-- (internal/keeper/state.go) in these terms.
use lumen_liquid_backend.Base.{
  ◌≡◌, refl, ◌∙◌, Bool, true, false, Option, none, some, if◌then◌else◌, ◌==◌,
}
use lumen_liquid_backend.Base.Int.{ℤ}
use lumen_liquid_backend.Events.{
  Event, Trade, PmTopic, opened, closed, placed, executed, canceled, updated_limit, updated_tp_sl,
  tp_sl_executed, liq,
}
use mathlib.Core.Option
use lumen_liquid_backend.Keeper.State.{
  TradeKey, TradeEntry, trade_key_eq, limit_key_eq, event_key, opened_entry,
}
use lumen_liquid_backend.Keeper.State.Watch.{watch, watch_index, watch_opened}
use lumen_liquid_backend.Keeper.State.Replay.{retargeted}
use lumen_liquid_backend.Store.Trades.{opened_key}

-- Whether there is a row or an entry.
abbrev pub present {ℓ} : {A : Type ℓ} → Option A → Bool
present none = false
present (some a) = true

abbrev pub by_index : Option ℤ → (ℤ → Bool) → Bool → Bool
by_index none f old = old
by_index (some i) f old = f i

abbrev pub open_opened : Event → Option Trade → Option ℤ → TradeKey → Bool → Bool
open_opened e none k j old = old
open_opened e (some t) k j old = by_index k (λ i. if opened_key e t i == j then true else old) old

abbrev pub open_closed : Event → TradeKey → Bool → Bool
open_closed e j old = by_index e.trade_index (λ i. if event_key e i == j then false else old) old

-- Whether a trade is open after an event, from whether it was before.
abbrev pub open_after : PmTopic → Event → TradeKey → Bool → Bool
open_after opened e j old = open_opened e e.trade e.trade_index j old
open_after closed e j old = open_closed e j old
open_after liq e j old = open_closed e j old
open_after tp_sl_executed e j old = open_closed e j old
open_after t e j old = old

pub present-if :
    {A : Type 0} (b : Bool) (x y : Option A)
    → present (if b then x else y) ≡ (if b then present x else present y)
present-if true x y = refl
present-if false x y = refl

present-map : {A : Type 0} (f : A → A) (x : Option A) → present (Option.map f x) ≡ present x
present-map f none = refl
present-map f (some a) = refl

same-if : (b : Bool) (x y : Bool) → x ≡ y → (if b then x else y) ≡ y
same-if true x y h = h
same-if false x y h = refl

watch_opened-open :
    (e : Event) (t : Option Trade) (j : TradeKey) (old : Option TradeEntry)
    → present (watch_opened e t j old) ≡ open_opened e t e.trade_index j (present old)
unfolding opened_entry
watch_opened-open e none j old = refl
watch_opened-open e (some t) j old = by_cases e.trade_index
  where
    by_cases :
        (i : Option ℤ)
        → present (
            watch_index i
              (λ k.
                if (opened_entry e.trader t k).key == j
                then some (opened_entry e.trader t k)
                else old)
              old)
          ≡ by_index i (λ k. if opened_key e t k == j then true else present old) (present old)
    by_cases none = refl
    by_cases (some i) = present-if (opened_key e t i == j) (some (opened_entry e.trader t i)) old

watch_closed-open :
    (e : Event) (i : Option ℤ) (j : TradeKey) (old : Option TradeEntry)
    → present (watch_index i (λ k. if event_key e k == j then none else old) old)
      ≡ by_index i (λ k. if event_key e k == j then false else present old) (present old)
watch_closed-open e none j old = refl
watch_closed-open e (some i) j old = present-if (event_key e i == j) none old

watch_targets-open :
    (e : Event) (i : Option ℤ) (j : TradeKey) (old : Option TradeEntry)
    → present (
        watch_index i
          (λ k.
            if event_key e k == j then Option.map (retargeted e.tp_price e.sl_price) old else old)
          old)
      ≡ present old
watch_targets-open e none j old = refl
watch_targets-open e (some i) j old =
    present-if (event_key e i == j) (Option.map (retargeted e.tp_price e.sl_price) old) old
    ∙ same-if (event_key e i == j) _ _ (present-map (retargeted e.tp_price e.sl_price) old)

pub watch-open :
    (t : PmTopic) (e : Event) (j : TradeKey) (old : Option TradeEntry)
    → present (watch t e j old) ≡ open_after t e j (present old)
watch-open opened e j old = watch_opened-open e e.trade j old
watch-open closed e j old = watch_closed-open e e.trade_index j old
watch-open liq e j old = watch_closed-open e e.trade_index j old
watch-open tp_sl_executed e j old = watch_closed-open e e.trade_index j old
watch-open updated_tp_sl e j old = watch_targets-open e e.trade_index j old
watch-open placed e j old = refl
watch-open executed e j old = refl
watch-open canceled e j old = refl
watch-open updated_limit e j old = refl
watch-open PmTopic.other e j old = refl
