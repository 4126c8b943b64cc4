-- ===== src/Wsgateway/Cache/Legacy.antt =====
-- Limit orders in internal/wsgateway/cache.go against internal/keeper/state.go: what the clients are
-- shown after an `updated_limit` event, and what the keeper then watches.
use lumen_liquid_backend.Base.{
  ◌≡◌, refl, true, Option, none, some, List, [], ◌∷◌, arith, if◌then◌else◌, Bool-cases,
  Option-cases, inl, inr, ◌==◌, text_eq,
}
use lumen_liquid_backend.Base.Int.{ℤ}
use lumen_liquid_backend.Base.Text.{Text}
use lumen_liquid_backend.Base.Assoc.{lookup, lookup-insert_self}
use lumen_liquid_backend.Events.{Event, pm, pm_topic, updated_limit}
use lumen_liquid_backend.Keeper.State.{TradeState, apply, apply_topic, set_limit_price}
use lumen_liquid_backend.Wsgateway.Slices.{has_key, update_first}
use lumen_liquid_backend.Wsgateway.Cache.{
  CachedLimit, TradeCache, Slot, slot_eq, limit_slot, list_of, update_entry, set_prices, event_slot,
  big_str, cache_updated_limit, apply_event, apply_source, apply_event_topic,
}

-- The price of the limit order that stands first under a slot.
abbrev pub shown : Slot → List CachedLimit → Option Text
shown k [] = none
shown k (l ∷ ls) = let rest = shown k ls in if limit_slot l == k then some l.limit_price else rest

module _ (price tp sl : Text) (k : Slot) where
  update_first-shown :
      (ls : List CachedLimit)
      → has_key limit_slot k ls ≡ true
      → (ms : List CachedLimit) × ((update_first limit_slot (set_prices price tp sl) k ls ≡ some ms)
          × (shown k ms ≡ some price))
  unfolding update_first
  update_first-shown [] h = absurd (cc)
  update_first-shown (l ∷ ls) h = elim (Bool-cases (limit_slot l == k)) [
    | inl hit ↦ (set_prices price tp sl l ∷ ls, (rw hit refl, rw hit refl))
    | inr miss ↦
        let (ms, (found, first)) = update_first-shown ls (ground arith) in
        (l ∷ ms, (rw (miss, found) refl, rw miss first))
  ]

legacy_keeper :
    (e : Event) (s : TradeState)
    → pm_topic e.topic ≡ updated_limit
    → e.limit_price ≡ none
    → apply e s ≡ s
unfolding apply apply_topic set_limit_price
legacy_keeper e s t p = elim (Option-cases e.limit_index) [
  | inl missing ↦ rw (t, missing) refl
  | inr (i, found) ↦ rw (t, found, p) refl
]

cache_updated :
    (e : Event) (c : TradeCache) (i : ℤ)
    → e.source ≡ pm
    → pm_topic e.topic ≡ updated_limit
    → e.limit_index ≡ some i
    → apply_event e c ≡ cache_updated_limit e (some i) c
unfolding apply_event apply_source apply_event_topic
cache_updated e c i s t f = rw (s, t, f) refl

-- After an `updated_limit` event for a cached limit order, the clients are shown the event's limit
-- price, and the text `0` where the event carries no price, as events in the old format do. On such
-- an event the keeper changes nothing and goes on watching the order at its former price.
pub updated_limit-shown :
    (e : Event) (c : TradeCache) (s : TradeState) (i : ℤ)
    → e.source ≡ pm
    → pm_topic e.topic ≡ updated_limit
    → e.limit_index ≡ some i
    → has_key limit_slot (event_slot e i) (list_of (lookup e.trader c.limits)) ≡ true
    → (shown (event_slot e i) (list_of (lookup e.trader (apply_event e c).0.limits))
        ≡ some (big_str e.limit_price))
      × (e.limit_price ≡ none → apply e s ≡ s)
updated_limit-shown e c s i src t f there =
    let (ms, (found, first)) =
      update_first-shown (big_str e.limit_price) (big_str e.tp_price) (big_str e.sl_price)
        (event_slot e i) (list_of (lookup e.trader c.limits)) there in
    (
      rw (cache_updated e c i src t f)
          (unfold update_entry in rw (found, lookup-insert_self e.trader ms c.limits) first),
      legacy_keeper e s t,
    )
