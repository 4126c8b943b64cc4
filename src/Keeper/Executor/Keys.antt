-- ===== src/Keeper/Executor/Keys.antt =====
-- The text keys of the executor's queue tell every two actions apart.
use mathlib.Core.List.{append_assoc}
use lumen_liquid_backend.Base.{◌≡◌, ◌≢◌, sym, ◌∙◌, ◌∷◌, ◌++◌, arith, All}
use lumen_liquid_backend.Base.Text.{
  Text, print_ℤ-no_bar, print_ℤ-injective, split-first, split-last,
}
use lumen_liquid_backend.Keeper.Detector.{ActionType, liquidate, tp_sl, limit, PendingAction}
use lumen_liquid_backend.Keeper.Executor.{type_text, action_index, pend_key}

type_text-no_bar : (t : ActionType) → All (λ c. c ≢ 124) (type_text t)
type_text-no_bar liquidate = omega arith
type_text-no_bar tp_sl = omega arith
type_text-no_bar limit = omega arith

type_text-injective : (t u : ActionType) → type_text t ≡ type_text u → t ≡ u
type_text-injective t u h = ground arith

-- A text that may hold bars, then two that hold none, joined by bars.
split_three :
    (x y p q i j : Text)
    → All (λ c. c ≢ 124) p
    → All (λ c. c ≢ 124) q
    → All (λ c. c ≢ 124) i
    → All (λ c. c ≢ 124) j
    → x ++ 124 ∷ (p ++ 124 ∷ i) ≡ y ++ 124 ∷ (q ++ 124 ∷ j)
    → (x ≡ y) × (p ≡ q) × (i ≡ j)
split_three x y p q i j hp hq hi hj h =
    let (front, last) =
      split-last 124 (x ++ 124 ∷ p) (y ++ 124 ∷ q) i j hi hj
        (append_assoc x (124 ∷ p) (124 ∷ i) ∙ h ∙ sym (append_assoc y (124 ∷ q) (124 ∷ j))) in
    let (first, middle) = split-last 124 x y p q hp hq front in (first, middle, last)

-- Two actions have the same key only if they agree in the type, the trader, the pair and the index
-- that the type uses, also where a trader's text holds bars.
pub pend_key-injective :
    (a b : PendingAction)
    → pend_key a ≡ pend_key b
    → (a.type ≡ b.type)
      × (a.key.trader ≡ b.key.trader)
      × (a.key.pair_index ≡ b.key.pair_index)
      × (action_index a.type a ≡ action_index b.type b)
unfolding pend_key
pend_key-injective a b h =
    let (types, rest) =
      split-first 124 (type_text a.type) (type_text b.type) _ _ (type_text-no_bar a.type)
        (type_text-no_bar b.type) h in
    let (traders, pairs, indices) =
      split_three a.key.trader b.key.trader _ _ _ _ (print_ℤ-no_bar a.key.pair_index)
        (print_ℤ-no_bar b.key.pair_index) (print_ℤ-no_bar (action_index a.type a))
        (print_ℤ-no_bar (action_index b.type b)) rest in
    (
      type_text-injective a.type b.type types,
      traders,
      print_ℤ-injective a.key.pair_index b.key.pair_index pairs,
      print_ℤ-injective (action_index a.type a) (action_index b.type b) indices,
    )
