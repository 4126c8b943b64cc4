-- ===== src/Keeper/Detector/Complete.antt =====
-- Every due action is returned by `Detect`, so that the result is exactly the due actions.
use lumen_liquid_backend.Base.{
  ◌≡◌, refl, ap, sym, subst, ◌↔◌, Bool, true, false, some, ◌++◌, All, All-append, inl, inr, Option,
  List, [], ◌∷◌, All-In, In, In-append, Bool-cases, keep,
}
use lumen_liquid_backend.Base.Int.{ℤ, int_beq_iff, int_eq}
use lumen_liquid_backend.Keeper.State.{
  TradeEntry, LimitEntry, PairFeeState, TradeState, fee_state, get_trades_for_pair,
  get_limits_for_pair, values,
}
use lumen_liquid_backend.Keeper.Detector.{
  liquidate, tp_sl, limit, is_liquidatable, watched_liq_price, check_tp_sl, PendingAction,
  limit_action, check_limit, detect_trade, detect_trades, detect_limits, detect,
}
use lumen_liquid_backend.Keeper.Detector.Sound.{
  IsDue, due_liquidation, due_tp_sl, due_limit, detect-IsDue,
}

In-keep :
    {A : Type 0} (p : A → Bool) (a : A) (xs : List A) → In a xs → p a ≡ true → In a (keep p xs)
In-keep p a [] i h = elim i [ ]
In-keep p a (x ∷ xs) (inl e) h = rw (subst (λ y. p y ≡ true) e h) (inl e)
In-keep p a (x ∷ xs) (inr i) h = elim (Bool-cases (p x)) [
  | inl hit ↦ rw hit (inr (In-keep p a xs i h))
  | inr miss ↦ rw miss (In-keep p a xs i h)
]

detect_trades-In :
    (price : ℤ) (fee : Option PairFeeState) (t : TradeEntry) (a : PendingAction)
    (ts : List TradeEntry)
    → In t ts
    → In a (detect_trade price fee t)
    → In a (detect_trades price fee ts)
unfolding detect_trades
detect_trades-In price fee t a [] i h = elim i [ ]
detect_trades-In price fee t a (u ∷ ts) (inl e) h =
    In-append a (detect_trade price fee u) _
      (inl (subst (λ v. In a (detect_trade price fee v)) e h))
detect_trades-In price fee t a (u ∷ ts) (inr i) h =
    In-append a (detect_trade price fee u) _ (inr (detect_trades-In price fee t a ts i h))

detect_limits-In :
    (price : ℤ) (l : LimitEntry) (ls : List LimitEntry)
    → In l ls
    → check_limit price l.limit_price l.is_long ≡ true
    → In (limit_action l) (detect_limits price ls)
unfolding detect_limits
detect_limits-In price l [] i h = elim i [ ]
detect_limits-In price l (k ∷ ls) (inl e) h =
    rw (subst (λ v. check_limit price v.limit_price v.is_long ≡ true) e h) (inl (ap limit_action e))
detect_limits-In price l (k ∷ ls) (inr i) h =
    elim (Bool-cases (check_limit price k.limit_price k.is_long)) [
      | inl hit ↦ rw hit (inr (detect_limits-In price l ls i h))
      | inr miss ↦ rw miss (detect_limits-In price l ls i h)
    ]

module _ (pair price : ℤ) (s : TradeState) where
  watched_pair :
      (t : TradeEntry)
      → In t (values s.trades)
      → t.key.pair_index ≡ pair
      → In t (get_trades_for_pair pair s)
  unfolding get_trades_for_pair
  watched_pair t i k = In-keep _ t (values s.trades) i ((int_beq_iff t.key.pair_index pair).1 k)

  IsDue-detect : (a : PendingAction) → IsDue pair price s a → In a (detect pair price s)
  unfolding detect detect_trade get_limits_for_pair
  IsDue-detect a (due_liquidation t i k hit e) =
      In-append a (detect_trades price (fee_state pair s) (get_trades_for_pair pair s)) _ (
        inl (
          detect_trades-In price (fee_state pair s) t a (get_trades_for_pair pair s)
            (watched_pair t i k) (rw hit (inl e))))
  IsDue-detect a (due_tp_sl t i k safe hit e) =
      In-append a (detect_trades price (fee_state pair s) (get_trades_for_pair pair s)) _ (
        inl (
          detect_trades-In price (fee_state pair s) t a (get_trades_for_pair pair s)
            (watched_pair t i k) (rw (safe, hit) (inl e))))
  IsDue-detect a (due_limit l i k hit e) =
      In-append a (detect_trades price (fee_state pair s) (get_trades_for_pair pair s)) _ (
        inr (
          subst (λ b. In b (detect_limits price (get_limits_for_pair pair s))) (sym e)
            (detect_limits-In price l (get_limits_for_pair pair s)
              (In-keep _ l (values s.limits) i ((int_beq_iff l.key.pair_index pair).1 k)) hit)))

-- The fill of a limit order.
abbrev pub is_fill : PendingAction → Bool
is_fill a = elim a.type [ liquidate ↦ false | tp_sl ↦ false | limit ↦ true ]

detect_trade-All :
    (price : ℤ) (fee : Option PairFeeState) (t : TradeEntry)
    → All (λ a. is_fill a ≡ false) (detect_trade price fee t)
unfolding detect_trade
detect_trade-All price fee t =
    elim (Bool-cases (is_liquidatable (some price) (watched_liq_price t fee) t.is_long)) [
      | inl hit ↦ rw hit (refl, tt)
      | inr safe ↦ elim (Bool-cases (check_tp_sl price t.tp_price t.sl_price t.is_long)) [
        | inl hit ↦ rw (safe, hit) (refl, tt)
        | inr miss ↦ rw (safe, miss) tt
      ]
    ]

detect_trades-All :
    (price : ℤ) (fee : Option PairFeeState) (ts : List TradeEntry)
    → All (λ a. is_fill a ≡ false) (detect_trades price fee ts)
unfolding detect_trades
detect_trades-All price fee [] = tt
detect_trades-All price fee (t ∷ ts) =
    All-append _ (detect_trade price fee t) _ (detect_trade-All price fee t)
      (detect_trades-All price fee ts)

detect_limits-All :
    (price : ℤ) (ls : List LimitEntry) → All (λ a. is_fill a ≡ true) (detect_limits price ls)
unfolding detect_limits
detect_limits-All price [] = tt
detect_limits-All price (l ∷ ls) = elim (Bool-cases (check_limit price l.limit_price l.is_long)) [
  | inl hit ↦ rw hit (refl, detect_limits-All price ls)
  | inr miss ↦ rw miss (detect_limits-All price ls)
]

-- First the actions on trades, then the fills.
abbrev pub FillsLast : List PendingAction → Type 0
FillsLast actions =
    (ts ls : List PendingAction) × (actions ≡ ts ++ ls)
    × All (λ a. is_fill a ≡ false) ts
    × All (λ a. is_fill a ≡ true) ls

detect-FillsLast : (pair price : ℤ) (s : TradeState) → FillsLast (detect pair price s)
unfolding detect
detect-FillsLast pair price s = (
  _,
  _,
  refl,
  detect_trades-All price (fee_state pair s) (get_trades_for_pair pair s),
  detect_limits-All price (get_limits_for_pair pair s),
)

-- `Detect` returns an action exactly when it is due: a liquidation for a watched trade of the pair
-- whose current level is crossed, a take profit or stop loss for one that is not to be liquidated,
-- and a fill for a limit order of the pair that the price has reached. In the list the actions on
-- trades stand before the fills.
pub detect_iff :
    (pair price : ℤ) (s : TradeState) (a : PendingAction)
    → (In a (detect pair price s) ↔ IsDue pair price s a) × FillsLast (detect pair price s)
detect_iff pair price s a = (
  (
    All-In (IsDue pair price s) a (detect pair price s) (detect-IsDue pair price s),
    IsDue-detect pair price s a,
  ),
  detect-FillsLast pair price s,
)
