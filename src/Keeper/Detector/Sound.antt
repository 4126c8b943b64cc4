-- ===== src/Keeper/Detector/Sound.antt =====
-- Every action that `Detect` returns is due.
use lumen_liquid_backend.Base.{
  ◌≡◌, refl, Bool, true, false, inl, inr, some, List, [], ◌∷◌, All, All-append, In, Bool-cases,
  keep, ◌==◌,
}
use lumen_liquid_backend.Base.Int.{ℤ, int_beq_iff, int_eq}
use lumen_liquid_backend.Keeper.Math.{is_liquidatable}
use lumen_liquid_backend.Keeper.State.{
  TradeEntry, LimitEntry, TradeState, fee_state, get_trades_for_pair, get_limits_for_pair, values,
}
use lumen_liquid_backend.Keeper.Detector.{
  liquidate, tp_sl, PendingAction, trade_action, limit_action, watched_liq_price, check_tp_sl,
  check_limit, detect_trade, detect_trades, detect_limits, detect,
}

-- Why an action is due at a price: it is about a watched entry of the pair, and that entry's level
-- is crossed. A take profit or stop loss is due only where no liquidation is.
pub data IsDue (pair price : ℤ) (s : TradeState) (a : PendingAction) : Type 0 where
  due_liquidation :
      (t : TradeEntry)
      → In t (values s.trades)
      → t.key.pair_index ≡ pair
      → is_liquidatable (some price) (watched_liq_price t (fee_state pair s)) t.is_long ≡ true
      → a ≡ trade_action liquidate t
      → IsDue pair price s a
  due_tp_sl :
      (t : TradeEntry)
      → In t (values s.trades)
      → t.key.pair_index ≡ pair
      → is_liquidatable (some price) (watched_liq_price t (fee_state pair s)) t.is_long ≡ false
      → check_tp_sl price t.tp_price t.sl_price t.is_long ≡ true
      → a ≡ trade_action tp_sl t
      → IsDue pair price s a
  due_limit :
      (l : LimitEntry)
      → In l (values s.limits)
      → l.key.pair_index ≡ pair
      → check_limit price l.limit_price l.is_long ≡ true
      → a ≡ limit_action l
      → IsDue pair price s a

-- What `keep` leaves stands in the list and passes the test.
pub keep-All :
    {A : Type 0} (p : A → Bool) (xs ys : List A)
    → ((a : A) → In a xs → In a ys)
    → All (λ a. In a ys × (p a ≡ true)) (keep p xs)
keep-All p [] ys h = tt
keep-All p (x ∷ xs) ys h = elim (Bool-cases (p x)) [
  | inl hit ↦ rw hit ((h x (inl refl), hit), keep-All p xs ys (λ a i. h a (inr i)))
  | inr miss ↦ rw miss (keep-All p xs ys (λ a i. h a (inr i)))
]

module _ (pair price : ℤ) (s : TradeState) where
  detect_trade-IsDue :
      (t : TradeEntry)
      → In t (values s.trades)
      → t.key.pair_index ≡ pair
      → All (IsDue pair price s) (detect_trade price (fee_state pair s) t)
  unfolding detect_trade
  detect_trade-IsDue t i k =
      let level = watched_liq_price t (fee_state pair s) in
      elim (Bool-cases (is_liquidatable (some price) level t.is_long)) [
        | inl hit ↦ rw hit (due_liquidation t i k hit refl, tt)
        | inr safe ↦ elim (Bool-cases (check_tp_sl price t.tp_price t.sl_price t.is_long)) [
          | inl hit ↦ rw (safe, hit) (due_tp_sl t i k safe hit refl, tt)
          | inr miss ↦ rw (safe, miss) tt
        ]
      ]

  detect_trades-IsDue :
      (ts : List TradeEntry)
      → All (λ t. In t (values s.trades) × ((t.key.pair_index == pair) ≡ true)) ts
      → All (IsDue pair price s) (detect_trades price (fee_state pair s) ts)
  unfolding detect_trades
  detect_trades-IsDue [] h = tt
  detect_trades-IsDue (t ∷ ts) h =
      All-append _ (detect_trade price (fee_state pair s) t) _
        (detect_trade-IsDue t h.0.0 ((int_beq_iff t.key.pair_index pair).0 h.0.1))
        (detect_trades-IsDue ts h.1)

  detect_limits-IsDue :
      (ls : List LimitEntry)
      → All (λ l. In l (values s.limits) × ((l.key.pair_index == pair) ≡ true)) ls
      → All (IsDue pair price s) (detect_limits price ls)
  unfolding detect_limits
  detect_limits-IsDue [] h = tt
  detect_limits-IsDue (l ∷ ls) h = elim (Bool-cases (check_limit price l.limit_price l.is_long)) [
    | inl hit ↦ rw hit (
      due_limit l h.0.0 ((int_beq_iff l.key.pair_index pair).0 h.0.1) hit refl,
      detect_limits-IsDue ls h.1,
    )
    | inr miss ↦ rw miss (detect_limits-IsDue ls h.1)
  ]

-- Each action that `Detect` returns for a pair and a price is due: it belongs to a watched trade or
-- limit order of that pair whose level the price has crossed.
pub detect-IsDue :
    (pair price : ℤ) (s : TradeState) → All (IsDue pair price s) (detect pair price s)
unfolding detect get_trades_for_pair get_limits_for_pair
detect-IsDue pair price s =
    All-append _ (detect_trades price (fee_state pair s) (get_trades_for_pair pair s)) _
      (detect_trades-IsDue pair price s (get_trades_for_pair pair s)
        (keep-All _ (values s.trades) (values s.trades) (λ a i. i)))
      (detect_limits-IsDue pair price s (get_limits_for_pair pair s)
        (keep-All _ (values s.limits) (values s.limits) (λ a i. i)))
