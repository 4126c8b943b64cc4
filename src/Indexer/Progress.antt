-- ===== src/Indexer/Progress.antt =====
-- What a round of polling in cmd/indexer/main.go does to the indexer's position.
use lumen_liquid_backend.Base.{
  ℕ, suc, ◌≤◌, text_beq, ◌≡◌, refl, sym, subst, Bool, ◌⊎◌, inl, inr, Bool-cases, true, false,
  Option, none, some, List, [], ◌∷◌, arith,
}
use lumen_liquid_backend.Base.Text.{Text}
use lumen_liquid_backend.Soroban.ScVal.{Codec}
use lumen_liquid_backend.Events.{Event}
use lumen_liquid_backend.Events.Decode.{EventResult, Contracts, decode}
use lumen_liquid_backend.Store
use lumen_liquid_backend.Store.{read_cursor, write_cursor}
use lumen_liquid_backend.Store.Tables.{Database}
use lumen_liquid_backend.Store.Trades.{Floats}
use lumen_liquid_backend.Indexer.{
  Indexer, Rpc, RpcError, failure, from_ledger, is_ledger_range_error, Page, page, request, later,
  later_known, applied, decoded, apply_events, advance, Reply, save, retried, take_page, poll_once,
  ledger_from_cursor,
}

later_le : (a b : ℕ) → a ≤ later a b
later_le a b = ground arith

module _ (x : Codec) (contracts : Contracts) (fl : Floats) (parse_time : Text → Option Text) where
  applied_le :
      (e : Event) (s : Option Database) (w : Indexer)
      → w.start_ledger ≤ (applied x contracts fl parse_time e s w).start_ledger
  applied_le e none w = omega arith
  applied_le e (some s) w = later_le w.start_ledger _

  decoded_le :
      (e : Option Event) (i : ℕ) (w : Indexer)
      → w.start_ledger ≤ (decoded x contracts fl parse_time e i w).start_ledger
  decoded_le none i w = omega arith
  decoded_le (some e) i w = applied_le e (Store.apply fl parse_time e i w.database) w

  apply_events_le :
      (i : ℕ) (rs : List EventResult) (w : Indexer)
      → w.start_ledger ≤ (apply_events x contracts fl parse_time i rs w).start_ledger
  unfolding apply_events
  apply_events_le i [] w = omega arith
  apply_events_le i (r ∷ rs) w = omega (
    arith,
    decoded_le (decode x r contracts) i w,
    apply_events_le (suc i) rs (decoded x contracts fl parse_time (decode x r contracts) i w),
  )

  later_known_le : (a : ℕ) (l : Option ℕ) → a ≤ later_known x contracts fl parse_time a l
  later_known_le a none = omega arith
  later_known_le a (some l) = later_le a l

  advance_le :
      (c : Text) (w : Indexer)
      → w.start_ledger ≤ (advance x contracts fl parse_time c w).start_ledger
  advance_le [] w = omega arith
  advance_le (c ∷ s) w = later_known_le w.start_ledger (ledger_from_cursor (c ∷ s))

  -- The position in the database is the indexer's own, unless the database refuses that very
  -- position.
  abbrev pub IsSaved : (ℕ → Text → Bool) → Indexer → Type 0
  IsSaved accepts w =
      (read_cursor w.database ≡ (w.start_ledger, w.cursor))
      ⊎ (accepts w.start_ledger w.cursor ≡ false)

  module _ (accepts : ℕ → Text → Bool) where
    -- What a page does to the position, from the start ledger `start`.
    pub record IsTaken (p : Page) (start : ℕ) (r : Bool × Indexer) : Type 0 where
      pub forward : start ≤ r.1.start_ledger
      pub flag : r.0 ≡ accepts r.1.start_ledger r.1.cursor
      pub saved : IsSaved accepts r.1
      pub position : (p.cursor ≡ []) ⊎ (r.1.cursor ≡ p.cursor)

    save-IsTaken :
        (p : Page) (start : ℕ) (w : Indexer)
        → start ≤ w.start_ledger
        → (p.cursor ≡ []) ⊎ (w.cursor ≡ p.cursor)
        → IsTaken p start (save x contracts fl parse_time accepts w)
    save-IsTaken p start w h c = elim (Bool-cases (accepts w.start_ledger w.cursor)) [
      | inl taken ↦ rw taken (record {
        forward = h;
        flag = sym taken;
        saved = inl (unfold read_cursor write_cursor in refl);
        position = c;
      })
      | inr refused ↦
          rw refused (record { forward = h; flag = sym refused; saved = inr refused; position = c })
    ]

    advance-cursor :
        (c : Text) (w : Indexer) → (c ≡ []) ⊎ ((advance x contracts fl parse_time c w).cursor ≡ c)
    advance-cursor [] w = inl refl
    advance-cursor (c ∷ s) w = inr refl

    take_page-IsTaken :
        (p : Page) (w : Indexer)
        → IsTaken p w.start_ledger (take_page x contracts fl parse_time accepts p w)
    unfolding take_page
    take_page-IsTaken p w =
        let w' = apply_events x contracts fl parse_time 0 p.events w in
        save-IsTaken p w.start_ledger (advance x contracts fl parse_time p.cursor w')
          (omega (arith, apply_events_le 0 p.events w, advance_le p.cursor w'))
          (advance-cursor p.cursor w')

    -- When the node answers the first request of a poll with a page, whatever events it has, the
    -- start ledger does not go back and the page's cursor is taken unless it is empty. The round
    -- succeeds exactly when the database takes the position that the indexer then has, and that
    -- position is the one in the database unless it is refused.
    pub poll_once-page :
        (rpc : Rpc) (w : Indexer) (p : Page)
        → rpc.get_events (request w) ≡ page p
        → IsTaken p w.start_ledger (poll_once x contracts fl parse_time accepts rpc w)
    unfolding poll_once
    poll_once-page rpc w p h = rw (poll_once, h) (take_page-IsTaken p w)

    -- The second request got a page, or the round failed and the next one asks from the ledger.
    abbrev pub GoesOnFrom : Rpc → ℕ → Bool × Indexer → Type 0
    GoesOnFrom rpc oldest r =
        ((p : Page) × (rpc.get_events (from_ledger oldest) ≡ page p) × IsTaken p oldest r)
        ⊎ ((r.0 ≡ false) × (request r.1 ≡ from_ledger oldest) × IsSaved accepts r.1)

    request-at :
        (oldest : ℕ) (v : Indexer)
        → v.start_ledger ≡ oldest
        → v.cursor ≡ []
        → request v ≡ from_ledger oldest
    unfolding text_beq
    request-at oldest v l c = rw (c, l) refl

    retried-GoesOnFrom :
        (rpc : Rpc) (oldest : ℕ) (w : Indexer)
        → w.start_ledger ≡ oldest
        → w.cursor ≡ []
        → IsSaved accepts w
        → (answer : Reply) → rpc.get_events (from_ledger oldest) ≡ answer
        → GoesOnFrom rpc oldest (retried x contracts fl parse_time accepts answer w)
    retried-GoesOnFrom rpc oldest w at_oldest no_cursor saved (page p) h = inl (
      p,
      h,
      subst (λ l. IsTaken p l (take_page x contracts fl parse_time accepts p w)) at_oldest
          (take_page-IsTaken p w),
    )
    retried-GoesOnFrom rpc oldest w at_oldest no_cursor saved (failure e) h =
        inr (refl, request-at oldest w at_oldest no_cursor, saved)

    -- When the node refuses the position of a poll as out of its range and names its oldest ledger,
    -- there are two ways for the round to end. Either the request from that ledger got a page, with
    -- what a page does to the position from that ledger on; or the round failed, and the next one asks
    -- from that ledger. In both the position in the database is the indexer's own unless the database
    -- refuses it.
    pub poll_once-clamped :
        (rpc : Rpc) (w : Indexer) (e : RpcError) (oldest : ℕ)
        → rpc.get_events (request w) ≡ failure e
        → is_ledger_range_error e ≡ true
        → rpc.oldest_ledger ≡ some oldest
        → GoesOnFrom rpc oldest (poll_once x contracts fl parse_time accepts rpc w)
    unfolding poll_once
    poll_once-clamped rpc w e oldest refused range h = elim (Bool-cases (accepts oldest [])) [
      | inl taken ↦
          rw (poll_once, refused, range, h, taken)
            (retried-GoesOnFrom rpc oldest
              (record w {
                start_ledger = oldest;
                cursor = [];
                database = write_cursor oldest [] w.database;
              })
              refl refl (inl (unfold read_cursor write_cursor in refl))
              (rpc.get_events (from_ledger oldest)) refl)
      | inr failed ↦
          rw (poll_once, refused, range, h, failed)
            (inr (
              refl,
              request-at oldest (record w { start_ledger = oldest; cursor = [] }) refl refl,
              inr failed,
            ))
    ]
