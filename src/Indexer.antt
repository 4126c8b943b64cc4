-- ===== src/Indexer.antt =====
-- cmd/indexer/main.go: where the indexer starts, and one round of its polling loop. The RPC node is a
-- parameter, and so are the decoder of contract values and the parser of ledger times. The messages
-- that `fanout` publishes are kept in a list; logging is left out. `accepts` says which positions the
-- database takes when they are written; on the others `WriteCursor` fails.
pub mod Progress
use lumen_liquid_backend.Base.{
  ℕ, suc, ◌+◌, ◌/◌, ◌^◌, Bool, true, false, ◌&&◌, ◌||◌, Option, none, some, List, [], ◌∷◌, ◌++◌,
  if◌then◌else◌, ltb, ◌==◌, text_eq, nat_eq, not, map,
}
use lumen_liquid_backend.Base.Int.{ℤ, pos, negsuc, int_eq, to_uint32}
use lumen_liquid_backend.Base.Text.{Text, codes, print_ℤ, parse_ℕ, contains}
use lumen_liquid_backend.Soroban.ScVal.{Codec}
use lumen_liquid_backend.Events.{Event}
use lumen_liquid_backend.Events.Decode.{EventResult, Contracts, decode}
use lumen_liquid_backend.Store.{write_cursor, read_cursor}
use lumen_liquid_backend.Store.Tables.{Database}
use lumen_liquid_backend.Store.Trades.{Floats}

-- soroban.GetEventsResp
pub record Page : Type 0 where
  pub events : List EventResult
  pub cursor : Text

-- soroban.RPCError; an error of another kind has no code.
pub record RpcError : Type 0 where
  pub code : Option ℤ
  pub message : Text

pub data Reply : Type 0 where
  page : Page → Reply
  failure : RpcError → Reply

-- soroban.GetEventsParams: a page goes on from a cursor or starts at a ledger.
pub data Request : Type 0 where
  from_cursor : Text → Request
  from_ledger : ℕ → Request

pub record Rpc : Type 0 where
  pub get_events : Request → Reply
  pub oldest_ledger : Option ℕ
  pub latest_ledger : Option ℕ

pub record Indexer : Type 0 where
  pub start_ledger : ℕ
  pub cursor : Text
  pub database : Database
  pub published : List (Text × Event)

abbrev pub request : Indexer → Request
request w = if w.cursor == [] then from_ledger w.start_ledger else from_cursor w.cursor

-- `isLedgerRangeError`
abbrev pub is_range_code : Option ℤ → Bool
is_range_code none = false
is_range_code (some z) = z == negsuc 32_599

unfoldable pub is_ledger_range_error : RpcError → Bool
is_ledger_range_error e =
    is_range_code e.code && contains e.message (codes "must be within the ledger range")

abbrev before_dash : Text → Text
before_dash [] = []
before_dash (c ∷ s) = let rest = before_dash s in if c == 45 then [] else c ∷ rest

abbrev high_bits : Option ℕ → Option ℕ
high_bits none = none
high_bits (some toid) = if ltb toid (2 ^ 64) then some (toid / 2 ^ 32) else none

-- `ledgerFromCursor`: the high 32 bits of the number before the dash; `none` is the `false` result.
unfoldable pub ledger_from_cursor : Text → Option ℕ
ledger_from_cursor cursor = high_bits (parse_ℕ (before_dash cursor))

-- The channels of `fanout`.
abbrev trader_channel : Text → List Text
trader_channel [] = []
trader_channel (c ∷ s) = (codes "events:trader:" ++ c ∷ s) ∷ []

abbrev pair_channel : Option ℤ → List Text
pair_channel none = []
pair_channel (some i) = (codes "events:pair:" ++ print_ℤ i) ∷ []

unfoldable pub fanout : Event → List (Text × Event)
fanout e =
    map (λ c. (c, e))
      (codes "events:global" ∷ (trader_channel e.trader ++ pair_channel e.pair_index))

abbrev pub later : ℕ → ℕ → ℕ
later a b = if ltb a b then b else a

-- `decideStartCursor`; `none` is the error of the node.
unfoldable pub decide_start_cursor : ℕ → Rpc → Database → Option (ℕ × Text)
decide_start_cursor configured rpc s =
    let (last, cursor) = read_cursor s in
    if ltb 0 last || not (cursor == [])
    then some (to_uint32 (pos last), cursor)
    else if ltb 0 configured
    then some (configured, [])
    else elim rpc.latest_ledger [ none ↦ none | some l ↦ some (l, []) ]

module _ (x : Codec) (contracts : Contracts) (fl : Floats) (parse_time : Text → Option Text) where
  -- An event that was applied is published, and its ledger counts.
  abbrev applied : Event → Option Database → Indexer → Indexer
  applied e none w = w
  applied e (some s) w = record w {
    database = s;
    published = w.published ++ fanout e;
    start_ledger = later w.start_ledger (to_uint32 (pos e.ledger));
  }

  abbrev decoded : Option Event → ℕ → Indexer → Indexer
  decoded none i w = w
  decoded (some e) i w = applied e (lumen_liquid_backend.Store.apply fl parse_time e i w.database) w

  -- The loop over a page; an event that cannot be decoded or applied is skipped.
  unfoldable pub apply_events : ℕ → List EventResult → Indexer → Indexer
  apply_events i [] w = w
  apply_events i (r ∷ rs) w = apply_events (suc i) rs (decoded (decode x r contracts) i w)

  abbrev later_known : ℕ → Option ℕ → ℕ
  later_known a none = a
  later_known a (some l) = later a l

  -- `if resp.Cursor != ""`
  abbrev advance : Text → Indexer → Indexer
  advance [] w = w
  advance (c ∷ s) w = record w {
    cursor = c ∷ s;
    start_ledger = later_known w.start_ledger (ledger_from_cursor (c ∷ s));
  }

  module _ (accepts : ℕ → Text → Bool) where
    -- `repo.WriteCursor`; the flag is false on its error.
    abbrev pub save : Indexer → Bool × Indexer
    save w =
        if accepts w.start_ledger w.cursor
        then (true, record w { database = write_cursor w.start_ledger w.cursor w.database })
        else (false, w)

    unfoldable pub take_page : Page → Indexer → Bool × Indexer
    take_page p w = save (advance p.cursor (apply_events 0 p.events w))

    abbrev retried : Reply → Indexer → Bool × Indexer
    retried (page p) w = take_page p w
    retried (failure e) w = (false, w)

    -- The retry after the clamp, unless the clamped position could not be written.
    abbrev retry_unless_failed : Rpc → ℕ → Bool × Indexer → Bool × Indexer
    retry_unless_failed rpc oldest (true, w) = retried (rpc.get_events (from_ledger oldest)) w
    retry_unless_failed rpc oldest (false, w) = (false, w)

    -- The clamp to the oldest ledger of the node.
    abbrev clamped : Rpc → Option ℕ → Indexer → Bool × Indexer
    clamped rpc none w = (false, w)
    clamped rpc (some oldest) w =
        retry_unless_failed rpc oldest (save (record w { start_ledger = oldest; cursor = [] }))

    abbrev answered : Rpc → Reply → Indexer → Bool × Indexer
    answered rpc (page p) w = take_page p w
    answered rpc (failure e) w =
        if is_ledger_range_error e then clamped rpc rpc.oldest_ledger w else (false, w)

    -- `pollOnce`; the flag is false on an error.
    unfoldable pub poll_once : Rpc → Indexer → Bool × Indexer
    poll_once rpc w = answered rpc (rpc.get_events (request w)) w
