-- ===== src/Tests/Store.antt =====
-- Tests of the decoder, the database and the indexer: each theorem at a concrete event or page.
use lumen_liquid_backend.Base.{
  ℕ, Bool, ltb, if◌then◌else◌, ◌≡◌, refl, true, none, some, [], ◌∷◌, arith, text_eq, text_beq,
}
use lumen_liquid_backend.Base.Int.{pos, negsuc, ◌+ℤ◌}
use lumen_liquid_backend.Base.Text.{Text, codes, contains}
use lumen_liquid_backend.Base.Assoc.{lookup}
use lumen_liquid_backend.Soroban.ScVal.Wide.{in_words, native_wide}
use lumen_liquid_backend.Soroban.ScVal.{
  native, sc_u128, sc_i128, sc_u256, sc_i256, Codec, string, uint32, big, vec, cons, nil,
}
use lumen_liquid_backend.Events.{Event, vault, registry, empty_event, opened, vault_topic}
use lumen_liquid_backend.Events.Decode.Pm.{decode_pm}
use lumen_liquid_backend.Events.Decode.Fields.{ChainTrade, published, as_trade, decode_pm-published}
use lumen_liquid_backend.Keeper.State
use lumen_liquid_backend.Keeper.State.{TradeKey, trade_key_eq, new_trade_state}
use lumen_liquid_backend.Events.Decode.{Contracts}
use lumen_liquid_backend.Indexer.{
  Rpc, RpcError, Request, Reply, from_cursor, failure, from_ledger, is_ledger_range_error, Page,
  page, Indexer, poll_once,
}
use lumen_liquid_backend.Indexer.Progress.{IsTaken, GoesOnFrom, poll_once-page, poll_once-clamped}
use lumen_liquid_backend.Store.{apply}
use lumen_liquid_backend.Store.Tables.{Database}
use lumen_liquid_backend.Store.Trades.{Floats}
use lumen_liquid_backend.Store.Replayed.{shares_of, redelivered_deposit}
use lumen_liquid_backend.Store.Interest.{AllCovered}
use lumen_liquid_backend.Store.Covered.{apply-AllCovered}
use lumen_liquid_backend.Store.OpenAfter.{present}
use lumen_liquid_backend.Store.OpenTrades.{is_open, apply-watched}
use lumen_liquid_backend.Tests.{alice, opened_event}

abbrev empty_database : Database
empty_database = record {
  trade_events = [];
  trades = [];
  trade_history = [];
  limit_orders = [];
  limit_order_history = [];
  vault_positions = [];
  pair_rates = [];
  pair_oi = [];
  cursor = none;
}

abbrev exact : Floats
exact = record { to_float64 = λ z. z; to_big_float = λ z. z }

abbrev deposit_event : Event
deposit_event = record empty_event {
  source = vault;
  topic = codes "deposit";
  tx_hash = codes "tx2";
  occurred_at = codes "t2";
  trader = alice;
  shares = some (pos 70);
  assets = some (pos 90);
}

redelivered_deposit_example :
    (once twice : Database) × (apply exact (λ t. some t) deposit_event 0 empty_database ≡ some once)
    × (apply exact (λ t. some t) deposit_event 0 once ≡ some twice)
    × (twice.trade_events ≡ once.trade_events)
    × (shares_of alice once ≡ shares_of alice empty_database +ℤ pos 70)
    × (shares_of alice twice ≡ shares_of alice once +ℤ pos 70)
unfolding vault_topic text_beq
redelivered_deposit_example =
    redelivered_deposit exact (λ t. some t) deposit_event 0 (codes "t2") empty_database refl refl
      refl

abbrev oi_sub_event : Event
oi_sub_event = record empty_event {
  source = registry;
  topic = codes "oi_sub";
  occurred_at = codes "t3";
  pair_index = some (pos 1);
  oi_is_long = some true;
  amount = some (pos 5);
}

abbrev small_interest : Database
small_interest = record empty_database {
  pair_oi = (pos 1, record { long_oi = pos 3; short_oi = pos 2; updated_at = codes "t0" }) ∷ [];
}

apply-AllCovered_example :
    (s' : Database) × (apply exact (λ t. some t) oi_sub_event 0 small_interest ≡ some s')
    × AllCovered s'
apply-AllCovered_example =
    apply-AllCovered exact (λ t. some t) oi_sub_event 0 (codes "t3") small_interest refl
      ((omega arith, omega arith), tt)

apply-watched_example :
    (s' : Database) × (apply exact (λ t. some t) opened_event 0 empty_database ≡ some s')
    × ((j : TradeKey)
        → is_open j s' ≡ present (lookup j (State.apply opened_event new_trade_state).trades))
unfolding lookup
apply-watched_example =
    apply-watched exact (λ t. some t) opened_event 0 (codes "t1") empty_database new_trade_state
      refl refl (λ j. refl)

abbrev a_chain_trade : ChainTrade
a_chain_trade = record {
  pair_index = 1;
  is_long = true;
  leverage = 10;
  open_price = pos 50_000;
  collateral = pos 1000;
  acc_rollover_open = pos 0;
  acc_funding_open = pos 0;
  tp_price = pos 60_000;
  sl_price = pos 48_000;
}

decode_pm-published_example :
    decode_pm opened
      (string (codes "opened") ∷ string alice ∷ uint32 1 ∷ [])
      (vec (cons (uint32 0) (cons (published a_chain_trade) (cons (big (pos 3)) nil))))
      empty_event
    ≡ record empty_event {
      trader = alice;
      pair_index = some (pos 1);
      trade_index = some (pos 0);
      trade = some (as_trade a_chain_trade);
      open_fee = some (pos 3);
    }
decode_pm-published_example =
    decode_pm-published (codes "opened") alice 1 0 a_chain_trade (pos 3) empty_event (omega arith)
      (omega arith) (omega arith) (omega arith)

-- A decoder that knows no value, so every event of a page is skipped.
abbrev blind : Codec
blind = record {
  encode_account = λ k. none;
  encode_contract = λ k. none;
  decode_b64 = λ s. none;
  sprint = λ v. [];
}

abbrev no_contracts : Contracts
no_contracts = record { pm_id = []; vault_id = []; registry_id = [] }

abbrev a_page : Page
a_page = record {
  events =
      record {
        ledger = 7;
        ledger_closed_at = codes "t";
        contract_id = [];
        topic = codes "AAAA" ∷ [];
        value = codes "AAAA";
        tx_hash = codes "tx";
      }
      ∷ [];
  cursor = codes "38654705664-1";
}

abbrev a_node : Rpc
a_node = record { get_events = λ q. page a_page; oldest_ledger = some 1; latest_ledger = some 9 }

abbrev an_indexer : Indexer
an_indexer = record { start_ledger = 5; cursor = []; database = empty_database; published = [] }

abbrev takes_all : ℕ → Text → Bool
takes_all ledger cursor = true

poll_once-page_example :
    IsTaken blind no_contracts exact
      (λ t. some t)
      takes_all
      a_page
      5
      (poll_once blind no_contracts exact (λ t. some t) takes_all a_node an_indexer)
poll_once-page_example =
    poll_once-page blind no_contracts exact (λ t. some t) takes_all a_node an_indexer a_page refl

abbrev out_of_range : RpcError
out_of_range = record {
  code = some (negsuc 32_599);
  message = codes "startLedger must be within the ledger range: 100 - 900";
}

-- A node that has pruned what is asked for, and answers from its oldest ledger on.
abbrev pruned_node : Rpc
pruned_node = record { get_events = from_100; oldest_ledger = some 100; latest_ledger = some 900 }
  where
    from_100 : Request → Reply
    from_100 (from_cursor c) = failure out_of_range
    from_100 (from_ledger l) = if ltb l 100 then failure out_of_range else page a_page

poll_once-clamped_example :
    GoesOnFrom blind no_contracts exact
      (λ t. some t)
      takes_all
      pruned_node
      100
      (poll_once blind no_contracts exact (λ t. some t) takes_all pruned_node an_indexer)
unfolding is_ledger_range_error contains text_beq
poll_once-clamped_example =
    poll_once-clamped blind no_contracts exact (λ t. some t) takes_all pruned_node an_indexer
      out_of_range 100 refl refl refl

native_wide_example :
    (native blind (sc_u128 1 5) ≡ some (big (in_words (pos 1) (5 ∷ []))))
    × (native blind (sc_i128 (negsuc 0) 5) ≡ some (big (in_words (negsuc 0) (5 ∷ []))))
    × (native blind (sc_u256 1 5 6 7) ≡ some (big (in_words (pos 1) (5 ∷ 6 ∷ 7 ∷ []))))
    × (native blind (sc_i256 (negsuc 0) 5 6 7) ≡ some (big (in_words (negsuc 0) (5 ∷ 6 ∷ 7 ∷ []))))
native_wide_example = native_wide blind 1 (negsuc 0) 5 6 7 (omega arith) (omega arith) (omega arith)
