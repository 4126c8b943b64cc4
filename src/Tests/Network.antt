-- ===== src/Tests/Network.antt =====
-- Tests of the RPC client, the pair indexer and the hub's histories.
use lumen_liquid_backend.Base.{
  ℕ, ◌≡◌, refl, true, false, Option, none, some, [], ◌∷◌, arith, if◌then◌else◌, nat_beq, nat_eq,
}
use lumen_liquid_backend.Base.Text.{Text, codes}
use lumen_liquid_backend.Base.Assoc.{lookup}
use lumen_liquid_backend.Soroban.Client.{Transport, new_client, call}
use lumen_liquid_backend.Soroban.Client.Failover.{EndsAt, call-EndsAt}
use lumen_liquid_backend.PairIndexer.{CliRun, PairInfo, Group, Tables, call_contract}
use lumen_liquid_backend.PairIndexer.Attempts.{IsCall, call_contract-IsCall}
use lumen_liquid_backend.PairIndexer.Sync.{Registry, pair_record, sync}
use lumen_liquid_backend.PairIndexer.Mirror.{sync-answered}
use lumen_liquid_backend.Wsgateway.Hub.{Hub, new_hub, put, register}
use lumen_liquid_backend.Wsgateway.Hub.Lifecycle.{registers, joins, act, Reach, at_start, step}
use lumen_liquid_backend.Wsgateway.Hub.Open.{IsOpen}
use lumen_liquid_backend.Wsgateway.Hub.Safe.{Reach-no_panic, new_hub-IsOpen}
use lumen_liquid_backend.Wsgateway.Pump.{ClientMessage, Snapshots, open_socket}
use lumen_liquid_backend.Wsgateway.Pump.Leaves.{Ends, open_socket-Ends}

-- A network in which the first endpoint is down.
abbrev half_down : Transport Text
half_down = record {
  marshal = λ method n. some method;
  post = λ body url.
      if nat_beq (first_of url) 49 then none else some (record { status_code = 200; body = body });
  rpc_resp = λ raw. some (record { result = raw; error = none });
  out = λ raw. some raw;
}
  where
    first_of : Text → ℕ
    first_of [] = 0
    first_of (c ∷ s) = c

call-EndsAt_example :
    EndsAt half_down
      (codes "getHealth")
      (new_client (codes "1") (codes "2" ∷ [])).urls
      (call half_down
        (codes "getHealth")
        (record (new_client (codes "1") (codes "2" ∷ [])) { id_seq = 0 })).0
call-EndsAt_example =
    call-EndsAt half_down (codes "getHealth") (codes "getHealth") (codes "1") (codes "2" ∷ []) 0
      refl

-- A tool that is limited in its rate at first.
abbrev limited : ℕ → CliRun
limited n =
    if nat_beq n 3
    then record { succeeded = true; stdout = codes "7"; stderr = [] }
    else record { succeeded = false; stdout = []; stderr = codes "HTTP 429" }

call_contract-IsCall_example : IsCall limited (call_contract limited)
call_contract-IsCall_example = call_contract-IsCall limited

abbrev btc : PairInfo
btc = record {
  symbol = codes "BTC";
  reflector_asset = record { stellar = none; other = some (codes "BTC") };
  group_index = 4;
  spread_p = codes "0";
  min_leverage = 2;
  max_leverage = 100;
  min_lev_pos_usdc = codes "0";
  max_oi_usdc = codes "0";
  max_neg_pnl_p = codes "0";
  liq_threshold_p = 90;
  max_gain_p = 900;
  disabled = false;
}

abbrev crypto : Group
crypto = record {
  name = codes "crypto";
  max_collateral_usdc = codes "1000";
  open_fee_p = codes "8";
  close_fee_p = codes "8";
}

-- A registry that knows one group, and no fees.
abbrev a_registry : Registry
a_registry = record {
  pair = λ i. if nat_beq i 1 then some btc else none;
  depth = λ i. none;
  group = λ g. if nat_beq g 4 then some crypto else none;
  rollover = λ i. none;
  funding = λ i. none;
  oi = λ i. none;
  projected_rollover = λ i l. none;
  projected_funding = λ i l. none;
  strings = λ raw. none;
  printed = λ raw. none;
  takes_pair = λ i. true;
  takes_group = λ g. true;
  takes_fees = λ i. true;
  takes_oi = λ i. true;
}

abbrev no_tables : Tables
no_tables = record { pairs = []; groups = []; fees = []; oi = [] }

sync-answered_example :
    (lookup 1 (sync a_registry 77 3 no_tables).tables.pairs ≡ some (pair_record btc none))
    × (lookup 4 (sync a_registry 77 3 no_tables).tables.groups ≡ some crypto)
sync-answered_example =
    sync-answered a_registry 77 btc crypto 1 3 no_tables
      (record { pair_answer = refl; group_answer = refl; pair_taken = refl; group_taken = refl })
      (omega arith)

abbrev one_client : Hub
one_client = record new_hub { clients = put 5 true new_hub.clients }

one_client-Reach : Reach one_client
unfolding act register new_hub
one_client-Reach = step (registers 5) at_start refl tt refl

Reach-no_panic_example :
    IsOpen one_client × ((k : Hub) × (act (joins 5 (codes "prices")) one_client ≡ some k))
unfolding new_hub put
Reach-no_panic_example = Reach-no_panic (joins 5 (codes "prices")) one_client one_client-Reach refl

-- A decoder for which every text is a subscription to the channel that it spells.
abbrev subscription_to : Text → Option ClientMessage
subscription_to m = some (record { type = codes "subscribe"; channel = m })

abbrev empty_snapshots : Snapshots
empty_snapshots = record { of_trader = λ trader. some (codes "{}"); of_all = none }

open_socket-Ends_example :
    Ends 5
      (open_socket empty_snapshots subscription_to
        (codes "prices")
        5
        (codes "trader:GA" ∷ codes "trades:all" ∷ [] ∷ []))
      new_hub
unfolding new_hub
open_socket-Ends_example =
    open_socket-Ends empty_snapshots subscription_to 5 (codes "prices")
      (codes "trader:GA" ∷ codes "trades:all" ∷ [] ∷ []) new_hub new_hub-IsOpen refl
