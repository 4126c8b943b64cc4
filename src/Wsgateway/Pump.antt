-- ===== src/Wsgateway/Pump.antt =====
-- internal/wsgateway/client.go and the snapshots of `Subscribe` in hub.go: what one connection does
-- to the hub. The socket is the list of the messages that are read from it before it ends, and
-- encoding/json is a parameter.
pub mod Leaves
use lumen_liquid_backend.Base.{
  ℕ, ◌&&◌, Option, none, some, List, [], ◌∷◌, ◌++◌, if◌then◌else◌, ◌==◌, text_eq, drop, length, ltb,
}
use lumen_liquid_backend.Base.Text.{Text, codes, has_prefix}
use lumen_liquid_backend.Wsgateway.Hub.Lifecycle.{
  Action, registers, unregisters, joins, greets, unsubscribes, broadcasts,
}

pub record ClientMessage : Type 0 where
  pub type : Text
  pub channel : Text

-- `GetSnapshot` and `GetAllSnapshot`, as JSON texts; `none` is an error.
pub record Snapshots : Type 0 where
  pub of_trader : Text → Option Text
  pub of_all : Option Text

-- The snapshot that a channel's new subscriber is sent.
unfoldable pub channel_snapshot : Snapshots → Text → Option Text
channel_snapshot cache channel =
    if ltb 7 (length channel) && has_prefix channel (codes "trader:")
    then cache.of_trader (drop 7 channel)
    else if channel == codes "trades:all"
    then cache.of_all
    else none

-- `Subscribe`: the subscription under the lock, then the snapshot.
abbrev pub subscription : Snapshots → ℕ → Text → List Action
subscription cache c channel = joins c channel ∷ greets c (channel_snapshot cache channel) ∷ []

abbrev pub command : Snapshots → ℕ → Option ClientMessage → List Action
command cache c none = []
command cache c (some msg) =
    if msg.type == codes "subscribe"
    then (if msg.channel == [] then [] else subscription cache c msg.channel)
    else if msg.type == codes "unsubscribe"
    then (if msg.channel == [] then [] else unsubscribes c msg.channel ∷ [])
    else []

-- `ReadPump`; the deferred unregistration comes last.
unfoldable pub read_pump : Snapshots → (Text → Option ClientMessage) → ℕ → List Text → List Action
read_pump cache client_message c [] = unregisters c ∷ []
read_pump cache client_message c (m ∷ ms) =
    command cache c (client_message m) ++ read_pump cache client_message c ms

-- The handlers of cmd/api/main.go register a client and subscribe it to their channel before the
-- pumps start.
unfoldable pub open_socket :
    Snapshots → (Text → Option ClientMessage) → Text → ℕ → List Text → List Action
open_socket cache client_message channel c messages =
    registers c ∷ subscription cache c channel ++ read_pump cache client_message c messages

-- The callback that `NewHub` gives to the cache.
abbrev message_to : Text → Option Text → List Action
message_to channel none = []
message_to channel (some snapshot) = broadcasts channel snapshot ∷ []

unfoldable pub on_change : Snapshots → Text → List Action
on_change cache trader =
    message_to (codes "trader:" ++ trader) (cache.of_trader trader)
    ++ message_to (codes "trades:all") cache.of_all
