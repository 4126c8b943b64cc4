-- ===== src/Wsgateway/Hub/Lifecycle.antt =====
-- The shutdown of the hub and the histories of its steps (internal/wsgateway/hub.go and client.go).
use lumen_liquid_backend.Base.{
  ℕ, ◌≡◌, true, false, Option, none, some, List, [], ◌∷◌, All, nat_eq, text_eq,
}
use lumen_liquid_backend.Base.Text.{Text}
use lumen_liquid_backend.Wsgateway.Hub.{
  Hub, new_hub, put, has_room, close_send, subscribers, broadcast, register, unregister, join,
  send_snapshot, new_send, unsubscribe,
}
use lumen_liquid_backend.Wsgateway.Hub.Broadcast.{NoneTwice}

-- `closeAll`, where the loop meets the registered clients in the given order.
unfoldable pub close_each : List ℕ → Hub → Option Hub
close_each [] h = some h
close_each (c ∷ cs) h = elim (close_send c h) [ none ↦ none | some k ↦ close_each cs k ]

unfoldable pub close_all : List ℕ → Hub → Option Hub
close_all order h = elim (close_each order h) [
  | none ↦ none
  | some k ↦ some (record k { clients = λ c. false; subscriptions = [] })
]

abbrev rest_of : List Text → List Text
rest_of [] = []
rest_of (p ∷ ps) = ps

-- `WritePump` takes the first message of its client's queue.
unfoldable pub take_message : ℕ → Hub → Option Hub
take_message c h =
    some (record h {
      sends = put c (record (h.sends c) { queue = rest_of (h.sends c).queue }) h.sends;
    })

-- What the goroutines of the gateway do to the hub.
pub data Action : Type 0 where
  registers unregisters writes : ℕ → Action
  joins : ℕ → Text → Action
  greets : ℕ → Option Text → Action
  unsubscribes : ℕ → Text → Action
  broadcasts : Text → Text → Action
  shuts_down : List ℕ → Action

unfoldable pub act : Action → Hub → Option Hub
act (registers c) h = register c h
act (unregisters c) h = unregister c h
act (writes c) h = take_message c h
act (joins c channel) h = some (join c channel h)
act (greets c snapshot) h = send_snapshot c snapshot h
act (unsubscribes c channel) h = unsubscribe c channel h
act (broadcasts channel p) h = broadcast channel p h
act (shuts_down order) h = close_all order h

-- A client registers with the channel that `NewClient` made, and the two steps of its `Subscribe` run
-- while it is registered. The code does not make sure of the latter: a client that was dropped, or
-- that outlives the shutdown, can still call `Subscribe`. The loop at the shutdown meets each
-- registered client once.
abbrev pub IsPossible : Action → Hub → Type 0
IsPossible (registers c) h = h.sends c ≡ new_send
IsPossible (joins c channel) h = h.clients c ≡ true
IsPossible (greets c snapshot) h = h.clients c ≡ true
IsPossible (shuts_down order) h = NoneTwice order × All (λ c. h.clients c ≡ true) order
IsPossible a h = Unit

-- Each subscriber of a broadcast has room in its queue.
abbrev pub HasRoom : Action → Hub → Type 0
HasRoom (broadcasts channel p) h = All (λ c. has_room (h.sends c) ≡ true) (subscribers channel h)
HasRoom a h = Unit

-- The hubs that are reached from the first one without a full queue.
pub data Reach : Hub → Type 0 where
  at_start : Reach new_hub
  step :
      {h k : Hub} (a : Action) → Reach h → IsPossible a h → HasRoom a h → act a h ≡ some k → Reach k
