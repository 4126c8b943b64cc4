-- ===== src/Wsgateway/Hub.antt =====
-- internal/wsgateway/hub.go: the clients, their subscriptions and the queue of each client's `send`
-- channel. A client is a number; `none` is the panic of Go on a send to a closed channel or on a
-- second close. Each case of the loop in `Run`, and each method that a client's goroutine calls, is
-- one step; a set of subscribers is the list of them in the order that the loop meets them.
pub mod Broadcast
pub mod Overflow
pub mod Lifecycle
pub mod Members
pub mod Open
pub mod Safe
use lumen_liquid_backend.Base.{
  ℕ, Bool, true, false, Option, none, some, List, [], ◌∷◌, ◌++◌, if◌then◌else◌, Eq, ◌==◌, ltb,
  length, any, keep, nat_eq, text_eq, not,
}
use lumen_liquid_backend.Base.Text.{Text}
use lumen_liquid_backend.Base.Assoc.{Map, lookup, insert}
use lumen_liquid_backend.Wsgateway.Cache.{list_of}

pub record Send : Type 0 where
  pub queue : List Text
  pub closed : Bool

pub record Hub : Type 0 where
  pub clients : ℕ → Bool
  pub sends : ℕ → Send
  pub subscriptions : Map Text (List ℕ)

-- `make(chan []byte, 256)` in internal/wsgateway/client.go
abbrev pub send_capacity : ℕ
send_capacity = 256

abbrev pub new_send : Send
new_send = record { queue = []; closed = false }

unfoldable pub new_hub : Hub
new_hub = record { clients = λ c. false; sends = λ c. new_send; subscriptions = [] }

module _ {A : Type 0} where
  unfoldable pub put : ℕ → A → (ℕ → A) → ℕ → A
  put c x f d = if d == c then x else f d

abbrev pub has_room : Send → Bool
has_room s = ltb (length s.queue) send_capacity

abbrev pub pushed : Text → Send → Send
pushed p s = record s { queue = s.queue ++ p ∷ [] }

abbrev pub shut : Send → Send
shut s = record s { closed = true }

-- `close(client.send)`
unfoldable pub close_send : ℕ → Hub → Option Hub
close_send c h =
    if (h.sends c).closed
    then none
    else some (record h { sends = put c (shut (h.sends c)) h.sends })

-- `delete(h.clients, client)`
abbrev pub drop_client : ℕ → Hub → Hub
drop_client c h = record h { clients = put c false h.clients }

-- The `select` of a broadcast: a client whose queue is full is closed and dropped.
unfoldable pub send_or_drop : ℕ → Text → Hub → Option Hub
send_or_drop c p h =
    if (h.sends c).closed
    then none
    else some (
        if has_room (h.sends c)
        then record h { sends = put c (pushed p (h.sends c)) h.sends }
        else drop_client c (record h { sends = put c (shut (h.sends c)) h.sends }))

-- The `select` of `Subscribe`: a snapshot that finds the queue full is left out.
unfoldable pub send_snapshot : ℕ → Option Text → Hub → Option Hub
send_snapshot c none h = some h
send_snapshot c (some p) h =
    if (h.sends c).closed
    then none
    else some (
        if has_room (h.sends c)
        then record h { sends = put c (pushed p (h.sends c)) h.sends }
        else h)

unfoldable pub deliver : List ℕ → Text → Hub → Option Hub
deliver [] p h = some h
deliver (c ∷ cs) p h = elim (send_or_drop c p h) [ none ↦ none | some k ↦ deliver cs p k ]

abbrev pub subscribers : Text → Hub → List ℕ
subscribers channel h = list_of (lookup channel h.subscriptions)

unfoldable pub broadcast : Text → Text → Hub → Option Hub
broadcast channel p h = deliver (subscribers channel h) p h

unfoldable pub register : ℕ → Hub → Option Hub
register c h = some (record h { clients = put c true h.clients })

abbrev pub without : ℕ → List ℕ → List ℕ
without c cs = keep (λ d. not (d == c)) cs

abbrev pub without_everywhere : ℕ → Map Text (List ℕ) → Map Text (List ℕ)
without_everywhere c [] = []
without_everywhere c ((channel, cs) ∷ m) = (channel, without c cs) ∷ without_everywhere c m

abbrev pub drop_subscriptions : ℕ → Hub → Hub
drop_subscriptions c h = record h { subscriptions = without_everywhere c h.subscriptions }

unfoldable pub unregister : ℕ → Hub → Option Hub
unregister c h =
    if h.clients c
    then elim (close_send c (drop_client c h)) [
      | none ↦ none
      | some k ↦ some (drop_subscriptions c k)
    ]
    else some h

abbrev pub with_member : ℕ → List ℕ → List ℕ
with_member c cs = if any (λ d. d == c) cs then cs else cs ++ c ∷ []

-- The part of `Subscribe` under the lock; `send_snapshot` comes after the lock is released.
unfoldable pub join : ℕ → Text → Hub → Hub
join c channel h = record h {
  subscriptions = insert channel (with_member c (subscribers channel h)) h.subscriptions;
}

unfoldable pub unsubscribe : ℕ → Text → Hub → Option Hub
unsubscribe c channel h = elim (lookup channel h.subscriptions) [
  | none ↦ some h
  | some cs ↦ some (record h { subscriptions = insert channel (without c cs) h.subscriptions })
]
