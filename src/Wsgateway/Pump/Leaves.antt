-- ===== src/Wsgateway/Pump/Leaves.antt =====
-- A whole connection of the gateway, from its registration to its end (internal/wsgateway/client.go,
-- hub.go and the handlers of cmd/api/main.go).
use lumen_liquid_backend.Base.{
  ℕ, ◌≡◌, refl, sym, ap, subst, ◌∙◌, true, false, inl, inr, Option, none, some, List, [], ◌∷◌, ◌++◌,
  ◌==◌, ==_refl, nat_eq, text_eq, if◌then◌else◌, arith, Bool-cases, Option-cases,
}
use lumen_liquid_backend.Base.Text.{Text, codes}
use lumen_liquid_backend.Base.Assoc.{lookup}
use lumen_liquid_backend.Wsgateway.Hub.{
  Hub, put, has_room, send_snapshot, join, unsubscribe, subscribers, register,
}
use lumen_liquid_backend.Wsgateway.Hub.Broadcast.{member}
use lumen_liquid_backend.Wsgateway.Hub.Lifecycle.{
  Action, registers, unregisters, joins, greets, unsubscribes, act,
}
use lumen_liquid_backend.Wsgateway.Hub.Members.{member-without, lookup-without_everywhere}
use lumen_liquid_backend.Wsgateway.Hub.Open.{
  IsOpen, registers-GoesOn, joins-GoesOn, greets-GoesOn, unsubscribes-GoesOn,
}
use lumen_liquid_backend.Wsgateway.Hub.Safe.{left, left-IsOpen, unregisters-left}
use lumen_liquid_backend.Wsgateway.Pump.{
  ClientMessage, Snapshots, channel_snapshot, subscription, command, read_pump, open_socket,
}

-- The actions one after the other; `none` once one panics.
unfoldable pub run_actions : List Action → Hub → Option Hub
run_actions [] h = some h
run_actions (a ∷ as') h = elim (act a h) [ none ↦ none | some k ↦ run_actions as' k ]

-- The client is gone: not registered, and in no channel's set of subscribers.
pub record IsGone (c : ℕ) (h : Hub) : Type 0 where
  pub unknown : h.clients c ≡ false
  pub absent : (channel : Text) → member c (subscribers channel h) ≡ false

left-IsGone : (c : ℕ) (h : Hub) → IsGone c (left c h)
unfolding left put
left-IsGone c h = record {
  unknown = ground arith;
  absent = λ channel.
      ap (member c) (lookup-without_everywhere c channel h.subscriptions)
      ∙ member-without c c (subscribers channel h)
      ∙ ground arith;
}

same_hub : {h k : Hub} → some h ≡ some k → h ≡ k
same_hub e = cc e

send_snapshot-clients :
    (c : ℕ) (snapshot : Option Text) (h k : Hub)
    → send_snapshot c snapshot h ≡ some k
    → k.clients ≡ h.clients
unfolding send_snapshot
send_snapshot-clients c none h k e = ap (λ x. x.clients) (sym (same_hub e))
send_snapshot-clients c (some p) h k e = elim (Bool-cases (h.sends c).closed) [
  | inl closed ↦ absurd (cc (rw (send_snapshot, closed) at e))
  | inr open_now ↦ elim (Bool-cases (has_room (h.sends c))) [
    | inl room ↦ ap (λ x. x.clients) (sym (same_hub (rw (send_snapshot, open_now, room) at e)))
    | inr full ↦ ap (λ x. x.clients) (sym (same_hub (rw (send_snapshot, open_now, full) at e)))
  ]
]

unsubscribe-clients :
    (c : ℕ) (channel : Text) (h k : Hub) → unsubscribe c channel h ≡ some k → k.clients ≡ h.clients
unfolding unsubscribe
unsubscribe-clients c channel h k e = elim (Option-cases (lookup channel h.subscriptions)) [
  | inl none_yet ↦ ap (λ x. x.clients) (sym (same_hub (rw (unsubscribe, none_yet) at e)))
  | inr (cs, found) ↦ ap (λ x. x.clients) (sym (same_hub (rw (unsubscribe, found) at e)))
]

-- The actions run without a panic, and leave the hub open and the client gone.
abbrev pub Ends : ℕ → List Action → Hub → Type 0
Ends c actions h = (k : Hub) × ((run_actions actions h ≡ some k) × (IsOpen k × IsGone c k))

first_action :
    (c : ℕ) (a : Action) (rest : List Action) (h k : Hub)
    → act a h ≡ some k
    → Ends c rest k
    → Ends c (a ∷ rest) h
unfolding run_actions
first_action c a rest h k e (last, (runs, more)) = (last, (rw (run_actions, e) runs, more))

-- The hub is open, and the client is registered.
pub record IsServed (c : ℕ) (h : Hub) : Type 0 where
  pub is_open : IsOpen h
  pub known : h.clients c ≡ true

joins-Ends :
    (c : ℕ) (channel : Text) (rest : List Action) (h : Hub)
    → IsServed c h
    → ((k : Hub) → IsServed c k → Ends c rest k)
    → Ends c (joins c channel ∷ rest) h
unfolding act join
joins-Ends c channel rest h s next =
    let (k, (runs, stays)) = joins-GoesOn c channel h s.is_open s.known in
    first_action c _ rest h k runs (
      next k (record {
        is_open = stays tt;
        known = ap (λ x. x.clients c) (sym (same_hub runs)) ∙ s.known;
      }))

greets-Ends :
    (c : ℕ) (snapshot : Option Text) (rest : List Action) (h : Hub)
    → IsServed c h
    → ((k : Hub) → IsServed c k → Ends c rest k)
    → Ends c (greets c snapshot ∷ rest) h
unfolding act
greets-Ends c snapshot rest h s next =
    let (k, (runs, stays)) = greets-GoesOn c snapshot h s.is_open s.known in
    let same = send_snapshot-clients c snapshot h k runs in
    first_action c _ rest h k runs
      (next k (record { is_open = stays tt; known = ap (λ f. f c) same ∙ s.known }))

subscription-Ends :
    (cache : Snapshots) (c : ℕ) (channel : Text) (rest : List Action) (h : Hub)
    → IsServed c h
    → ((k : Hub) → IsServed c k → Ends c rest k)
    → Ends c (subscription cache c channel ++ rest) h
subscription-Ends cache c channel rest h s next =
    joins-Ends c channel _ h s λ k t. greets-Ends c (channel_snapshot cache channel) rest k t next

unsubscribes-Ends :
    (c : ℕ) (channel : Text) (rest : List Action) (h : Hub)
    → IsServed c h
    → ((k : Hub) → IsServed c k → Ends c rest k)
    → Ends c (unsubscribes c channel ∷ rest) h
unfolding act
unsubscribes-Ends c channel rest h s next =
    let (k, (runs, stays)) = unsubscribes-GoesOn c channel h s.is_open in
    let same = unsubscribe-clients c channel h k runs in
    first_action c _ rest h k runs
      (next k (record { is_open = stays tt; known = ap (λ f. f c) same ∙ s.known }))

module _ (cache : Snapshots) (c : ℕ) (rest : List Action) (h : Hub) (s : IsServed c h) where
  to_subscribe-Ends :
      (channel : Text)
      → ((k : Hub) → IsServed c k → Ends c rest k)
      → Ends c ((if channel == [] then [] else subscription cache c channel) ++ rest) h
  to_subscribe-Ends channel next = elim (Bool-cases (channel == [])) [
    | inl empty ↦ rw empty (next h s)
    | inr named ↦ rw named (subscription-Ends cache c channel rest h s next)
  ]

  to_unsubscribe-Ends :
      (channel : Text)
      → ((k : Hub) → IsServed c k → Ends c rest k)
      → Ends c ((if channel == [] then [] else unsubscribes c channel ∷ []) ++ rest) h
  to_unsubscribe-Ends channel next = elim (Bool-cases (channel == [])) [
    | inl empty ↦ rw empty (next h s)
    | inr named ↦ rw named (unsubscribes-Ends c channel rest h s next)
  ]

  command-Ends :
      (msg : Option ClientMessage)
      → ((k : Hub) → IsServed c k → Ends c rest k)
      → Ends c (command cache c msg ++ rest) h
  command-Ends none next = next h s
  command-Ends (some msg) next = elim (Bool-cases (msg.type == codes "subscribe")) [
    | inl asked ↦ rw asked (to_subscribe-Ends msg.channel next)
    | inr other ↦ elim (Bool-cases (msg.type == codes "unsubscribe")) [
      | inl asked ↦ rw (other, asked) (to_unsubscribe-Ends msg.channel next)
      | inr unknown ↦ rw (other, unknown) (next h s)
    ]
  ]

module _ (cache : Snapshots) (client_message : Text → Option ClientMessage) (c : ℕ) where
  read_pump-Ends :
      (messages : List Text) (h : Hub)
      → IsServed c h
      → Ends c (read_pump cache client_message c messages) h
  unfolding read_pump run_actions
  read_pump-Ends [] h s =
      first_action c (unregisters c) [] h (left c h) (unregisters-left c h s.is_open s.known)
        (left c h, (refl, (left-IsOpen c h s.is_open, left-IsGone c h)))
  read_pump-Ends (m ∷ ms) h s =
      command-Ends cache c _ h s (client_message m) (λ k t. read_pump-Ends ms k t)

  -- The connection of a client whose channel is open, to a hub in which every subscribed or
  -- registered client's channel is open, does not panic on any messages, known or not, if nothing
  -- else acts on the hub meanwhile. When it ends the client is neither registered nor subscribed to
  -- any channel, and every other subscribed or registered client's channel is still open.
  pub open_socket-Ends :
      (channel : Text) (messages : List Text) (h : Hub)
      → IsOpen h
      → (h.sends c).closed ≡ false
      → Ends c (open_socket cache client_message channel c messages) h
  unfolding open_socket act register put
  open_socket-Ends channel messages h i o =
      let (k, (runs, stays)) = registers-GoesOn c h i o in
      first_action c (registers c) _ h _ refl (
        subscription-Ends cache c channel _ _
          (record {
            is_open = subst IsOpen (same_hub (sym runs)) (stays tt);
            known = rw (==_refl c) refl;
          })
          (λ last s. read_pump-Ends messages last s))
