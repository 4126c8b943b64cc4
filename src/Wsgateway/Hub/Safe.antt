-- ===== src/Wsgateway/Hub/Safe.antt =====
-- As long as no queue runs full the hub never panics (internal/wsgateway/hub.go).
use lumen_liquid_backend.Base.{
  ℕ, ◌≡◌, refl, sym, ap, subst, ◌∙◌, Bool, true, false, inl, inr, some, List, [], ◌∷◌, All, ◌==◌,
  ==_refl, nat_eq, text_eq, nat_beq_iff, if◌then◌else◌, arith, Bool-cases,
}
use lumen_liquid_backend.Base.Text.{Text}
use lumen_liquid_backend.Base.Assoc.{lookup}
use lumen_liquid_backend.Wsgateway.Cache.{list_of}
use lumen_liquid_backend.Wsgateway.Hub.{
  Send, Hub, new_hub, put, has_room, shut, close_send, drop_client, subscribers, without_everywhere,
  drop_subscriptions, unregister,
}
use lumen_liquid_backend.Wsgateway.Hub.Broadcast.{
  member, NoneTwice, AllOpen, offered, Delivered, Delivered-fewer, broadcast-Delivered,
}
use lumen_liquid_backend.Wsgateway.Hub.Lifecycle.{
  close_each, close_all, Action, registers, unregisters, writes, joins, greets, unsubscribes,
  broadcasts, shuts_down, act, IsPossible, HasRoom, Reach, at_start, step,
}
use lumen_liquid_backend.Wsgateway.Hub.Members.{
  member-without, without-NoneTwice, lookup-without_everywhere,
}
use lumen_liquid_backend.Wsgateway.Hub.Open.{
  IsOpen, GoesOn, registers-GoesOn, writes-GoesOn, unsubscribes-GoesOn, joins-GoesOn, greets-GoesOn,
}

other_than :
    (c d : ℕ) (b : Bool) → (if d == c then false else b) ≡ true → ((d == c) ≡ false) × (b ≡ true)
other_than c d b h = ground arith

others_open :
    (c d : ℕ) (x : Send) (h : Hub)
    → (d == c) ≡ false
    → (h.sends d).closed ≡ false
    → (put c x h.sends d).closed ≡ false
unfolding put
others_open c d x h other o = rw (put, other) o

stays_member :
    (c d : ℕ) (channel : Text) (h : Hub)
    → member d (list_of (lookup channel (without_everywhere c h.subscriptions))) ≡ true
    → ((d == c) ≡ false) × (member d (subscribers channel h) ≡ true)
stays_member c d channel h m = other_than c d (member d (subscribers channel h)) (
    sym (member-without c d (subscribers channel h))
    ∙ sym (ap (member d) (lookup-without_everywhere c channel h.subscriptions))
    ∙ m)

stays_client :
    (c d : ℕ) (h : Hub) → put c false h.clients d ≡ true → ((d == c) ≡ false) × (h.clients d ≡ true)
unfolding put
stays_client c d h m = other_than c d (h.clients d) m

unfoldable pub left : (c : ℕ) (h : Hub) → Hub
left c h =
    drop_subscriptions c (record (drop_client c h) { sends = put c (shut (h.sends c)) h.sends })

pub left-IsOpen : (c : ℕ) (h : Hub) → IsOpen h → IsOpen (left c h)
unfolding left put
left-IsOpen c h i = record {
  once = λ channel.
      rw (lookup-without_everywhere c channel h.subscriptions)
        (without-NoneTwice c (subscribers channel h) (i.once channel));
  subscribed = λ channel d m.
      let (other, there) = stays_member c d channel h m in
      others_open c d _ h other (i.subscribed channel d there);
  registered = λ d m.
      let (other, there) = stays_client c d h m in others_open c d _ h other (i.registered d there);
}

pub unregisters-left :
    (c : ℕ) (h : Hub) → IsOpen h → h.clients c ≡ true → act (unregisters c) h ≡ some (left c h)
unfolding act unregister close_send left
unregisters-left c h i known = rw (act, unregister, known, close_send, i.registered c known) refl

unregisters-GoesOn : (c : ℕ) (h : Hub) → IsOpen h → GoesOn (unregisters c) h
unfolding act unregister
unregisters-GoesOn c h i = elim (Bool-cases (h.clients c)) [
  | inl known ↦ (left c h, (unregisters-left c h i known, λ room. left-IsOpen c h i))
  | inr unknown ↦ (h, (rw (act, unregister, unknown) refl, λ room. i))
]

member-room :
    (cs : List ℕ) (d : ℕ) (h : Hub)
    → All (λ c. has_room (h.sends c) ≡ true) cs
    → member d cs ≡ true
    → has_room (h.sends d) ≡ true
member-room [] d h a m = absurd (cc m)
member-room (c ∷ cs) d h a m = elim (Bool-cases (c == d)) [
  | inl same ↦ ap (λ z. has_room (h.sends z)) (sym ((nat_beq_iff c d).0 same)) ∙ a.0
  | inr other ↦ member-room cs d h a.1 (rw other at m)
]

offered_closed : (p : Text) (s : Send) → has_room s ≡ true → (offered p s).closed ≡ s.closed
offered_closed p s r = rw r refl

Delivered-closed :
    (cs : List ℕ) (p : Text) (h k : Hub) (d : ℕ)
    → Delivered cs p h k
    → All (λ c. has_room (h.sends c) ≡ true) cs
    → (k.sends d).closed ≡ (h.sends d).closed
Delivered-closed cs p h k d done room = elim (Bool-cases (member d cs)) [
  | inl there ↦
      ap (λ s. s.closed) (done.each d)
      ∙ rw there (offered_closed p (h.sends d) (member-room cs d h room there))
  | inr elsewhere ↦ ap (λ s. s.closed) (done.each d) ∙ rw elsewhere refl
]

Delivered-IsOpen :
    (channel p : Text) (h k : Hub)
    → IsOpen h
    → Delivered (subscribers channel h) p h k
    → HasRoom (broadcasts channel p) h
    → IsOpen k
Delivered-IsOpen channel p h k i done room = record {
  once = λ name. subst (λ m. NoneTwice (list_of (lookup name m))) (sym done.same) (i.once name);
  subscribed = λ name d m.
      Delivered-closed (subscribers channel h) p h k d done room
      ∙ i.subscribed name d (subst (λ n. member d (list_of (lookup name n)) ≡ true) done.same m);
  registered = λ d m.
      Delivered-closed (subscribers channel h) p h k d done room
      ∙ i.registered d (Delivered-fewer (subscribers channel h) p h k d done m);
}

broadcasts-GoesOn : (channel p : Text) (h : Hub) → IsOpen h → GoesOn (broadcasts channel p) h
unfolding act
broadcasts-GoesOn channel p h i =
    let (k, (runs, done)) =
      broadcast-Delivered channel p h (i.once channel) (i.subscribed channel) in
    (k, (runs, λ room. Delivered-IsOpen channel p h k i done room))

rest_open :
    (c : ℕ) (cs : List ℕ) (h : Hub)
    → NoneTwice (c ∷ cs)
    → AllOpen h (c ∷ cs)
    → AllOpen (record h { sends = put c (shut (h.sends c)) h.sends }) cs
rest_open c cs h u o d m = elim (Bool-cases (d == c)) [
  | inl same ↦ absurd (ground (arith, nat_beq_iff d c, u.0))
  | inr other ↦ others_open c d _ h other (o d (ground arith))
]

close_each-runs :
    (order : List ℕ) (h : Hub)
    → NoneTwice order
    → AllOpen h order
    → (k : Hub) × (close_each order h ≡ some k)
unfolding close_each close_send
close_each-runs [] h u o = (h, refl)
close_each-runs (c ∷ cs) h u o =
    let (k, runs) =
      close_each-runs cs (record h { sends = put c (shut (h.sends c)) h.sends }) u.1
        (rest_open c cs h u o) in
    (k, rw (close_each, close_send, o c (rw (==_refl c) refl)) runs)

All-members :
    (order : List ℕ) (h : Hub) → IsOpen h → All (λ c. h.clients c ≡ true) order → AllOpen h order
All-members [] h i a d m = absurd (cc m)
All-members (c ∷ cs) h i a d m = elim (Bool-cases (c == d)) [
  | inl same ↦ ap (λ z. (h.sends z).closed) (sym ((nat_beq_iff c d).0 same)) ∙ i.registered c a.0
  | inr other ↦ All-members cs h i a.1 d (rw other at m)
]

shuts_down-GoesOn :
    (order : List ℕ) (h : Hub)
    → IsOpen h
    → IsPossible (shuts_down order) h
    → GoesOn (shuts_down order) h
unfolding act close_all lookup
shuts_down-GoesOn order h i (u, a) =
    let (k, runs) = close_each-runs order h u (All-members order h i a) in
    (
      record k { clients = λ c. false; subscriptions = [] },
      (
        rw (act, close_all, runs) refl,
        λ room. record {
          once = λ channel. tt;
          subscribed = λ channel d m. absurd (cc m);
          registered = λ d m. absurd (cc m);
        },
      ),
    )

act-GoesOn : (a : Action) (h : Hub) → IsOpen h → IsPossible a h → GoesOn a h
act-GoesOn (registers c) h i possible = registers-GoesOn c h i (ap (λ x. x.closed) possible)
act-GoesOn (unregisters c) h i possible = unregisters-GoesOn c h i
act-GoesOn (writes c) h i possible = writes-GoesOn c h i
act-GoesOn (joins c channel) h i possible = joins-GoesOn c channel h i possible
act-GoesOn (greets c snapshot) h i possible = greets-GoesOn c snapshot h i possible
act-GoesOn (unsubscribes c channel) h i possible = unsubscribes-GoesOn c channel h i
act-GoesOn (broadcasts channel p) h i possible = broadcasts-GoesOn channel p h i
act-GoesOn (shuts_down order) h i possible = shuts_down-GoesOn order h i possible

pub new_hub-IsOpen : IsOpen new_hub
unfolding new_hub lookup
new_hub-IsOpen = record {
  once = λ channel. tt;
  subscribed = λ channel d m. absurd (cc m);
  registered = λ d m. absurd (cc m);
}

same_hub : {h k : Hub} → some h ≡ some k → h ≡ k
same_hub e = cc e

Reach-IsOpen : (h : Hub) → Reach h → IsOpen h
Reach-IsOpen h at_start = new_hub-IsOpen
Reach-IsOpen k (step {h = h} a r possible room runs) =
    let (other, (goes, stays)) = act-GoesOn a h (Reach-IsOpen h r) possible in
    subst IsOpen (same_hub (sym goes ∙ runs)) (stays room)

-- In every hub that is reached from the first one, through steps of its clients, of the cache and of
-- the shutdown that never find a subscriber's queue full and where a client registers with a new
-- channel and runs the two steps of `Subscribe` while it is registered only, no client is subscribed
-- twice to a channel and every client that is subscribed or registered has an open channel; and no
-- next step of this kind panics, a broadcast to full queues included.
pub Reach-no_panic :
    (a : Action) (h : Hub) → Reach h → IsPossible a h → IsOpen h × ((k : Hub) × (act a h ≡ some k))
Reach-no_panic a h r possible =
    let i = Reach-IsOpen h r in let (k, (runs, stays)) = act-GoesOn a h i possible in (i, (k, runs))
