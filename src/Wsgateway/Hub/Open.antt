-- ===== src/Wsgateway/Hub/Open.antt =====
-- The steps of one client keep every subscribed or registered client's channel open
-- (internal/wsgateway/hub.go).
use lumen_liquid_backend.Base.{
  ℕ, ◌≡◌, refl, sym, ap, subst, ◌∙◌, true, false, inl, inr, Option, none, some, List, ◌==◌, nat_eq,
  text_eq, nat_beq_iff, arith, Bool-cases, Option-cases,
}
use lumen_liquid_backend.Base.Text.{Text}
use lumen_liquid_backend.Base.Assoc.{lookup, insert, lookup-insert}
use lumen_liquid_backend.Wsgateway.Cache.{list_of}
use lumen_liquid_backend.Wsgateway.Hub.{
  Send, Hub, put, has_room, pushed, send_snapshot, subscribers, register, without, with_member,
  join, unsubscribe,
}
use lumen_liquid_backend.Wsgateway.Hub.Broadcast.{NoneTwice, AllOpen}
use lumen_liquid_backend.Wsgateway.Hub.Lifecycle.{
  take_message, Action, registers, writes, joins, greets, unsubscribes, act, HasRoom,
}
use lumen_liquid_backend.Wsgateway.Hub.Members.{
  member-without, without-NoneTwice, with_member-NoneTwice, member-with_member,
}

-- No client subscribes twice to a channel, and every client that is subscribed or registered has an
-- open channel.
pub record IsOpen (h : Hub) : Type 0 where
  pub once : (channel : Text) → NoneTwice (subscribers channel h)
  pub subscribed : (channel : Text) → AllOpen h (subscribers channel h)
  pub registered : (c : ℕ) → h.clients c ≡ true → (h.sends c).closed ≡ false

-- A change of the queues alone.
pub same_closed :
    (h : Hub) (sends : ℕ → Send)
    → IsOpen h
    → ((d : ℕ) → (sends d).closed ≡ (h.sends d).closed)
    → IsOpen (record h { sends = sends })
same_closed h sends i same = record {
  once = i.once;
  subscribed = λ channel d m. same d ∙ i.subscribed channel d m;
  registered = λ c m. same c ∙ i.registered c m;
}

pub put_closed :
    (c d : ℕ) (x : Send) (f : ℕ → Send)
    → x.closed ≡ (f c).closed
    → (put c x f d).closed ≡ (f d).closed
unfolding put
put_closed c d x f e = elim (Bool-cases (d == c)) [
  | inl same ↦ rw same (e ∙ ap (λ z. (f z).closed) (sym ((nat_beq_iff d c).0 same)))
  | inr other ↦ rw other refl
]

-- A change of the subscribers of one channel.
resubscribed :
    (channel : Text) (cs : List ℕ) (h : Hub)
    → IsOpen h
    → NoneTwice cs
    → AllOpen h cs
    → IsOpen (record h { subscriptions = insert channel cs h.subscriptions })
resubscribed channel cs h i u o = record {
  once = λ name. elim (Bool-cases (channel == name)) [
    | inl same ↦ rw (lookup-insert channel name cs h.subscriptions, same) u
    | inr other ↦ rw (lookup-insert channel name cs h.subscriptions, other) (i.once name)
  ];
  subscribed = λ name. elim (Bool-cases (channel == name)) [
    | inl same ↦ rw (lookup-insert channel name cs h.subscriptions, same) o
    | inr other ↦ rw (lookup-insert channel name cs h.subscriptions, other) (i.subscribed name)
  ];
  registered = i.registered;
}

-- What an action that is possible comes to: it does not panic, and with room it keeps the hub open.
abbrev pub GoesOn : Action → Hub → Type 0
GoesOn a h = (k : Hub) × ((act a h ≡ some k) × (HasRoom a h → IsOpen k))

newly_registered :
    (c d : ℕ) (h : Hub)
    → IsOpen h
    → (h.sends c).closed ≡ false
    → put c true h.clients d ≡ true
    → (h.sends d).closed ≡ false
unfolding put
newly_registered c d h i o m = elim (Bool-cases (d == c)) [
  | inl same ↦ ap (λ z. (h.sends z).closed) ((nat_beq_iff d c).0 same) ∙ o
  | inr other ↦ i.registered d (rw (put, other) at m)
]

pub registers-GoesOn :
    (c : ℕ) (h : Hub) → IsOpen h → (h.sends c).closed ≡ false → GoesOn (registers c) h
unfolding act register put
registers-GoesOn c h i o = (
  record h { clients = put c true h.clients },
  (
    refl,
    λ room. record {
      once = i.once;
      subscribed = i.subscribed;
      registered = λ d m. newly_registered c d h i o m;
    },
  ),
)

pub writes-GoesOn : (c : ℕ) (h : Hub) → IsOpen h → GoesOn (writes c) h
unfolding act take_message put
writes-GoesOn c h i = (_, (refl, λ room. same_closed h _ i (λ d. put_closed c d _ h.sends refl)))

without-AllOpen : (c : ℕ) (cs : List ℕ) (h : Hub) → AllOpen h cs → AllOpen h (without c cs)
without-AllOpen c cs h o d m = o d (ground (arith, member-without c d cs))

pub unsubscribes-GoesOn :
    (c : ℕ) (channel : Text) (h : Hub) → IsOpen h → GoesOn (unsubscribes c channel) h
unfolding act unsubscribe
unsubscribes-GoesOn c channel h i = elim (Option-cases (lookup channel h.subscriptions)) [
  | inl none_yet ↦ (h, (rw (act, unsubscribe, none_yet) refl, λ room. i))
  | inr (cs, e) ↦ (
    record h { subscriptions = insert channel (without c cs) h.subscriptions },
    (
      rw (act, unsubscribe, e) refl,
      λ room.
          resubscribed channel (without c cs) h i
            (without-NoneTwice c cs (subst (λ o. NoneTwice (list_of o)) e (i.once channel)))
            (without-AllOpen c cs h (subst (λ o. AllOpen h (list_of o)) e (i.subscribed channel))),
    ),
  )
]

with_member-AllOpen :
    (c : ℕ) (cs : List ℕ) (h : Hub)
    → AllOpen h cs
    → (h.sends c).closed ≡ false
    → AllOpen h (with_member c cs)
with_member-AllOpen c cs h o e d m = elim (Bool-cases (d == c)) [
  | inl same ↦ ap (λ z. (h.sends z).closed) ((nat_beq_iff d c).0 same) ∙ e
  | inr other ↦ o d (rw other at (member-with_member c d cs m))
]

-- The snapshot on a subscription goes to an open channel, or is left out.
send_snapshot-GoesOn :
    (c : ℕ) (snapshot : Option Text) (h : Hub)
    → IsOpen h
    → (h.sends c).closed ≡ false
    → (k : Hub) × ((send_snapshot c snapshot h ≡ some k) × IsOpen k)
unfolding send_snapshot
send_snapshot-GoesOn c none h i o = (h, (refl, i))
send_snapshot-GoesOn c (some p) h i o = elim (Bool-cases (has_room (h.sends c))) [
  | inl room ↦ (
    record h { sends = put c (pushed p (h.sends c)) h.sends },
    (rw (o, room) refl, same_closed h _ i (λ d. put_closed c d _ h.sends refl)),
  )
  | inr full ↦ (h, (rw (o, full) refl, i))
]

pub joins-GoesOn :
    (c : ℕ) (channel : Text) (h : Hub) → IsOpen h → h.clients c ≡ true → GoesOn (joins c channel) h
unfolding act join
joins-GoesOn c channel h i known =
    let now =
      resubscribed channel (with_member c (subscribers channel h)) h i
        (with_member-NoneTwice c (subscribers channel h) (i.once channel))
        (with_member-AllOpen c (subscribers channel h) h (i.subscribed channel)
          (i.registered c known)) in
    (join c channel h, (refl, λ room. now))

pub greets-GoesOn :
    (c : ℕ) (snapshot : Option Text) (h : Hub)
    → IsOpen h
    → h.clients c ≡ true
    → GoesOn (greets c snapshot) h
unfolding act
greets-GoesOn c snapshot h i known =
    let (k, (runs, open_k)) = send_snapshot-GoesOn c snapshot h i (i.registered c known) in
    (k, (runs, λ room. open_k))
