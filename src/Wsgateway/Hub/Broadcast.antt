-- ===== src/Wsgateway/Hub/Broadcast.antt =====
-- What a broadcast of internal/wsgateway/hub.go does to the queue of every client.
use lumen_liquid_backend.Base.{
  ℕ, ◌≡◌, refl, ◌∙◌, Bool, true, false, none, some, List, [], ◌∷◌, if◌then◌else◌, ◌==◌, any, nat_eq,
  nat_beq_iff, sym, subst, ap, text_eq, arith, Bool-cases, inl, inr, ==_refl,
}
use lumen_liquid_backend.Base.Text.{Text}
use lumen_liquid_backend.Wsgateway.Hub.{
  Send, Hub, has_room, pushed, shut, put, send_or_drop, deliver, subscribers, broadcast,
  drop_client,
}

abbrev pub member : ℕ → List ℕ → Bool
member d cs = any (λ c. c == d) cs

-- No client stands twice: the subscribers are the keys of a Go map.
abbrev pub NoneTwice : List ℕ → Type 0
NoneTwice [] = Unit
NoneTwice (c ∷ cs) = (member c cs ≡ false) × NoneTwice cs

abbrev pub AllOpen : Hub → List ℕ → Type 0
AllOpen h cs = (d : ℕ) → member d cs ≡ true → (h.sends d).closed ≡ false

-- What one subscriber's channel becomes.
abbrev pub offered : Text → Send → Send
offered p s = if has_room s then pushed p s else shut s

-- Whether one subscriber is still registered.
abbrev pub still : Send → Bool → Bool
still s b = if has_room s then b else false

-- The hub after the round for one open client.
abbrev offer : ℕ → Text → Hub → Hub
offer c p h =
    if has_room (h.sends c)
    then record h { sends = put c (pushed p (h.sends c)) h.sends }
    else drop_client c (record h { sends = put c (shut (h.sends c)) h.sends })

send_or_drop-open :
    (c : ℕ) (p : Text) (h : Hub)
    → (h.sends c).closed ≡ false
    → send_or_drop c p h ≡ some (offer c p h)
unfolding send_or_drop
send_or_drop-open c p h o = rw o refl

pub offer-sends :
    (c d : ℕ) (p : Text) (h : Hub)
    → (offer c p h).sends d ≡ (if d == c then offered p (h.sends c) else h.sends d)
unfolding put
offer-sends c d p h = elim (Bool-cases (has_room (h.sends c))) [
  | inl room ↦ rw room refl
  | inr full ↦ rw full refl
]

offer-subscriptions : (c : ℕ) (p : Text) (h : Hub) → (offer c p h).subscriptions ≡ h.subscriptions
offer-subscriptions c p h = elim (Bool-cases (has_room (h.sends c))) [
  | inl room ↦ rw room refl
  | inr full ↦ rw full refl
]

offer-clients :
    (c d : ℕ) (p : Text) (h : Hub)
    → (offer c p h).clients d ≡ (if d == c then still (h.sends c) (h.clients d) else h.clients d)
unfolding put
offer-clients c d p h = elim (Bool-cases (has_room (h.sends c))) [
  | inl room ↦ rw room (ground arith)
  | inr full ↦ rw full refl
]

head-member : (c : ℕ) (cs : List ℕ) → member c (c ∷ cs) ≡ true
head-member c cs = rw (==_refl c) refl

rest-AllOpen :
    (c : ℕ) (cs : List ℕ) (p : Text) (h : Hub)
    → NoneTwice (c ∷ cs)
    → AllOpen h (c ∷ cs)
    → AllOpen (offer c p h) cs
rest-AllOpen c cs p h u o d m = elim (Bool-cases (d == c)) [
  | inl same ↦ absurd (ground (arith, nat_beq_iff d c, u.0))
  | inr other ↦ rw (offer-sends c d p h, other) (o d (ground arith))
]

same_client : (d c : ℕ) → (d == c) ≡ true → d ≡ c
same_client d c h = ground (arith, nat_beq_iff d c)

other_client : (d c : ℕ) → (d == c) ≡ false → (c == d) ≡ false
other_client d c h = ground (arith, nat_beq_iff d c, nat_beq_iff c d)

offer-first :
    (c : ℕ) (cs : List ℕ) (p : Text) (h : Hub)
    → NoneTwice (c ∷ cs)
    → (if member c cs then offered p ((offer c p h).sends c) else (offer c p h).sends c)
      ≡ (if member c (c ∷ cs) then offered p (h.sends c) else h.sends c)
offer-first c cs p h u = rw (u.0, offer-sends c c p h, ==_refl c) refl

-- The round for `c` and then the others come to one offer for each.
offer-once :
    (c d : ℕ) (cs : List ℕ) (p : Text) (h : Hub)
    → NoneTwice (c ∷ cs)
    → (if member d cs then offered p ((offer c p h).sends d) else (offer c p h).sends d)
      ≡ (if member d (c ∷ cs) then offered p (h.sends d) else h.sends d)
offer-once c d cs p h u = elim (Bool-cases (d == c)) [
  | inl same ↦
      subst
        (λ x.
          (if member x cs then offered p ((offer c p h).sends x) else (offer c p h).sends x)
          ≡ (if member x (c ∷ cs) then offered p (h.sends x) else h.sends x))
        (sym (same_client d c same)) (offer-first c cs p h u)
  | inr other ↦ rw (offer-sends c d p h, other, other_client d c other) refl
]

offer-first_client :
    (c : ℕ) (cs : List ℕ) (p : Text) (h : Hub)
    → NoneTwice (c ∷ cs)
    → (if member c cs
        then still ((offer c p h).sends c) ((offer c p h).clients c)
        else (offer c p h).clients c)
      ≡ (if member c (c ∷ cs) then still (h.sends c) (h.clients c) else h.clients c)
offer-first_client c cs p h u = rw (u.0, offer-clients c c p h, ==_refl c) refl

offer-once_client :
    (c d : ℕ) (cs : List ℕ) (p : Text) (h : Hub)
    → NoneTwice (c ∷ cs)
    → (if member d cs
        then still ((offer c p h).sends d) ((offer c p h).clients d)
        else (offer c p h).clients d)
      ≡ (if member d (c ∷ cs) then still (h.sends d) (h.clients d) else h.clients d)
offer-once_client c d cs p h u = elim (Bool-cases (d == c)) [
  | inl same ↦
      subst
        (λ x.
          (if member x cs
            then still ((offer c p h).sends x) ((offer c p h).clients x)
            else (offer c p h).clients x)
          ≡ (if member x (c ∷ cs) then still (h.sends x) (h.clients x) else h.clients x))
        (sym (same_client d c same)) (offer-first_client c cs p h u)
  | inr other ↦ rw (offer-sends c d p h, offer-clients c d p h, other, other_client d c other) refl
]

pub record Delivered (cs : List ℕ) (p : Text) (h k : Hub) : Type 0 where
  pub each : (d : ℕ) → k.sends d ≡ (if member d cs then offered p (h.sends d) else h.sends d)
  pub same : k.subscriptions ≡ h.subscriptions
  pub served :
      (d : ℕ) → k.clients d ≡ (if member d cs then still (h.sends d) (h.clients d) else h.clients d)

still_before : (a : Bool) (s : Send) (b : Bool) → (if a then still s b else b) ≡ true → b ≡ true
still_before a s b m = ground arith

pub Delivered-fewer :
    (cs : List ℕ) (p : Text) (h k : Hub) (d : ℕ)
    → Delivered cs p h k
    → k.clients d ≡ true
    → h.clients d ≡ true
Delivered-fewer cs p h k d done m =
    still_before (member d cs) (h.sends d) (h.clients d) (sym (done.served d) ∙ m)

deliver-Delivered :
    (cs : List ℕ) (p : Text) (h : Hub)
    → NoneTwice cs
    → AllOpen h cs
    → (k : Hub) × ((deliver cs p h ≡ some k) × Delivered cs p h k)
unfolding deliver
deliver-Delivered [] p h u o =
    (h, (refl, record { each = λ d. refl; same = refl; served = λ d. refl }))
deliver-Delivered (c ∷ cs) p h u o =
    let (k, (runs, done)) = deliver-Delivered cs p (offer c p h) u.1 (rest-AllOpen c cs p h u o) in
    (
      k,
      (
        rw (deliver, send_or_drop-open c p h (o c (head-member c cs))) runs,
        record {
          each = λ d. done.each d ∙ offer-once c d cs p h u;
          same = done.same ∙ offer-subscriptions c p h;
          served = λ d. done.served d ∙ offer-once_client c d cs p h u;
        },
      ),
    )

-- A broadcast on a channel whose subscribers are all open goes through: every subscriber with room
-- in its queue gets the message as its last one, every other subscriber is closed and taken from the
-- registered clients, and all else stays: the other clients' queues, which other clients are
-- registered, and the subscriptions.
pub broadcast-Delivered :
    (channel p : Text) (h : Hub)
    → NoneTwice (subscribers channel h)
    → AllOpen h (subscribers channel h)
    → (k : Hub) × ((broadcast channel p h ≡ some k) × Delivered (subscribers channel h) p h k)
unfolding broadcast
broadcast-Delivered channel p h u o = deliver-Delivered (subscribers channel h) p h u o

closed-panics : (c : ℕ) (p : Text) (h : Hub) → (h.sends c).closed ≡ true → send_or_drop c p h ≡ none
unfolding send_or_drop
closed-panics c p h e = rw e refl

still-closed :
    (c d : ℕ) (p : Text) (h : Hub)
    → (h.sends d).closed ≡ false
    → (h.sends c).closed ≡ true
    → ((offer d p h).sends c).closed ≡ true
still-closed c d p h o e = elim (Bool-cases (c == d)) [
  | inl same ↦ absurd (ground (arith, ap (λ x. (h.sends x).closed) (same_client c d same)))
  | inr other ↦ rw (offer-sends d c p h, other) e
]

-- A closed client among those to be served is a panic.
pub deliver-panics :
    (c : ℕ) (cs : List ℕ) (p : Text) (h : Hub)
    → member c cs ≡ true
    → (h.sends c).closed ≡ true
    → deliver cs p h ≡ none
unfolding deliver
deliver-panics c [] p h m e = absurd (cc)
deliver-panics c (d ∷ cs) p h m e = elim (Bool-cases (h.sends d).closed) [
  | inl shut_one ↦ rw (deliver, closed-panics d p h shut_one) refl
  | inr open_one ↦ elim (Bool-cases (d == c)) [
    | inl same ↦ absurd (ground (arith, ap (λ x. (h.sends x).closed) (same_client d c same)))
    | inr other ↦
        rw (deliver, send_or_drop-open d p h open_one)
          (deliver-panics c cs p (offer d p h) (ground arith) (still-closed c d p h open_one e))
  ]
]
