-- ===== src/Wsgateway/Hub/Overflow.antt =====
-- A subscriber of internal/wsgateway/hub.go whose queue is full.
use lumen_liquid_backend.Base.{ℕ, ◌≡◌, refl, true, false, none, some, List}
use lumen_liquid_backend.Base.Text.{Text}
use lumen_liquid_backend.Wsgateway.Hub.{Hub, has_room, subscribers, broadcast}
use lumen_liquid_backend.Wsgateway.Hub.Broadcast.{
  member, NoneTwice, AllOpen, Delivered, broadcast-Delivered, deliver-panics,
}

full-closed :
    (c : ℕ) (cs : List ℕ) (p : Text) (h k : Hub)
    → Delivered cs p h k
    → member c cs ≡ true
    → has_room (h.sends c) ≡ false
    → (k.sends c).closed ≡ true
full-closed c cs p h k done m full = rw (done.each c, m, full) refl

same-subscribers :
    (channel p : Text) (h k : Hub)
    → Delivered (subscribers channel h) p h k
    → subscribers channel k ≡ subscribers channel h
same-subscribers channel p h k done = rw done.same refl

-- When one of the open subscribers of a channel has no room in its queue, a broadcast on the channel
-- still goes through, but it closes that subscriber and leaves it subscribed, so that the next
-- broadcast on the channel panics, whatever it carries.
pub overflow_panics :
    (channel p q : Text) (c : ℕ) (h : Hub)
    → NoneTwice (subscribers channel h)
    → AllOpen h (subscribers channel h)
    → member c (subscribers channel h) ≡ true
    → has_room (h.sends c) ≡ false
    → (k : Hub) × ((broadcast channel p h ≡ some k) × (broadcast channel q k ≡ none))
overflow_panics channel p q c h u o m full =
    let (k, (runs, done)) = broadcast-Delivered channel p h u o in
    let same = same-subscribers channel p h k done in
    (
      k,
      (
        runs,
        unfold broadcast in
            deliver-panics c (subscribers channel k) q k (rw same m)
              (full-closed c (subscribers channel h) p h k done m full),
      ),
    )
