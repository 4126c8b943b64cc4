-- ===== src/Wsgateway/Hub/Members.antt =====
-- The sets of subscribers of internal/wsgateway/hub.go, as lists without doubles.
use lumen_liquid_backend.Base.{
  ℕ, ◌≡◌, refl, true, false, inl, inr, List, [], ◌∷◌, ◌++◌, ◌==◌, nat_eq, text_eq, nat_beq_iff,
  if◌then◌else◌, arith, Bool-cases,
}
use lumen_liquid_backend.Base.Text.{Text}
use lumen_liquid_backend.Base.Assoc.{Map, lookup}
use lumen_liquid_backend.Wsgateway.Cache.{list_of}
use lumen_liquid_backend.Wsgateway.Hub.{without, without_everywhere, with_member}
use lumen_liquid_backend.Wsgateway.Hub.Broadcast.{member, NoneTwice}

pub member-without :
    (c d : ℕ) (cs : List ℕ) → member d (without c cs) ≡ (if d == c then false else member d cs)
member-without c d [] = ground arith
member-without c d (e ∷ cs) =
    ground (arith, member-without c d cs, nat_beq_iff e c, nat_beq_iff e d, nat_beq_iff d c)

pub without-NoneTwice : (c : ℕ) (cs : List ℕ) → NoneTwice cs → NoneTwice (without c cs)
without-NoneTwice c [] u = tt
without-NoneTwice c (d ∷ cs) u = elim (Bool-cases (d == c)) [
  | inl same ↦ rw same (without-NoneTwice c cs u.1)
  | inr other ↦ rw other (ground (arith, member-without c d cs, u.0), without-NoneTwice c cs u.1)
]

member-append :
    (c d : ℕ) (cs : List ℕ) → member d (cs ++ c ∷ []) ≡ (if member d cs then true else c == d)
member-append c d [] = ground arith
member-append c d (e ∷ cs) = ground (arith, member-append c d cs)

append-NoneTwice :
    (c : ℕ) (cs : List ℕ) → NoneTwice cs → member c cs ≡ false → NoneTwice (cs ++ c ∷ [])
append-NoneTwice c [] u m = (refl, tt)
append-NoneTwice c (d ∷ cs) u m = (
  ground (arith, member-append c d cs, u.0, nat_beq_iff c d, nat_beq_iff d c, m),
  append-NoneTwice c cs u.1 (ground arith),
)

pub with_member-NoneTwice : (c : ℕ) (cs : List ℕ) → NoneTwice cs → NoneTwice (with_member c cs)
with_member-NoneTwice c cs u = elim (Bool-cases (member c cs)) [
  | inl there ↦ rw there u
  | inr new ↦ rw new (append-NoneTwice c cs u new)
]

pub member-with_member :
    (c d : ℕ) (cs : List ℕ)
    → member d (with_member c cs) ≡ true
    → (if d == c then true else member d cs) ≡ true
member-with_member c d cs m = ground (arith, member-append c d cs, nat_beq_iff c d, nat_beq_iff d c)

pub lookup-without_everywhere :
    (c : ℕ) (channel : Text) (m : Map Text (List ℕ))
    → list_of (lookup channel (without_everywhere c m)) ≡ without c (list_of (lookup channel m))
unfolding lookup
lookup-without_everywhere c channel [] = refl
lookup-without_everywhere c channel ((name, cs) ∷ m) =
    ground (arith, lookup-without_everywhere c channel m)
