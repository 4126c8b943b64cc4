-- ===== src/Wsgateway/Cache/Entries.antt =====
-- The list operations of internal/wsgateway/cache.go done twice over, and unique slots.
use lumen_liquid_backend.Base.{
  ◌≡◌, refl, true, false, none, some, List, [], ◌∷◌, ◌++◌, Bool-cases, Option-cases, inl, inr,
  text_eq,
}
use lumen_liquid_backend.Base.Text.{Text}
use lumen_liquid_backend.Base.Assoc.{
  Map, Each, lookup, insert, insert-insert, lookup-insert_self, lookup-Each, insert-Each,
}
use lumen_liquid_backend.Wsgateway.Slices.{
  has_key, remove_first, update_first, Unique, remove_first-absent, has_key-remove_first,
  has_key-append, append-Unique, remove_first-Unique, update_first_again, update_first-Unique,
}
use lumen_liquid_backend.Wsgateway.Cache.{
  Slot, slot_eq, list_of, add_new, remove_entry, update_entry,
}

module _ {A : Type 0} (key : A → Slot) where
  -- Within each trader's list no slot stands twice.
  abbrev pub AllUnique : Map Text (List A) → Type 0
  AllUnique m = Each (λ trader xs. Unique key xs) m

  pub list-Unique :
      (trader : Text) (m : Map Text (List A)) → AllUnique m → Unique key (list_of (lookup trader m))
  list-Unique trader m u = elim (Option-cases (lookup trader m)) [
    | inl missing ↦ rw missing tt
    | inr (xs, found) ↦ rw found (lookup-Each (λ t ys. Unique key ys) trader xs m u found)
  ]

  put-AllUnique :
      (trader : Text) (xs : List A) (m : Map Text (List A))
      → Unique key xs
      → AllUnique m
      → AllUnique (insert trader xs m)
  put-AllUnique trader xs m u h = insert-Each (λ t ys. Unique key ys) trader xs m u h

  pub add_new-AllUnique :
      (trader : Text) (x : A) (m : Map Text (List A))
      → AllUnique m
      → AllUnique (add_new key trader x m).0
  unfolding add_new
  add_new-AllUnique trader x m u =
      elim (Bool-cases (has_key key (key x) (list_of (lookup trader m)))) [
        | inl there ↦ rw there u
        | inr new ↦ rw new (
            put-AllUnique trader _ m
              (append-Unique key x (list_of (lookup trader m)) new (list-Unique trader m u)) u)
      ]

  -- An entry that was added is there, so it is not added again.
  pub add_new-again :
      (trader : Text) (x : A) (m : Map Text (List A))
      → add_new key trader x (add_new key trader x m).0 ≡ ((add_new key trader x m).0, false)
  unfolding add_new
  add_new-again trader x m = elim (Bool-cases (has_key key (key x) (list_of (lookup trader m)))) [
    | inl there ↦ rw (there, there)
    | inr new ↦ rw (
      new,
      lookup-insert_self trader (list_of (lookup trader m) ++ x ∷ []) m,
      has_key-append key (key x) x (list_of (lookup trader m)) refl,
    )
  ]

  remove_entry-missing :
      (trader : Text) (k : Slot) (m : Map Text (List A))
      → remove_first key k (list_of (lookup trader m)) ≡ none
      → remove_entry key trader k m ≡ (m, false)
  unfolding remove_entry
  remove_entry-missing trader k m h = rw h

  remove_entry-found :
      (trader : Text) (k : Slot) (m : Map Text (List A)) (ys : List A)
      → remove_first key k (list_of (lookup trader m)) ≡ some ys
      → remove_entry key trader k m ≡ (insert trader ys m, true)
  unfolding remove_entry
  remove_entry-found trader k m ys h = rw h

  pub remove_entry-AllUnique :
      (trader : Text) (k : Slot) (m : Map Text (List A))
      → AllUnique m
      → AllUnique (remove_entry key trader k m).0
  remove_entry-AllUnique trader k m u =
      elim (Option-cases (remove_first key k (list_of (lookup trader m)))) [
        | inl missing ↦ rw (remove_entry-missing trader k m missing) u
        | inr (ys, found) ↦ rw (remove_entry-found trader k m ys found) (
            put-AllUnique trader ys m
              (remove_first-Unique key k _ ys (list-Unique trader m u) found) u)
      ]

  pub remove_entry-again :
      (trader : Text) (k : Slot) (m : Map Text (List A))
      → AllUnique m
      → remove_entry key trader k (remove_entry key trader k m).0
        ≡ ((remove_entry key trader k m).0, false)
  remove_entry-again trader k m u =
      elim (Option-cases (remove_first key k (list_of (lookup trader m)))) [
        | inl missing ↦
            rw (remove_entry-missing trader k m missing) (remove_entry-missing trader k m missing)
        | inr (ys, found) ↦ rw (remove_entry-found trader k m ys found) (
            remove_entry-missing trader k (insert trader ys m) (
              rw (lookup-insert_self trader ys m) (
                remove_first-absent key k ys
                  (has_key-remove_first key k _ ys (list-Unique trader m u) found))))
      ]

  module _ (f : A → A) (same_key : (x : A) → key (f x) ≡ key x)
      (twice : (x : A) → f (f x) ≡ f x) where
    update_entry-missing :
        (trader : Text) (k : Slot) (m : Map Text (List A))
        → update_first key f k (list_of (lookup trader m)) ≡ none
        → update_entry key f trader k m ≡ (m, false)
    unfolding update_entry
    update_entry-missing trader k m h = rw h

    update_entry-found :
        (trader : Text) (k : Slot) (m : Map Text (List A)) (ys : List A)
        → update_first key f k (list_of (lookup trader m)) ≡ some ys
        → update_entry key f trader k m ≡ (insert trader ys m, true)
    unfolding update_entry
    update_entry-found trader k m ys h = rw h

    pub update_entry-AllUnique :
        (trader : Text) (k : Slot) (m : Map Text (List A))
        → AllUnique m
        → AllUnique (update_entry key f trader k m).0
    update_entry-AllUnique trader k m u =
        elim (Option-cases (update_first key f k (list_of (lookup trader m)))) [
          | inl missing ↦ rw (update_entry-missing trader k m missing) u
          | inr (ys, found) ↦ rw (update_entry-found trader k m ys found) (
              put-AllUnique trader ys m
                (update_first-Unique key f same_key twice k _ ys (list-Unique trader m u) found) u)
        ]

    pub update_entry-again :
        (trader : Text) (k : Slot) (m : Map Text (List A))
        → update_entry key f trader k (update_entry key f trader k m).0
          ≡ update_entry key f trader k m
    update_entry-again trader k m =
        elim (Option-cases (update_first key f k (list_of (lookup trader m)))) [
          | inl missing ↦
              rw (update_entry-missing trader k m missing) (update_entry-missing trader k m missing)
          | inr (ys, found) ↦ rw (update_entry-found trader k m ys found) (
              rw (
                update_entry-found trader k (insert trader ys m) ys (
                    rw (lookup-insert_self trader ys m)
                      (update_first_again key f same_key twice k _ ys found)),
                insert-insert trader ys ys m,
              ))
        ]
