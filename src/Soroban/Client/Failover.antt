-- ===== src/Soroban/Client/Failover.antt =====
-- Which endpoint's answer a call returns (internal/soroban/client.go, Call).
use lumen_liquid_backend.Base.{
  ℕ, ◌+◌, ◌≡◌, refl, subst, sym, ap, true, false, ◌⊎◌, inl, inr, some, List, [], ◌∷◌, ◌++◌, All,
  Bool-cases, arith, text_eq,
}
use lumen_liquid_backend.Base.Text.{Text}
use lumen_liquid_backend.Soroban.Client.{
  CallError, transport_error, CallResult, call_ok, failed, Transport, new_client, should_failover,
  call_one, try_urls, call, non_empty, or_one_empty,
}

module _ {A : Type 0} where
  -- An error after which the next endpoint is asked.
  abbrev pub FailsOver : CallResult A → Type 0
  FailsOver (call_ok a) = ⊥
  FailsOver (failed e) = should_failover e ≡ true

  -- A result, or an error that the other endpoints would give as well.
  abbrev pub IsFinal : CallResult A → Type 0
  IsFinal (call_ok a) = Unit
  IsFinal (failed e) = should_failover e ≡ false

  CallResult-cases :
      (r : CallResult A) → ((a : A) × (r ≡ call_ok a)) ⊎ ((e : CallError) × (r ≡ failed e))
  CallResult-cases (call_ok a) = inl (a, refl)
  CallResult-cases (failed e) = inr (e, refl)

module _ {A : Type 0} (net : Transport A) (body : Text) where
  -- The call ends at the endpoint `url`: those before it fail over, and it is final or the last.
  pub record EndsAt (urls : List Text) (result : CallResult A) : Type 0 where
    pub before : List Text
    pub url : Text
    pub after : List Text
    pub split : urls ≡ before ++ url ∷ after
    pub passed : All (λ u. FailsOver (call_one net body u)) before
    pub ends : IsFinal (call_one net body url) ⊎ (after ≡ [])
    pub returned : result ≡ call_one net body url

  here :
      (url : Text) (urls : List Text)
      → IsFinal (call_one net body url) ⊎ (urls ≡ [])
      → EndsAt (url ∷ urls) (call_one net body url)
  here url urls ends = record {
    before = [];
    url = url;
    after = urls;
    split = refl;
    passed = tt;
    ends = ends;
    returned = refl;
  }

  later_end :
      (url : Text) (urls : List Text) (result : CallResult A)
      → FailsOver (call_one net body url)
      → EndsAt urls result
      → EndsAt (url ∷ urls) result
  later_end url urls result over e = record {
    before = url ∷ e.before;
    url = e.url;
    after = e.after;
    split = ap (λ us. url ∷ us) e.split;
    passed = (over, e.passed);
    ends = e.ends;
    returned = e.returned;
  }

  stopped :
      (url : Text) (urls : List Text) (e f : CallError)
      → call_one net body url ≡ failed f
      → (should_failover f ≡ false) ⊎ (urls ≡ [])
      → try_urls net body (url ∷ urls) e ≡ call_one net body url
  unfolding try_urls
  stopped url urls e f h (inl final) = rw (try_urls, h, final) refl
  stopped url [] e f h (inr last) = rw (try_urls, h) (ground arith)
  stopped url (u ∷ us) e f h (inr last) = cc

  goes_on :
      (url next : Text) (urls : List Text) (e f : CallError)
      → call_one net body url ≡ failed f
      → should_failover f ≡ true
      → try_urls net body (url ∷ next ∷ urls) e ≡ try_urls net body (next ∷ urls) f
  unfolding try_urls
  goes_on url next urls e f h over = rw (try_urls, h, over) refl

  answered_at :
      (url : Text) (urls : List Text) (e : CallError) (a : A)
      → call_one net body url ≡ call_ok a
      → try_urls net body (url ∷ urls) e ≡ call_one net body url
  unfolding try_urls
  answered_at url urls e a h = rw (try_urls, h) refl

  ends_here :
      (url : Text) (urls : List Text) (e : CallError)
      → try_urls net body (url ∷ urls) e ≡ call_one net body url
      → IsFinal (call_one net body url) ⊎ (urls ≡ [])
      → EndsAt (url ∷ urls) (try_urls net body (url ∷ urls) e)
  ends_here url urls e same ends = subst (EndsAt (url ∷ urls)) (sym same) (here url urls ends)

  -- At a result or an error that is final, nothing else is asked.
  stops_or_goes_on :
      (url : Text) (urls : List Text) (e : CallError)
      → ((f : CallError)
          → call_one net body url ≡ failed f
          → should_failover f ≡ true
          → EndsAt (url ∷ urls) (try_urls net body (url ∷ urls) e))
      → EndsAt (url ∷ urls) (try_urls net body (url ∷ urls) e)
  stops_or_goes_on url urls e next = elim (CallResult-cases (call_one net body url)) [
    | inl (a, h) ↦ ends_here url urls e (answered_at url urls e a h) (inl (rw h tt))
    | inr (f, h) ↦ elim (Bool-cases (should_failover f)) [
      | inr final ↦ ends_here url urls e (stopped url urls e f h (inl final)) (inl (rw h final))
      | inl over ↦ next f h over
    ]
  ]

  try_urls-EndsAt :
      (url : Text) (urls : List Text) (e : CallError)
      → EndsAt (url ∷ urls) (try_urls net body (url ∷ urls) e)
  try_urls-EndsAt url [] e =
      stops_or_goes_on url [] e
        (λ f h over. ends_here url [] e (stopped url [] e f h (inr refl)) (inr refl))
  try_urls-EndsAt url (u ∷ us) e = stops_or_goes_on url (u ∷ us) e (λ f h over.
      subst (EndsAt (url ∷ u ∷ us)) (sym (goes_on url u us e f h over)) (
        later_end url (u ∷ us) (try_urls net body (u ∷ us) f) (rw h over) (try_urls-EndsAt u us f)))

  urls-EndsAt :
      (urls : List Text) (e : CallError)
      → EndsAt (or_one_empty urls) (try_urls net body (or_one_empty urls) e)
  urls-EndsAt [] e = try_urls-EndsAt [] [] e
  urls-EndsAt (u ∷ us) e = try_urls-EndsAt u us e

-- A call of a client made by `New`, whatever urls it was given and whatever it has done before,
-- returns the answer of one of its endpoints: every endpoint before that one gave a transport error
-- or a status of 429 or from 500 up, and its own answer is of another kind or it is the last one.
pub call-EndsAt :
    {A : Type 0} (net : Transport A) (method body url : Text) (backups : List Text) (n : ℕ)
    → net.marshal method (n + 1) ≡ some body
    → EndsAt net body
        (new_client url backups).urls
        (call net method (record (new_client url backups) { id_seq = n })).0
unfolding call new_client
call-EndsAt net method body url backups n h =
    rw (call, h) (urls-EndsAt net body (non_empty (url ∷ backups)) transport_error)
