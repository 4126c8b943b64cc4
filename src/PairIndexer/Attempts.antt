-- ===== src/PairIndexer/Attempts.antt =====
-- How often and how long a call of the contract is tried (cmd/pair-indexer/main.go, callContract).
use lumen_liquid_backend.Base.{
  ℕ, zero, suc, ◌+◌, ◌*◌, ◌≤◌, ◌<◌, ◌≡◌, refl, true, false, ◌⊎◌, inl, inr, ◌||◌, not, Bool-cases,
  arith, nat_beq,
}
use lumen_liquid_backend.Base.Strings.{trim_space}
use lumen_liquid_backend.PairIndexer.{
  CliRun, CallOutput, output, call_failed, Called, is_retryable, diagnosis, next_backoff,
  max_attempts, a_second, attempts_from, call_contract,
}

-- The wait before an attempt, counted from the second: 1, 2, 4, 8, 16 seconds.
abbrev wait_before : ℕ → ℕ
wait_before zero = 0
wait_before (suc n) = next_backoff (wait_before n)

abbrev total_wait : ℕ → ℕ
total_wait zero = 0
total_wait (suc n) = total_wait n + wait_before (suc n)

total_wait-bound : (n : ℕ) → n ≤ 5 → total_wait n ≤ 31 * a_second
unfolding next_backoff
total_wait-bound zero h = omega arith
total_wait-bound (suc zero) h = omega arith
total_wait-bound (suc (suc zero)) h = omega arith
total_wait-bound (suc (suc (suc zero))) h = omega arith
total_wait-bound (suc (suc (suc (suc zero)))) h = omega arith
total_wait-bound (suc (suc (suc (suc (suc zero))))) h = omega arith
total_wait-bound (suc (suc (suc (suc (suc (suc n)))))) h = absurd (omega arith)

-- A run that failed in a way that is worth another try.
abbrev pub IsTransient : CliRun → Type 0
IsTransient r = (r.succeeded ≡ false) × (is_retryable r ≡ true)

module _ (cli : ℕ → CliRun) where
  -- All runs before the given one, from the first on.
  abbrev pub AllBefore : ℕ → Type 0
  AllBefore zero = Unit
  AllBefore (suc zero) = Unit
  AllBefore (suc (suc n)) = AllBefore (suc n) × IsTransient (cli (suc n))

  -- The run that ended the call: it succeeded, or it failed for good, or it was the last allowed.
  abbrev pub Ended : ℕ → CallOutput → Type 0
  Ended n result =
      (((cli n).succeeded ≡ true) × (result ≡ output (trim_space (cli n).stdout)))
      ⊎ (((cli n).succeeded ≡ false)
          × ((is_retryable (cli n) ≡ false) ⊎ (n ≡ max_attempts))
          × (result ≡ call_failed n (diagnosis (cli n))))

  pub record IsCall (c : Called) : Type 0 where
    pub runs_low : 1 ≤ c.runs
    pub runs_high : c.runs ≤ max_attempts
    pub before : AllBefore c.runs
    pub ended : Ended c.runs c.result
    pub patience : c.waited ≤ 31 * a_second

  with_success :
      (left n b w : ℕ)
      → (cli n).succeeded ≡ true
      → attempts_from cli (suc left) n b w
        ≡ record { result = output (trim_space (cli n).stdout); runs = n; waited = w }
  unfolding attempts_from
  with_success left n b w h = rw (attempts_from, h) refl

  with_failure :
      (left n b w : ℕ)
      → (cli n).succeeded ≡ false
      → (nat_beq n max_attempts || not (is_retryable (cli n))) ≡ true
      → attempts_from cli (suc left) n b w
        ≡ record { result = call_failed n (diagnosis (cli n)); runs = n; waited = w }
  unfolding attempts_from
  with_failure left n b w h k = rw (attempts_from, h, k) refl

  with_retry :
      (left n b w : ℕ)
      → (cli n).succeeded ≡ false
      → (nat_beq n max_attempts || not (is_retryable (cli n))) ≡ false
      → attempts_from cli (suc left) n b w
        ≡ attempts_from cli left (n + 1) (next_backoff b) (w + next_backoff b)
  unfolding attempts_from
  with_retry left n b w h k = rw (attempts_from, h, k) refl

  stops :
      (n : ℕ) (result : CallOutput)
      → n ≤ 5
      → AllBefore (suc n)
      → Ended (suc n) result
      → IsCall (record { result = result; runs = suc n; waited = total_wait n })
  stops n result h before ended = record {
    runs_low = omega arith;
    runs_high = omega arith;
    before = before;
    ended = ended;
    patience = total_wait-bound n h;
  }

  for_good :
      (n : ℕ)
      → (nat_beq n max_attempts || not (is_retryable (cli n))) ≡ true
      → (is_retryable (cli n) ≡ false) ⊎ (n ≡ max_attempts)
  for_good n h = ground arith

  one_more : (n : ℕ) → suc n + 1 ≡ suc (suc n)
  one_more n = omega arith

  attempts_from-IsCall :
      (left n : ℕ)
      → n + left ≡ 6
      → 0 < left
      → AllBefore (suc n)
      → IsCall (attempts_from cli left (suc n) (wait_before n) (total_wait n))
  attempts_from-IsCall zero n e h before = absurd (omega arith)
  attempts_from-IsCall (suc left) n e h before = elim (Bool-cases (cli (suc n)).succeeded) [
    | inl done ↦
        rw (with_success left (suc n) (wait_before n) (total_wait n) done)
          (stops n _ (omega arith) before (inl (done, refl)))
    | inr miss ↦
        elim (Bool-cases (nat_beq (suc n) max_attempts || not (is_retryable (cli (suc n))))) [
          | inl last ↦
              rw (with_failure left (suc n) (wait_before n) (total_wait n) miss last)
                (stops n _ (omega arith) before (inr (miss, for_good (suc n) last, refl)))
          | inr more ↦
              rw (with_retry left (suc n) (wait_before n) (total_wait n) miss more, one_more n)
                (attempts_from-IsCall left (suc n) (omega arith) (ground arith)
                  (before, (miss, ground arith)))
        ]
  ]

  -- However the runs of the tool end, a call makes at least one and at most six, waits at most 31
  -- seconds between them, and ends at the first run that succeeds, with its trimmed output, or at
  -- the first that fails for good, or at the sixth, with that run's diagnosis; every run before was
  -- a failure that is worth another try.
  pub call_contract-IsCall : IsCall (call_contract cli)
  unfolding call_contract
  call_contract-IsCall = attempts_from-IsCall 6 0 (omega arith) (omega arith) tt
