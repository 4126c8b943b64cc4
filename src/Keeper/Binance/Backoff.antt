-- ===== src/Keeper/Binance/Backoff.antt =====
-- The waits between the connections to Binance.
use lumen_liquid_backend.Base.{
  ℕ, zero, suc, ◌+◌, ◌*◌, ◌^◌, ◌≡◌, refl, ◌∙◌, ap, List, [], ◌∷◌, if◌then◌else◌, ltb, length, arith,
}
use lumen_liquid_backend.Keeper.Binance.{
  BinanceClient, Json, Session, second, next_backoff, connect, run_once, run,
}

-- The wait after a number of failures in a row.
abbrev pub wait_after : ℕ → ℕ
wait_after zero = 0
wait_after (suc n) = if ltb n 5 then 2 ^ n * second else 30 * second

next_backoff-wait_after : (n : ℕ) → next_backoff (wait_after n) ≡ wait_after (suc n)
unfolding next_backoff
next_backoff-wait_after zero = refl
next_backoff-wait_after (suc zero) = refl
next_backoff-wait_after (suc (suc zero)) = refl
next_backoff-wait_after (suc (suc (suc zero))) = refl
next_backoff-wait_after (suc (suc (suc (suc zero)))) = refl
next_backoff-wait_after (suc (suc (suc (suc (suc zero))))) = refl
next_backoff-wait_after (suc (suc (suc (suc (suc (suc n)))))) = ground arith

wait_after_cong : (m n : ℕ) → m ≡ n → wait_after m ≡ wait_after n
wait_after_cong m n = ap wait_after

module _ (json : Json) where
  run_once-wait :
      (session : Session) (b : BinanceClient) (backoff : ℕ)
      → (run_once json session b backoff).1 ≡ next_backoff backoff
  unfolding run_once connect
  run_once-wait session b backoff = ground arith

  run-wait_from :
      (sessions : List Session) (b : BinanceClient) (n : ℕ)
      → (run json sessions b (wait_after n)).1 ≡ wait_after (length sessions + n)
  unfolding run
  run-wait_from [] b n = wait_after_cong n (0 + n) (omega arith)
  run-wait_from (s ∷ ss) b n =
      rw (run, run_once-wait s b (wait_after n), next_backoff-wait_after n)
        (run-wait_from ss _ (suc n)
          ∙ wait_after_cong (length ss + suc n) (suc (length ss) + n) (omega arith))

  -- After any number of sessions, however many messages each of them delivered, the next wait is 0,
  -- 1, 2, 4, 8, 16 and from the sixth session on 30 seconds: a session that worked does not reset
  -- it.
  pub run-wait_after :
      (sessions : List Session) (b : BinanceClient)
      → (run json sessions b 0).1 ≡ wait_after (length sessions)
  run-wait_after sessions b =
      run-wait_from sessions b 0
      ∙ wait_after_cong (length sessions + 0) (length sessions) (omega arith)
