-- ===== src/Retry/Examples.antt =====
-- `execute` at concrete functions; the state is the list of the sleeps so far, the last one first.
use file_extractor.Base.{ℕ, ◌≡◌, refl, false, List, [], ◌∷◌, arith}
use file_extractor.Base.Int.{ℤ, pos, negsuc, ◌+ℤ◌, ◌*ℕ◌, min_ℤ}
use file_extractor.Base.Errors.{Error, rate_limited, server_error, forbidden}
use file_extractor.Base.Exec.{Exec, raised}
use file_extractor.Retry.{
  AsyncRetryExecutor, Outside, done, going_on, retry_exhausted, caught, calculate_retry_delay,
  sleep_rate_limit, execute,
}
use file_extractor.Retry.Bounds.{IsDone, execute-IsDone}
use file_extractor.Retry.Persistent.{
  back_off, pause, execute_backs_off, execute_rate_limited, execute_forever,
}

-- The highest jitter.
abbrev outside : Outside (List ℤ)
outside = record { sleep = λ t s. t ∷ s; uniform = λ b s. (b, s) }

abbrev executor : AsyncRetryExecutor
executor = record { max_retries = pos 3; rate_limit_retries = pos 2; retryable = λ e. false }

abbrev always : Error → Exec (List ℤ) ℕ
always e s = (raised e, s)

-- Two seconds, four and eight; then the exception.
backs_off :
    execute outside executor (always (server_error "down")) 9 []
    ≡ (done (raised (server_error "down")), pos 800 ∷ pos 400 ∷ pos 200 ∷ [])
unfolding execute caught
backs_off = refl

-- 60 seconds with their tenth and at most three seconds of jitter.
slows_down :
    execute outside executor (always (rate_limited (pos 60))) 9 []
    ≡ (done (raised (rate_limited (pos 60))), pos 6900 ∷ pos 6900 ∷ [])
unfolding execute caught retry_exhausted sleep_rate_limit calculate_retry_delay ◌+ℤ◌ ◌*ℕ◌ min_ℤ
slows_down = refl

at_once : execute outside executor (always forbidden) 9 [] ≡ (done (raised forbidden), [])
unfolding execute caught
at_once = refl

execute-IsDone_example : IsDone (execute outside executor (always (server_error "down")) 6 []).0
execute-IsDone_example =
    execute-IsDone outside executor (always (server_error "down")) 3 2 refl refl 6 [] (omega arith)

execute_backs_off_example : execute outside executor (always (server_error "down")) 4 [] ≡ (
  done (raised (server_error "down")),
  back_off outside executor
      (always (server_error "down"))
      (server_error "down")
      (λ s. s)
      (λ s. refl)
      3
      0
      [],
)
unfolding caught
execute_backs_off_example =
    execute_backs_off outside executor (always (server_error "down")) (server_error "down") (λ s. s)
      (λ s. refl) 3 [] refl refl

execute_rate_limited_example : execute outside executor (always (rate_limited (pos 60))) 3 [] ≡ (
  done (raised (rate_limited (pos 60))),
  pause outside executor
      (always (rate_limited (pos 60)))
      (rate_limited (pos 60))
      (λ s. s)
      (λ s. refl)
      (pos 60)
      2
      [],
)
execute_rate_limited_example =
    execute_rate_limited outside executor (always (rate_limited (pos 60))) (pos 60) (λ s. s)
      (λ s. refl) 2 [] refl

abbrev endless : AsyncRetryExecutor
endless = record executor { rate_limit_retries = negsuc 0 }

execute_forever_example :
    (execute outside endless (always (rate_limited (pos 1))) 1000 []).0 ≡ going_on
execute_forever_example =
    execute_forever outside endless (always (rate_limited (pos 1))) (pos 1) (λ s. s) (λ s. refl) 0
      refl 1000 []
