-- ===== src/Retry.antt =====
-- app/utils/retry.py: `AsyncRetryExecutor`. What it retries, and what sleeping and the random jitter
-- do to the state outside, are arguments. A delay is in hundredths of a second, which is exact for
-- the factors 1.1 and 0.05; the rounding of Python's floats is left out.
pub mod Bounds
pub mod Keeps
pub mod Persistent
mod Examples
use file_extractor.Base.{ℕ, zero, suc, ◌+◌, ◌*◌, ◌^◌, Bool, true, false, ◌&&◌, ◌||◌, if◌then◌else◌}
use file_extractor.Base.Int.{ℤ, pos, ◌+ℤ◌, ◌*ℕ◌, min_ℤ, ltb_ℤ, leb_ℤ}
use file_extractor.Base.Errors.{Error, rate_limited, server_error}
use file_extractor.Base.Exec.{Exec, Result, ok, raised}

-- `_max_retries`, `_rate_limit_retries`, `_retryable_exceptions` as a test.
pub record AsyncRetryExecutor : Type 0 where
  pub max_retries : ℤ
  pub rate_limit_retries : ℤ
  pub retryable : Error → Bool

-- `asyncio.sleep` for a number of hundredths, and `random.uniform(0, b)` in hundredths.
pub record Outside (S : Type 0) : Type 0 where
  pub sleep : ℤ → S → S
  pub uniform : ℤ → S → ℤ × S

-- The outcome of `execute`, or the end of the fuel while it still retries.
pub data Tried (A : Type 0) : Type 0 where
  done : Result A → Tried A
  going_on : Tried A

-- `_retry_exhausted`
unfoldable pub retry_exhausted : ℕ → ℤ → Bool
retry_exhausted attempt limit = leb_ℤ (pos 0) limit && ltb_ℤ limit (pos attempt)

-- The two `except` clauses, in the order in which Python tries them.
pub data Caught : Type 0 where
  rate : ℤ → Caught
  retry : Caught
  uncaught : Caught

unfoldable pub caught : AsyncRetryExecutor → Error → Caught
caught c (rate_limited n) = rate n
caught c (server_error m) = retry
caught c e = if c.retryable e then retry else uncaught

module _ {S : Type 0} (o : Outside S) where
  -- `_calculate_retry_delay`
  unfoldable pub calculate_retry_delay : ℤ → S → ℤ × S
  calculate_retry_delay retry_after s =
      let (jitter, t) = o.uniform (min_ℤ (retry_after *ℕ 5) (pos 1000)) s in
      ((retry_after *ℕ 110) +ℤ jitter, t)

  -- `_sleep_rate_limit`
  unfoldable pub sleep_rate_limit : ℤ → S → S
  sleep_rate_limit retry_after s =
      let (delay, t) = calculate_retry_delay retry_after s in o.sleep delay t

  module _ {A : Type 0} (c : AsyncRetryExecutor) (fn : Exec S A) where
    -- `while True:` with the counters `attempt` and `rate_attempt`, a call of `fn` for each unit of
    -- fuel. `after` is what the exception of a call leads to.
    abbrev pub after : (ℕ → ℕ → S → Tried A × S) → ℕ → ℕ → Error → Caught → S → Tried A × S
    after again attempt rate_attempt e (rate n) s =
        if retry_exhausted (rate_attempt + 1) c.rate_limit_retries
        then (done (raised e), s)
        else again attempt (rate_attempt + 1) (sleep_rate_limit n s)
    after again attempt rate_attempt e retry s =
        if ltb_ℤ c.max_retries (pos (attempt + 1))
        then (done (raised e), s)
        else again (attempt + 1) rate_attempt (o.sleep (pos (100 * 2 ^ (attempt + 1))) s)
    after again attempt rate_attempt e uncaught s = (done (raised e), s)

    abbrev pub called : (ℕ → ℕ → S → Tried A × S) → ℕ → ℕ → Result A × S → Tried A × S
    called again attempt rate_attempt (ok a, s) = (done (ok a), s)
    called again attempt rate_attempt (raised e, s) =
        after again attempt rate_attempt e (caught c e) s

    unfoldable pub try_again : ℕ → ℕ → ℕ → S → Tried A × S
    try_again zero attempt rate_attempt s = (going_on, s)
    try_again (suc fuel) attempt rate_attempt s =
        called (try_again fuel) attempt rate_attempt (fn s)

    -- `execute`
    unfoldable pub execute : ℕ → S → Tried A × S
    unfolding try_again
    execute fuel = try_again fuel 0 0
