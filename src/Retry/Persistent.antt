-- ===== src/Retry/Persistent.antt =====
-- What `execute` does with a function that raises the same exception at every call.
use file_extractor.Base.{ℕ, zero, suc, ◌+◌, ◌*◌, ◌^◌, ◌≡◌, refl, true, false, arith}
use file_extractor.Base.Int.{ℤ, pos, negsuc, ltb_ℤ}
use file_extractor.Base.Errors.{Error, rate_limited}
use file_extractor.Base.Exec.{Exec, raised}
use file_extractor.Retry.{
  AsyncRetryExecutor, Outside, done, going_on, retry_exhausted, rate, retry, caught,
  sleep_rate_limit, try_again, execute,
}

module _ {S A : Type 0} (o : Outside S) (c : AsyncRetryExecutor) (fn : Exec S A) (e : Error)
    (tick : S → S) (always : (s : S) → fn s ≡ (raised e, tick s)) where
  -- The state after `n` more calls, each after a back-off that doubles: before the call after
  -- `attempt` failures, 2 ^ attempt seconds.
  pub back_off : ℕ → ℕ → S → S
  back_off zero attempt s = tick s
  back_off (suc n) attempt s =
      back_off n (attempt + 1) (o.sleep (pos (100 * 2 ^ (attempt + 1))) (tick s))

  -- The state after `n` more calls, each after the pause that the API asked for.
  pub pause : ℤ → ℕ → S → S
  pause retry_after zero s = tick s
  pause retry_after (suc n) s = pause retry_after n (sleep_rate_limit o retry_after (tick s))

  over : (m a : ℕ) → c.max_retries ≡ pos m → a ≡ m → ltb_ℤ c.max_retries (pos (a + 1)) ≡ true
  over m a lim h = rw lim (ground arith)

  under :
      (m a n : ℕ)
      → c.max_retries ≡ pos m
      → a + suc n ≡ m
      → ltb_ℤ c.max_retries (pos (a + 1)) ≡ false
  under m a n lim h = rw lim (ground arith)

  try_again-retry :
      (m n a r : ℕ) (s : S)
      → c.max_retries ≡ pos m
      → caught c e ≡ retry
      → a + n ≡ m
      → try_again o c fn (suc n) a r s ≡ (done (raised e), back_off n a s)
  unfolding try_again back_off
  try_again-retry m zero a r s lim k h = rw (always s, k, over m a lim (omega arith))
  try_again-retry m (suc n) a r s lim k h =
      rw (always s, k, under m a n lim h)
        (try_again-retry m n (a + 1) r (o.sleep (pos (100 * 2 ^ (a + 1))) (tick s)) lim k
          (omega arith))

  exhausted :
      (l r : ℕ)
      → c.rate_limit_retries ≡ pos l
      → r ≡ l
      → retry_exhausted (r + 1) c.rate_limit_retries ≡ true
  unfolding retry_exhausted
  exhausted l r lim h = rw lim (ground arith)

  not_yet :
      (l r n : ℕ)
      → c.rate_limit_retries ≡ pos l
      → r + suc n ≡ l
      → retry_exhausted (r + 1) c.rate_limit_retries ≡ false
  unfolding retry_exhausted
  not_yet l r n lim h = rw lim (ground arith)

  try_again-rate :
      (retry_after : ℤ) (l n a r : ℕ) (s : S)
      → c.rate_limit_retries ≡ pos l
      → caught c e ≡ rate retry_after
      → r + n ≡ l
      → try_again o c fn (suc n) a r s ≡ (done (raised e), pause retry_after n s)
  unfolding try_again pause
  try_again-rate x l zero a r s lim k h = rw (always s, k, exhausted l r lim (omega arith))
  try_again-rate x l (suc n) a r s lim k h =
      rw (always s, k, not_yet l r n lim h)
        (try_again-rate x l n a (r + 1) (sleep_rate_limit o x (tick s)) lim k (omega arith))

  never_exhausted :
      (r n : ℕ) → c.rate_limit_retries ≡ negsuc n → retry_exhausted r c.rate_limit_retries ≡ false
  unfolding retry_exhausted
  never_exhausted r n lim = rw lim (ground arith)

  try_again-forever :
      (retry_after : ℤ) (n fuel a r : ℕ) (s : S)
      → c.rate_limit_retries ≡ negsuc n
      → caught c e ≡ rate retry_after
      → (try_again o c fn fuel a r s).0 ≡ going_on
  unfolding try_again
  try_again-forever x n zero a r s lim k = refl
  try_again-forever x n (suc fuel) a r s lim k =
      rw (always s, k, never_exhausted (r + 1) n lim)
        (try_again-forever x n fuel a (r + 1) (sleep_rate_limit o x (tick s)) lim k)

-- A function that raises one retryable exception at every call is called exactly m + 1 times for a
-- limit of `m` retries, with sleeps of 2, 4, ..., 2 ^ m seconds between, and the exception is raised.
pub execute_backs_off :
    {S A : Type 0} (o : Outside S) (c : AsyncRetryExecutor) (fn : Exec S A) (e : Error)
    (tick : S → S) (always : (s : S) → fn s ≡ (raised e, tick s)) (m : ℕ) (s : S)
    → c.max_retries ≡ pos m
    → caught c e ≡ retry
    → execute o c fn (suc m) s ≡ (done (raised e), back_off o c fn e tick always m 0 s)
unfolding execute
execute_backs_off o c fn e tick always m s lim k =
    try_again-retry o c fn e tick always m m 0 0 s lim k (omega arith)

-- A function that is rate limited at every call is called exactly l + 1 times for a limit of `l`,
-- with the pause that `_calculate_retry_delay` gives before each call but the first, and the
-- exception is raised.
pub execute_rate_limited :
    {S A : Type 0} (o : Outside S) (c : AsyncRetryExecutor) (fn : Exec S A) (retry_after : ℤ)
    (tick : S → S) (always : (s : S) → fn s ≡ (raised (rate_limited retry_after), tick s)) (l : ℕ)
    (s : S)
    → c.rate_limit_retries ≡ pos l
    → execute o c fn (suc l) s ≡ (
      done (raised (rate_limited retry_after)),
      pause o c fn (rate_limited retry_after) tick always retry_after l s,
    )
unfolding execute caught
execute_rate_limited o c fn x tick always l s lim =
    try_again-rate o c fn (rate_limited x) tick always x l l 0 0 s lim refl (omega arith)

-- With a negative limit such a function is called for ever: no number of calls ends `execute`.
pub execute_forever :
    {S A : Type 0} (o : Outside S) (c : AsyncRetryExecutor) (fn : Exec S A) (retry_after : ℤ)
    (tick : S → S) (always : (s : S) → fn s ≡ (raised (rate_limited retry_after), tick s)) (n : ℕ)
    → c.rate_limit_retries ≡ negsuc n
    → (fuel : ℕ) (s : S) → (execute o c fn fuel s).0 ≡ going_on
unfolding execute caught
execute_forever o c fn x tick always n lim fuel s =
    try_again-forever o c fn (rate_limited x) tick always x n fuel 0 0 s lim refl
