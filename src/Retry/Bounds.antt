-- ===== src/Retry/Bounds.antt =====
-- How often `execute` calls its function at most.
use file_extractor.Base.{ℕ, zero, suc, ◌+◌, ◌≤◌, ◌<◌, ◌≡◌, Bool-cases, inl, inr, false, arith}
use file_extractor.Base.Int.{pos, ltb_ℤ}
use file_extractor.Base.Errors.{Error}
use file_extractor.Base.Exec.{Exec, Result, ok, raised}
use file_extractor.Retry.{
  AsyncRetryExecutor, Outside, Tried, done, going_on, retry_exhausted, Caught, rate, retry,
  uncaught, caught, sleep_rate_limit, after, called, try_again, execute,
}

-- The outcome is there.
abbrev pub IsDone : {A : Type 0} → Tried A → Type 0
IsDone (done r) = Unit
IsDone going_on = ⊥

not_exhausted : (k limit : ℕ) → retry_exhausted k (pos limit) ≡ false → k ≤ limit
unfolding retry_exhausted
not_exhausted k limit h = ground arith

within : (k limit : ℕ) → ltb_ℤ (pos limit) (pos k) ≡ false → k ≤ limit
within k limit h = ground arith

module _ {S A : Type 0} (o : Outside S) (c : AsyncRetryExecutor) (fn : Exec S A) (m l : ℕ)
    (retries : c.max_retries ≡ pos m) (rates : c.rate_limit_retries ≡ pos l) where
  after-IsDone :
      (again : ℕ → ℕ → S → Tried A × S) (fuel a r : ℕ) (e : Error) (k : Caught) (s : S)
      → a ≤ m
      → r ≤ l
      → m + l < suc fuel + a + r
      → ((a' r' : ℕ) (t : S) → a' ≤ m → r' ≤ l → m + l < fuel + a' + r' → IsDone (again a' r' t).0)
      → IsDone (after o c fn again a r e k s).0
  after-IsDone again fuel a r e (rate n) s ha hr h ih =
      elim (Bool-cases (retry_exhausted (r + 1) c.rate_limit_retries)) [
        | inl x ↦ rw x tt
        | inr x ↦ rw x (
            ih a (r + 1) (sleep_rate_limit o n s) ha (not_exhausted (r + 1) l (rw rates at x))
              (omega arith))
      ]
  after-IsDone again fuel a r e retry s ha hr h ih =
      elim (Bool-cases (ltb_ℤ c.max_retries (pos (a + 1)))) [
        | inl x ↦ rw x tt
        | inr x ↦ rw x (ih (a + 1) r _ (within (a + 1) m (rw retries at x)) hr (omega arith))
      ]
  after-IsDone again fuel a r e uncaught s ha hr h ih = tt

  called-IsDone :
      (again : ℕ → ℕ → S → Tried A × S) (fuel a r : ℕ) (x : Result A × S)
      → a ≤ m
      → r ≤ l
      → m + l < suc fuel + a + r
      → ((a' r' : ℕ) (t : S) → a' ≤ m → r' ≤ l → m + l < fuel + a' + r' → IsDone (again a' r' t).0)
      → IsDone (called o c fn again a r x).0
  called-IsDone again fuel a r (ok v, s) ha hr h ih = tt
  called-IsDone again fuel a r (raised e, s) ha hr h ih =
      after-IsDone again fuel a r e (caught c e) s ha hr h ih

  try_again-IsDone :
      (fuel a r : ℕ) (s : S)
      → a ≤ m
      → r ≤ l
      → m + l < fuel + a + r
      → IsDone (try_again o c fn fuel a r s).0
  unfolding try_again
  try_again-IsDone zero a r s ha hr h = absurd (omega arith)
  try_again-IsDone (suc fuel) a r s ha hr h =
      called-IsDone (try_again o c fn fuel) fuel a r (fn s) ha hr h (try_again-IsDone fuel)

-- With limits of `m` and `l` retries, neither negative, `execute` has its outcome after at most
-- m + l + 1 calls of the function, whatever the calls do.
pub execute-IsDone :
    {S A : Type 0} (o : Outside S) (c : AsyncRetryExecutor) (fn : Exec S A) (m l : ℕ)
    → c.max_retries ≡ pos m
    → c.rate_limit_retries ≡ pos l
    → (fuel : ℕ) (s : S) → m + l < fuel
    → IsDone (execute o c fn fuel s).0
unfolding execute
execute-IsDone o c fn m l retries rates fuel s h =
    try_again-IsDone o c fn m l retries rates fuel 0 0 s (omega arith) (omega arith) (omega arith)
