-- ===== src/Retry/Keeps.antt =====
-- What a retried function makes sure of at every call, `execute` makes sure of.
use file_extractor.Base.{ℕ, zero, suc, ◌+◌, Bool-cases, inl, inr}
use file_extractor.Base.Int.{ℤ, pos, ltb_ℤ}
use file_extractor.Base.Errors.{Error}
use file_extractor.Base.Exec.{Exec, Result, ok, raised}
use file_extractor.Retry.{
  AsyncRetryExecutor, Outside, Tried, done, going_on, retry_exhausted, Caught, rate, retry,
  uncaught, caught, calculate_retry_delay, sleep_rate_limit, after, called, try_again, execute,
}
use file_extractor.Base.Exec.Ensures.{Post, Ensures, Keeps, Ensures-Keeps}

-- The function makes sure of `Q` where it returns, and keeps `P` where it raises; so does `execute`.
abbrev pub Outcome : {S A : Type 0} → (A → S → Type 0) → (S → Type 0) → Tried A × S → Type 0
Outcome Q P (done (ok a), s) = Q a s
Outcome Q P (done (raised e), s) = P s
Outcome Q P (going_on, s) = P s

module _ {S A : Type 0} (Q : A → S → Type 0) (P : S → Type 0) (o : Outside S)
    (c : AsyncRetryExecutor) (fn : Exec S A) (calls : Ensures P fn Q P)
    (sleeps : (t : ℤ) (s : S) → P s → P (o.sleep t s))
    (draws : (b : ℤ) (s : S) → P s → P (o.uniform b s).1) where
  pause_keeps : (n : ℤ) (s : S) → P s → P (sleep_rate_limit o n s)
  unfolding sleep_rate_limit calculate_retry_delay
  pause_keeps n s h = sleeps _ _ (draws _ s h)

  after-Outcome :
      (again : ℕ → ℕ → S → Tried A × S) (a r : ℕ) (e : Error) (k : Caught) (s : S)
      → ((a' r' : ℕ) (t : S) → P t → Outcome Q P (again a' r' t))
      → P s
      → Outcome Q P (after o c fn again a r e k s)
  after-Outcome again a r e (rate n) s ih h =
      elim (Bool-cases (retry_exhausted (r + 1) c.rate_limit_retries)) [
        | inl x ↦ rw x h
        | inr x ↦ rw x (ih a (r + 1) (sleep_rate_limit o n s) (pause_keeps n s h))
      ]
  after-Outcome again a r e retry s ih h = elim (Bool-cases (ltb_ℤ c.max_retries (pos (a + 1)))) [
    | inl x ↦ rw x h
    | inr x ↦ rw x (ih (a + 1) r _ (sleeps _ s h))
  ]
  after-Outcome again a r e uncaught s ih h = h

  called-Outcome :
      (again : ℕ → ℕ → S → Tried A × S) (a r : ℕ) (x : Result A × S)
      → ((a' r' : ℕ) (t : S) → P t → Outcome Q P (again a' r' t))
      → Post Q P x
      → Outcome Q P (called o c fn again a r x)
  called-Outcome again a r (ok v, s) ih h = h
  called-Outcome again a r (raised e, s) ih h = after-Outcome again a r e (caught c e) s ih h

  try_again-Outcome : (fuel a r : ℕ) (s : S) → P s → Outcome Q P (try_again o c fn fuel a r s)
  unfolding try_again
  try_again-Outcome zero a r s h = h
  try_again-Outcome (suc fuel) a r s h =
      called-Outcome (try_again o c fn fuel) a r (fn s) (try_again-Outcome fuel) (calls.at s h)

  pub execute-Outcome : (fuel : ℕ) (s : S) → P s → Outcome Q P (execute o c fn fuel s)
  unfolding execute
  execute-Outcome fuel s h = try_again-Outcome fuel 0 0 s h

-- What the function and the sleeps keep, `execute` keeps.
module _ {S A : Type 0} {P : S → Type 0} (o : Outside S) (c : AsyncRetryExecutor) (fn : Exec S A)
    (calls : Keeps P fn) (sleeps : (t : ℤ) (s : S) → P s → P (o.sleep t s))
    (draws : (b : ℤ) (s : S) → P s → P (o.uniform b s).1) where
  Outcome_state : (x : Tried A × S) → Outcome (λ _. P) P x → P x.1
  Outcome_state (done (ok a), s) h = h
  Outcome_state (done (raised e), s) h = h
  Outcome_state (going_on, s) h = h

  pub execute_keeps : (fuel : ℕ) (s : S) → P s → P (execute o c fn fuel s).1
  execute_keeps fuel s h = Outcome_state (execute o c fn fuel s) (
      execute-Outcome (λ _. P) P o c fn (Ensures-Keeps P fn calls (λ t p. p)) sleeps draws fuel s h)
