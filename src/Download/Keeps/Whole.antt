-- ===== src/Download/Keeps/Whole.antt =====
-- What the loop of `_run` and `execute` keep, if the calls for names and for the task keep it too.
use file_extractor.Base.{ℕ, zero, suc, String, Option, List, [], ◌∷◌, ◌++◌, take, drop, length}
use file_extractor.Base.Exec.{Exec, Result, ok, raised, pure, attempt, ◌>>=◌, ◌>>◌}
use file_extractor.Base.Exec.Ensures.{Keeps, Keeps-bind, Keeps-if}
use file_extractor.Domain.Task
use file_extractor.Domain.Task.{DownloadTask}
use file_extractor.Download.Ports.{World}
use file_extractor.Download.State.{
  Run, Way, goes_on, returns, Ended, broke, returned, exhausted, Fetched, names, stop, on_task,
  save,
}
use file_extractor.Download.Batch.{put_off}
use file_extractor.Download.Loop.{
  take_names, answered, fetch, worked, fetched, loop, finish, run, fail_task, failed_run, process,
}
use file_extractor.Download.Keeps.{
  Kept, RunKept, keep_rules, call-Keeps, pure-Keeps, attempt-Keeps, save-Keeps, put_off-Keeps,
  work_batch-Keeps,
}

module _ {w : World} {P : w.State → Type 0} (d : Kept w P)
    (asks : (c : Option String) → Keeps P (w.get_file_names c)) where
  received-Keeps :
      (all : List String) (k : ℕ)
      → Keeps (RunKept d) (on_task (Task.increase_received k) >> (save >> pure (names all)))
  received-Keeps all k = search (keep_rules, save-Keeps) depth 9

  take_names-Keeps : (pending found : List String) → Keeps (RunKept d) (take_names pending found)
  unfolding take_names
  take_names-Keeps [] [] = pure-Keeps d (stop broke)
  take_names-Keeps (p ∷ ps) [] = pure-Keeps d (names (p ∷ ps))
  take_names-Keeps [] (x ∷ xs) = received-Keeps (x ∷ xs) (length (x ∷ xs))
  take_names-Keeps (p ∷ ps) (x ∷ xs) = received-Keeps ((p ∷ ps) ++ x ∷ xs) (length (x ∷ xs))

  answered-Keeps :
      (pending : List String) (a : Result (List String)) → Keeps (RunKept d) (answered pending a)
  unfolding answered
  answered-Keeps pending (ok found) = take_names-Keeps pending found
  answered-Keeps pending (raised e) =
      Keeps-bind (put_off e) _ (put_off-Keeps d e) (λ _. pure-Keeps d (stop returned))

  fetch-Keeps : (pending : List String) (c : Option String) → Keeps (RunKept d) (fetch pending c)
  unfolding fetch
  fetch-Keeps pending c =
      Keeps-if _ _ _
        (Keeps-bind _ _ (attempt-Keeps d _ (call-Keeps d (w.get_file_names c) (asks c)))
          (answered-Keeps pending))
        (pure-Keeps d (names pending))

  worked-Keeps :
      (rest : Exec (Run w) Ended) (x : Way)
      → Keeps (RunKept d) rest
      → Keeps (RunKept d) (worked rest x)
  unfolding worked
  worked-Keeps rest goes_on h = h
  worked-Keeps rest returns h = pure-Keeps d returned

  fetched-Keeps :
      (rest : List String → Exec (Run w) Ended) (c : Option String) (x : Fetched)
      → ((pending : List String) → Keeps (RunKept d) (rest pending))
      → Keeps (RunKept d) (fetched rest c x)
  unfolding fetched
  fetched-Keeps rest c (stop e) h = pure-Keeps d e
  fetched-Keeps rest c (names found) h =
      Keeps-bind _ _ (work_batch-Keeps d (take 3 found) (drop 3 found) c)
        λ x. worked-Keeps (rest (drop 3 found)) x (h (drop 3 found))

  loop-Keeps :
      (fuel : ℕ) (pending : List String) (c : Option String)
      → Keeps (RunKept d) (loop fuel pending c)
  unfolding loop
  loop-Keeps zero pending c = pure-Keeps d exhausted
  loop-Keeps (suc fuel) pending c =
      Keeps-bind (fetch pending c) _ (fetch-Keeps pending c)
        λ x. fetched-Keeps (λ rest. loop fuel rest c) c x (λ rest. loop-Keeps fuel rest c)

  finish-Keeps : (e : Ended) → Keeps (RunKept d) (finish e)
  unfolding finish
  finish-Keeps broke = search (keep_rules, save-Keeps) depth 9
  finish-Keeps returned = pure-Keeps d returned
  finish-Keeps exhausted = pure-Keeps d exhausted

  failed_run-Keeps : (r : Result Ended) → Keeps (RunKept d) (failed_run r)
  unfolding failed_run fail_task
  failed_run-Keeps (ok e) = pure-Keeps d e
  failed_run-Keeps (raised e) = search (keep_rules, save-Keeps) depth 9

  -- Whatever the calls for names, the calls outside the blocks of the unit of work, and each block
  -- keep, the work on a task keeps, on every path and with any fuel.
  pub process-Keeps : (fuel : ℕ) (c : Option String) → Keeps (RunKept d) (process fuel c)
  unfolding process run
  process-Keeps fuel c =
      Keeps-bind (attempt (loop fuel [] c >>= finish)) failed_run
        (attempt-Keeps d (loop fuel [] c >>= finish)
          (Keeps-bind (loop fuel [] c) finish (loop-Keeps fuel [] c) finish-Keeps))
        failed_run-Keeps
