-- ===== src/Download/Counts/Whole.antt =====
-- `execute` around the loop of `_run`: the status and the counts of the task when it ends.
use file_extractor.Base.{ℕ, ◌+◌, ◌≤◌, ◌≡◌, refl, String, inl, inr, ◌⊎◌, true, Option, [], arith}
use file_extractor.Base.Errors.{message}
use file_extractor.Base.Exec.{Result, ok, raised, attempt}
use file_extractor.Base.Exec.Ensures.{
  Post, Ensures, Either, Ensures-pure, Ensures-attempt, Ensures-bind, Ensures-Keeps, Ensures-raises,
}
use file_extractor.Domain.Status.{TaskStatus, is_running, is_blocked_status}
use file_extractor.Domain.Task
use file_extractor.Domain.Task.{DownloadTask}
use file_extractor.Download.Ports.{World}
use file_extractor.Download.State.{Run, Ended, broke, returned, exhausted, on_task, clock, save}
use file_extractor.Download.Loop.{loop, finish, run, fail_task, failed_run, process}
use file_extractor.Download.Counts.{Counts, IsOpen, IsAt, IsOwed}
use file_extractor.Download.Counts.Methods.{fail-Post, complete-Post}
use file_extractor.Download.Counts.Steps.{On, Ensures-on_task, Keeps-save}
use file_extractor.Download.Counts.Loop.{Left, Ensures-loop}

-- How `execute` ends, when it does not raise: the task is SUCCESS with as many files received as
-- processed since `base`, or it is BLOCKED or FAILED; `exhausted` stands for a loop that goes on,
-- with `n` files processed at least.
abbrev pub Done : DownloadTask → ℕ → Ended → DownloadTask → Type 0
Done base n broke t = (t.status ≡ TaskStatus.success) × Counts base 0 t
Done base n returned t =
    ((t.status ≡ TaskStatus.blocked) ⊎ (t.status ≡ TaskStatus.failed)) × IsOwed base t
Done base n exhausted t = (t.status ≡ TaskStatus.running) × IsOwed base t × (n ≤ t.processed_files)

blocked_of : (s : TaskStatus) → is_blocked_status s ≡ true → s ≡ TaskStatus.blocked
blocked_of TaskStatus.blocked h = refl
blocked_of _ h = cc

running_of : (s : TaskStatus) → is_running s ≡ true → s ≡ TaskStatus.running
running_of TaskStatus.running h = refl
running_of _ h = cc

module _ {w : World} (base : DownloadTask) (n : ℕ) where
  Ensures-finish :
      (e : Ended)
      → Ensures {S = Run w}
          (On (Left base n e))
          (finish e)
          (λ e. On (Done base n e))
          (On (IsOwed base))
  unfolding finish
  Ensures-finish broke =
      Ensures-bind clock _ (record { at = λ r h. h })
        λ now.
          Ensures-bind (on_task (Task.complete now)) _
            (Ensures-raises (On (IsOwed base)) (λ r c. (0, c))
              (Ensures-on_task (IsOpen base 0)
                (λ _ t. (t.status ≡ TaskStatus.success) × Counts base 0 t) (Counts base 0) _
                (complete-Post base 0 now)))
            λ _.
              Ensures-bind save _
                (Ensures-Keeps (On (IsOwed base)) save
                  (Keeps-save (λ t. (t.status ≡ TaskStatus.success) × Counts base 0 t))
                  (λ r h. (0, h.1)))
                λ _. Ensures-pure (λ e. On (Done base n e)) _ broke
  Ensures-finish returned = record {
    at = λ r h. (inl (blocked_of r.task.status h.1.0), (h.0, h.1.1));
  }
  Ensures-finish exhausted = record {
    at = λ r (k, still, far). (running_of r.task.status still.0, (k, still.1), far);
  }

  Ensures-fail_task :
      (m : String)
      → Ensures {S = Run w}
          (On (IsOwed base))
          (fail_task m)
          (λ (_ : Unit {0}). On (λ t. (t.status ≡ TaskStatus.failed) × IsOwed base t))
          (On (IsOwed base))
  unfolding fail_task
  Ensures-fail_task m =
      Ensures-bind clock _ (record { at = λ r h. h })
        λ now.
          Ensures-bind (on_task (Task.fail m now)) _
            (Ensures-on_task (IsOwed base) (λ _ t. (t.status ≡ TaskStatus.failed) × IsOwed base t)
              (IsOwed base) _ (fail-Post base m now))
            λ _.
              Ensures-Keeps (On (IsOwed base)) save
                (Keeps-save (λ t. (t.status ≡ TaskStatus.failed) × IsOwed base t)) (λ r h. h.1)

  Ensures-failed_run :
      (x : Result Ended)
      → Ensures {S = Run w}
          (Either {A = Ended} (λ e. On (Done base n e)) (On (IsOwed base)) x)
          (failed_run x)
          (λ e. On (Done base n e))
          (On (IsOwed base))
  unfolding failed_run
  Ensures-failed_run (ok e) = Ensures-pure (λ e. On (Done base n e)) _ e
  Ensures-failed_run (raised e) =
      Ensures-bind (fail_task (message w.repr e)) _ (Ensures-fail_task (message w.repr e))
        λ _. record { at = λ r h. (inr h.0, h.1) }

-- The loop starts from `base` itself.
Ensures-run :
    {w : World} (base : DownloadTask) (fuel : ℕ) (candidate_id : Option String)
    → Ensures {S = Run w}
        (On (IsAt base 0 base.processed_files))
        (run fuel candidate_id)
        (λ e. On (Done base (base.processed_files + fuel) e))
        (On (IsOwed base))
unfolding run
Ensures-run base fuel candidate_id =
    Ensures-bind (loop fuel [] candidate_id) _
      (Ensures-loop base candidate_id fuel [] base.processed_files)
      (Ensures-finish base (base.processed_files + fuel))

Counts-refl : (t : DownloadTask) → Counts t 0 t
Counts-refl t = ground arith

-- The work on a RUNNING task, against any world: if it returns after the loop came to its end, the
-- task is SUCCESS and has received exactly as many files since as it has processed; if it returns
-- early, the task is BLOCKED or FAILED; if the fuel runs out, it is still RUNNING, and it has
-- processed at least as many files more as there were units of fuel. In every case, also if an exception leaves `execute`, the task is the same claim by the same worker, the
-- processed count has not fallen, and the received count has grown by no less than it.
pub process_ends :
    (w : World) (fuel : ℕ) (candidate_id : Option String) (r : Run w)
    → is_running r.task.status ≡ true
    → Post
        (λ e s. Done r.task (r.task.processed_files + fuel) e s.task)
        (λ s. IsOwed r.task s.task)
        (process fuel candidate_id r)
unfolding process
process_ends w fuel candidate_id r h =
    (Ensures-bind (attempt (run fuel candidate_id)) failed_run
        (Ensures-attempt (On (IsOwed r.task)) (run fuel candidate_id)
          (Ensures-run r.task fuel candidate_id))
        (Ensures-failed_run r.task (r.task.processed_files + fuel))).at
      r ((h, Counts-refl r.task), refl)
