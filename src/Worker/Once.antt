-- ===== src/Worker/Once.antt =====
-- Two workers that are given the same task.
use file_extractor.Base.{ℕ, String, ◌≡◌, refl, Option, none, some}
use file_extractor.Base.Exec.{Result, ok, raised, proceed, ◌>>=◌}
use file_extractor.Base.Exec.Ensures.{Post, Ensures, Ensures-finally_value, Ensures-within_value}
use file_extractor.Domain.Task.{DownloadTask}
use file_extractor.Repositories.Rows.{DownloadTaskModel}
use file_extractor.Repositories.Tasks.{claim}
use file_extractor.Repositories.Table.{Table}
use file_extractor.Repositories.Exclusive.{
  Reach, IsTaken, kept-IsTaken, claimed-IsTaken, Reach-IsTaken,
}
use file_extractor.Download.State.{ProcessFilesCommand}
use file_extractor.Worker.{Host, claimed, in_session, process_files_task, worker_name}

module _ (h : Host) (row : h.session.State → String → Option DownloadTaskModel)
    (table : Table h.session row) (k : String) where
  abbrev Taken : h.ports.State → Type 0
  Taken s = IsTaken h.session row k (h.db s)

  abbrev Anything : h.ports.State → Type 0
  Anything s = Unit

  -- A task that is taken is not claimed, so the handler is not started.
  in_session-Ensures :
      (fuel : ℕ) (candidate_id : Option String) (worker_id : String)
      → Ensures Taken
          (in_session h fuel (record { task_id = k; candidate_id = candidate_id }) worker_id)
          (λ o s. o ≡ none)
          Anything
  unfolding in_session ◌>>=◌ claimed
  in_session-Ensures fuel candidate_id worker_id = record {
    at = λ s taken.
        refused s (claim h.session k worker_id (h.db s))
          (λ u e. (claimed-IsTaken h.session row k table worker_id (h.db s) u e).1 taken);
  }
    where
      command : ProcessFilesCommand
      command = record { task_id = k; candidate_id = candidate_id }

      refused :
          (s : h.ports.State) (r : Result (Option DownloadTask) × h.session.State)
          → ((u : DownloadTask) → ¬ (r.0 ≡ ok (some u)))
          → Post {S = h.ports.State}
              (λ o t. o ≡ none)
              Anything
              (proceed (claimed h fuel command) r.0 (h.with_db r.1 s))
      refused s (ok none, d) n = refl
      refused s (ok (some u), d) n = absurd (n u refl)
      refused s (raised e, d) n = tt

-- If a claim of a task has succeeded, then a worker that is given the task later does not start the
-- handler for it: it returns without, or raises. Between them there may be any calls of the
-- repository by any workers in any order, as long as no sweep of the watchdog changes the row of
-- that task and nobody saves it as PENDING. The table changes its rows as the statements say, and
-- the rows that a new session sees are those of the database.
pub process_once :
    (h : Host) (row : h.session.State → String → Option DownloadTaskModel)
    → Table h.session row
    → ((s : h.ports.State) (j : String) → row (h.db (h.open_session s).1) j ≡ row (h.db s) j)
    → (k worker_id : String) (before : h.session.State) (u : DownloadTask)
    → (claim h.session k worker_id before).0 ≡ ok (some u)
    → (s : h.ports.State) → Reach h.session row k (claim h.session k worker_id before).1 (h.db s)
    → (fuel : ℕ) (candidate_id hostname : Option String)
    → Post (λ o t. o ≡ none) (λ t. Unit {0}) (process_files_task h fuel k candidate_id hostname s)
unfolding process_files_task
process_once h row table opens k worker_id before u first s r fuel candidate_id hostname =
    (Ensures-finally_value h.dispose _ (
        Ensures-within_value h.open_session h.close_session _
          (λ s p.
            kept-IsTaken h.session row k table (h.db s) (h.db (h.open_session s).1) (opens s k) p)
          (in_session-Ensures h row table k fuel candidate_id (worker_name hostname)))).at
      s
      (Reach-IsTaken h.session row k table r
        (claimed-IsTaken h.session row k table worker_id before u first).0)
