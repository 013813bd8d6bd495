-- ===== src/Download/Loop.antt =====
-- app/application/handlers/download_handler.py: the head of an iteration, the loop of `_run`, and
-- `execute`.
use file_extractor.Uow.{with_uow}
use file_extractor.Base.{
  ℕ, zero, suc, String, Option, none, some, List, [], ◌++◌, length, take, drop, ltb, if◌then◌else◌,
}
use file_extractor.Base.Errors.{message}
use file_extractor.Base.Exec.{Exec, Result, ok, raised, pure, attempt, ◌>>=◌, ◌>>◌}
use file_extractor.Domain.Task
use file_extractor.Domain.Task.{DownloadTask}
use file_extractor.Download.Ports.{World}
use file_extractor.Download.State.{
  Run, Way, goes_on, returns, ProcessFilesCommand, Ended, broke, returned, exhausted, Fetched,
  names, stop, call, on_task, clock, save,
}
use file_extractor.Download.Batch.{put_off, work_batch}

module _ {w : World} where
  -- The names that a call of the API has brought.
  unfoldable pub take_names : List String → List String → Exec (Run w) Fetched
  take_names [] [] = pure (stop broke)
  take_names pending [] = pure (names pending)
  take_names pending found = do
    on_task (Task.increase_received (length found))
    save
    pure (names (pending ++ found))

  -- How the call of the API ended: its `except` clause, or what follows.
  unfoldable pub answered : List String → Result (List String) → Exec (Run w) Fetched
  answered pending (raised e) = put_off e >> pure (stop returned)
  answered pending (ok found) = take_names pending found

  -- `if len(pending) < 3:`, lines 86 to 101.
  unfoldable pub fetch : List String → Option String → Exec (Run w) Fetched
  fetch pending candidate_id =
      if ltb (length pending) 3
      then attempt (call (w.get_file_names candidate_id)) >>= answered pending
      else pure (names pending)

  -- The end of an iteration: leave the loop, or go on by `rest`.
  unfoldable pub worked : Exec (Run w) Ended → Way → Exec (Run w) Ended
  worked rest returns = pure returned
  worked rest goes_on = rest

  -- `if len(pending) < 3:` is done: `batch = pending[:3]` and `pending = pending[3:]`, and so on.
  unfoldable pub fetched :
      (List String → Exec (Run w) Ended) → Option String → Fetched → Exec (Run w) Ended
  fetched rest candidate_id (stop e) = pure e
  fetched rest candidate_id (names found) =
      work_batch (take 3 found) (drop 3 found) candidate_id >>= worked (rest (drop 3 found))

  -- `while True:`, a round for each unit of fuel.
  unfoldable pub loop : ℕ → List String → Option String → Exec (Run w) Ended
  loop zero pending candidate_id = pure exhausted
  loop (suc fuel) pending candidate_id =
      fetch pending candidate_id >>= fetched (λ rest. loop fuel rest candidate_id) candidate_id

  -- What follows the loop: on `break` the task is completed, on `return` nothing.
  unfoldable pub finish : Ended → Exec (Run w) Ended
  finish broke = do now ← clock; on_task (Task.complete now); save; pure broke
  finish e = pure e

  -- `_run`
  unfoldable pub run : ℕ → Option String → Exec (Run w) Ended
  run fuel candidate_id = loop fuel [] candidate_id >>= finish

  -- `_fail_task`
  unfoldable pub fail_task : String → Exec (Run w) (Unit {0})
  fail_task error = do now ← clock; on_task (Task.fail error now); save

  -- `except Exception as e:` in `execute`.
  unfoldable pub failed_run : Result Ended → Exec (Run w) Ended
  failed_run (ok e) = pure e
  failed_run (raised e) = fail_task (message w.repr e) >> pure returned

  -- The `try` statement of `execute`.
  unfoldable pub process : ℕ → Option String → Exec (Run w) Ended
  process fuel candidate_id = attempt (run fuel candidate_id) >>= failed_run

module _ (w : World) where
  -- `execute`: a task that is not there is only logged. The task object is given back beside.
  unfoldable pub execute :
      ℕ → ProcessFilesCommand → w.State → Result (Option Ended) × Option DownloadTask × w.State
  execute fuel command s =
      let (found, s') = with_uow w.rollback (w.get_task command.task_id) s in
      elim found [
        | raised e ↦ (raised e, none, s')
        | ok none ↦ (ok none, none, s')
        | ok (some task) ↦
            let (ended, r) =
              process {w = w} fuel command.candidate_id
                (record { task = task; world = s'; files = []; beats = 0 }) in
            (elim ended [ ok e ↦ ok (some e) | raised e ↦ raised e ], some r.task, r.world)
      ]
