-- ===== src/Download/Batch.antt =====
-- app/application/handlers/download_handler.py: an iteration of `_run` from the cut of the batch
-- on, with its `except` clauses.
use file_extractor.Base.{ℕ, ◌+◌, String, Option, List, [], length, if◌then◌else◌}
use file_extractor.Base.Errors.{Error, blocked}
use file_extractor.Base.Exec.{
  Exec, Result, ok, raised, pure, raise, gets, attempt, modify, ◌>>=◌, ◌>>◌,
}
use file_extractor.Domain.Task
use file_extractor.Domain.Task.{DownloadTask}
use file_extractor.Download.Ports.{World}
use file_extractor.Download.State.{
  Run, Way, goes_on, returns, on_task, save, handle_block, cleanup_batch_files,
}
use file_extractor.Download.Files.{extract_batch, confirm_batch}

module _ {w : World} where
  -- The end of an `except ExternalAPIBlockedError` clause, and of the others: `true` to return,
  -- otherwise the exception goes on.
  unfoldable pub put_off : Error → Exec (Run w) (Unit {0})
  put_off (blocked n) = do put ← handle_block n; if put then pure tt else raise (blocked n)
  put_off e = raise e

  -- The `except` clauses behind both `try` blocks: clean up, give the count back, and return or
  -- raise. `left` is `len(batch) + len(pending)`.
  unfoldable pub recover : ℕ → Error → Exec (Run w) (Unit {0})
  recover left e = do
    r ← gets (λ r. r)
    cleanup_batch_files r.task.id r.files
    on_task (Task.decrease_received left)
    put_off e

  -- What follows the second `try` block, by how it ended; `left` is `len(batch) + len(pending)`.
  unfoldable pub confirmed : ℕ → Result (Unit {0}) → Exec (Run w) Way
  confirmed left (raised e) = recover left e >> pure returns
  confirmed left (ok _) = save >> pure goes_on

  -- What follows the first one.
  unfoldable pub extracted :
      List String → List String → Option String → Result (Unit {0}) → Exec (Run w) Way
  extracted batch pending candidate_id (raised e) =
      recover (length batch + length pending) e >> pure returns
  extracted batch pending candidate_id (ok _) =
      attempt (confirm_batch batch candidate_id) >>= confirmed (length batch + length pending)

  -- The rest of an iteration once the batch is cut off.
  unfoldable pub work_batch : List String → List String → Option String → Exec (Run w) Way
  work_batch batch pending candidate_id = do
    modify (λ r. record r { files = [] })
    attempt (extract_batch batch) >>= extracted batch pending candidate_id
