-- ===== src/Download/State.antt =====
-- app/application/handlers/download_handler.py: the state of `ProcessFilesHandler`, which works
-- through a task that is already RUNNING, and the private methods `_maybe_heartbeat`,
-- `_handle_block` and `_cleanup_batch_files`.
use file_extractor.Base.{
  ℕ, ◌%◌, String, Bool, true, false, Option, none, some, List, [], ◌∷◌, ◌==◌, if◌then◌else◌,
}
use file_extractor.Base.Int.{ℤ, pos, leb_ℤ}
use file_extractor.Base.Errors.{blocked, message}
use file_extractor.Base.Exec.{Exec, ok, pure, gets, attempt, ◌>>=◌, ◌>>◌}
use file_extractor.Domain.File.{File, StorageKey}
use file_extractor.Domain.Task
use file_extractor.Domain.Task.{DownloadTask}
use file_extractor.Domain.Time.{DateTime}
use file_extractor.Uow.{with_uow}
use file_extractor.Download.Ports.{World}

-- The variables of `_run`: the task object, the world, `batch_file_entities`, `heartbeat_counter`.
pub record Run (w : World) : Type 0 where
  pub task : DownloadTask
  pub world : w.State
  pub files : List File
  pub beats : ℕ

-- `ProcessFilesCommand`
pub record ProcessFilesCommand : Type 0 where
  pub task_id : String
  pub candidate_id : Option String

-- HEARTBEAT_INTERVAL, BLOCK_THRESHOLD_SECONDS
abbrev pub heartbeat_interval : ℕ
heartbeat_interval = 30

abbrev pub block_threshold_seconds : ℤ
block_threshold_seconds = pos 60

-- How the loop of `_run` was left: by `break`, by `return`, or by the end of the fuel, which stands
-- for a loop that goes on.
pub data Ended : Type 0 where
  broke returned exhausted : Ended

-- Whether an iteration goes on to the next, or returns from `_run`.
pub data Way : Type 0 where
  goes_on returns : Way

-- What the head of an iteration decides.
pub data Fetched : Type 0 where
  names : List String → Fetched
  stop : Ended → Fetched

module _ (w : World) where
  -- The body of the second `try` below.
  unfoldable pub forget_file : String → File → Exec w.State (Unit {0})
  forget_file task_id f =
      w.delete_file f.id >> w.delete_downloaded_file task_id f.filename >> w.commit

module _ {w : World} where
  -- A call into the world, into the task object, and a reading of the clock.
  abbrev pub call : {A : Type 0} → Exec w.State A → Exec (Run w) A
  call f r = let (a, s) = f r.world in (a, record r { world = s })

  abbrev pub on_task : {A : Type 0} → Exec DownloadTask A → Exec (Run w) A
  on_task f r = let (a, t) = f r.task in (a, record r { task = t })

  abbrev pub clock : Exec (Run w) DateTime
  clock r = let (t, s) = w.now r.world in (ok t, record r { world = s })

  abbrev pub new_id : Exec (Run w) ℕ
  new_id r = let (n, s) = w.uuid4 r.world in (ok n, record r { world = s })

  -- `async with self._uow: await task_repo.update(task); await self._uow.commit()`
  unfoldable pub save : Exec (Run w) (Unit {0})
  save = do t ← gets (λ r. r.task); call (with_uow w.rollback (w.update_task t >> w.commit))

  -- `_maybe_heartbeat`
  unfoldable pub maybe_heartbeat : Exec (Run w) (Unit {0})
  maybe_heartbeat = do
    counter ← gets (λ r. r.beats)
    if counter % heartbeat_interval == 0
        then (do now ← clock; on_task (Task.heartbeat now); save)
        else pure tt

  -- `_handle_block`
  unfoldable pub handle_block : ℤ → Exec (Run w) Bool
  handle_block retry_after = if leb_ℤ retry_after block_threshold_seconds then pure false else do
    now ← clock
    on_task (Task.block retry_after (message w.repr (blocked retry_after)) now)
    save
    pure true

  -- One file of `_cleanup_batch_files`, whose storage key is `key`: two `try` blocks that only log
  -- what they catch.
  unfoldable pub clean_key : String → File → Option StorageKey → Exec (Run w) (Unit {0})
  clean_key task_id f none = pure tt
  clean_key task_id f (some key) = do
    attempt (call (w.delete_object key.value))
    attempt (call (with_uow w.rollback (forget_file w task_id f)))
    pure tt

  -- `_cleanup_batch_files`
  unfoldable pub cleanup_batch_files : String → List File → Exec (Run w) (Unit {0})
  cleanup_batch_files task_id [] = pure tt
  cleanup_batch_files task_id (f ∷ fs) = do
    clean_key task_id f f.storage_key
    cleanup_batch_files task_id fs
