-- ===== src/Worker.antt =====
-- app/worker/celery_tasks.py and app/worker/watchdog.py: what a worker does with a message of the
-- queue, and the two periodic jobs that send messages again.
pub mod Queue
pub mod Once
pub mod Parts
pub mod Clean
pub mod Whole
pub mod Examples
mod Assembled
use text.Mathlib.Text.{◌==◌ as str_eq}
use file_extractor.Base.{ℕ, String, Option, none, some, List, [], ◌∷◌, if◌then◌else◌}
use file_extractor.Base.Int.{pos}
use file_extractor.Base.Exec.{Exec, Result, ok, raised, pure, finally, within, ◌>>=◌, ◌>>◌}
use file_extractor.Domain.Task.{DownloadTask}
use file_extractor.Download.Ports.{World}
use file_extractor.Download.State.{ProcessFilesCommand, Ended}
use file_extractor.Download.Loop.{execute}
use file_extractor.Repositories.Tasks.{Session, claim, reclaim_stuck, reclaim_blocked}

-- What a worker runs on: the ports of the handler, the session of the task repository, which is a
-- part of the world of the ports, and the libraries' ways to open and to close a session, an engine
-- and a client.
pub record Host : Type 1 where
  pub ports : World
  pub session : Session
  pub db : ports.State → session.State
  pub with_db : session.State → ports.State → ports.State
  pub open_session : Exec ports.State (Unit {0})
  pub close_session : Exec ports.State (Unit {0})
  pub dispose : Exec ports.State (Unit {0})
  pub open_client : Exec ports.State (Unit {0})
  pub close_client : Exec ports.State (Unit {0})

-- `self.request.hostname or "unknown"`
abbrev pub worker_name : Option String → String
worker_name none = "unknown"
worker_name (some name) = if str_eq name "" then "unknown" else name

-- `task.candidate_id or None`
abbrev pub or_none : String → Option String
or_none c = if str_eq c "" then none else some c

module _ (h : Host) where
  -- A call of the repository on the session.
  abbrev pub on_db : {A : Type 0} → Exec h.session.State A → Exec h.ports.State A
  on_db m s = let (r, t) = m (h.db s) in (r, h.with_db t s)

  abbrev pub without_task :
      Result (Option Ended) × Option DownloadTask × h.ports.State
      → Result (Option Ended) × h.ports.State
  without_task (r, task, s) = (r, s)

  -- `ProcessFilesHandler(...).execute(command)`, with the ports built on the session and the client
  abbrev pub handled : ℕ → ProcessFilesCommand → Exec h.ports.State (Option Ended)
  handled fuel command s = without_task (execute h.ports fuel command s)

  -- What follows the claim: `if not task: return`, or the commit of the claim and the handler.
  unfoldable pub claimed :
      ℕ → ProcessFilesCommand → Option DownloadTask → Exec h.ports.State (Option Ended)
  claimed fuel command none = pure none
  claimed fuel command (some t) =
      h.ports.commit >> within h.open_client h.close_client (handled fuel command)

  -- `async with async_session_maker() as session:`
  unfoldable pub in_session : ℕ → ProcessFilesCommand → String → Exec h.ports.State (Option Ended)
  in_session fuel command worker_id =
      on_db (claim h.session command.task_id worker_id) >>= claimed fuel command

  -- `process_files_task`; it returns how the loop of the handler ended, where it was started.
  unfoldable pub process_files_task :
      ℕ → String → Option String → Option String → Exec h.ports.State (Option Ended)
  process_files_task fuel task_id candidate_id hostname = finally h.dispose (
      within h.open_session h.close_session (
        in_session fuel (record { task_id = task_id; candidate_id = candidate_id })
          (worker_name hostname)))

  -- `_requeue_task(task.id, task.candidate_id or None)`
  unfoldable pub requeue_task : DownloadTask → Exec h.ports.State (Unit {0})
  requeue_task t = h.ports.send_task t.id (or_none t.candidate_id)

  -- `for task in ...:`
  unfoldable pub requeue_tasks : List DownloadTask → Exec h.ports.State (Unit {0})
  requeue_tasks [] = pure tt
  requeue_tasks (t ∷ ts) = do requeue_task t; requeue_tasks ts

  -- `_run` of both jobs: what the repository takes back is committed before it is sent.
  unfoldable pub sweep : Exec h.session.State (List DownloadTask) → Exec h.ports.State (Unit {0})
  sweep reclaim = finally h.dispose (
      within h.open_session h.close_session
        (on_db reclaim >>= λ found. h.ports.commit >> requeue_tasks found))

  -- `timedelta(minutes=5)` in seconds, and the limit of a sweep.
  unfoldable pub reclaim_stuck_tasks : Exec h.ports.State (Unit {0})
  reclaim_stuck_tasks = sweep (reclaim_stuck h.session (pos 300) 20)

  unfoldable pub reclaim_blocked_tasks : Exec h.ports.State (Unit {0})
  reclaim_blocked_tasks = sweep (reclaim_blocked h.session 20)
