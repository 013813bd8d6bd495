-- ===== src/Domain/Task.antt =====
-- app/domain/entities/download_task.py: `class DownloadTask`. A method takes the readings of
-- `datetime.now(UTC)` that it makes as arguments, and returns the task beside its exception.
pub mod Lifecycle
pub mod Consistency
use file_extractor.Base.{
  ℕ, ◌+◌, ◌-◌, String, ◌<>◌, Bool, true, false, ◌&&◌, Option, none, some, if◌then◌else◌, ltb, ◌||◌,
}
use file_extractor.Base.Int.{ℤ}
use file_extractor.Base.Errors.{Error, domain, invalid_status_transition, task_not_running}
use file_extractor.Base.Exec.{Exec, Result, ok, raised}
use file_extractor.Domain.Status.{
  TaskStatus, task_status_name, is_pending, is_running, is_blocked_status,
}
use file_extractor.Domain.Time.{DateTime, add_seconds}
use text.Mathlib.Text.{◌==◌}

pub record DownloadTask : Type 0 where
  pub id : String
  pub candidate_id : String
  pub status : TaskStatus
  pub received_files : ℕ
  pub processed_files : ℕ
  pub error : Option String
  pub started_at : Option DateTime
  pub finished_at : Option DateTime
  pub worker_id : Option String
  pub last_heartbeat : Option DateTime
  pub attempts : ℕ
  pub blocked_until : Option DateTime
  pub block_reason : Option String

-- `DownloadTask(task_id=..., candidate_id=...)`, the other arguments at their defaults.
abbrev pub new_task : String → String → DownloadTask
new_task task_id candidate_id = record {
  id = task_id;
  candidate_id = candidate_id;
  status = TaskStatus.pending;
  received_files = 0;
  processed_files = 0;
  error = none;
  started_at = none;
  finished_at = none;
  worker_id = none;
  last_heartbeat = none;
  attempts = 0;
  blocked_until = none;
  block_reason = none;
}

-- The exceptions that the guards raise.
abbrev pub bad_transition : DownloadTask → TaskStatus → Error
bad_transition t target =
    domain (
      invalid_status_transition "DownloadTask" (task_status_name t.status)
        (task_status_name target))

abbrev pub not_running : DownloadTask → Error
not_running t = domain (task_not_running t.id (task_status_name t.status))

unfoldable pub claim : String → DateTime → DateTime → Exec DownloadTask (Unit {0})
claim worker now_started now_beat t =
    if is_pending t.status
    then (
      ok tt,
      record t {
        status = TaskStatus.running;
        worker_id = some worker;
        started_at = some now_started;
        last_heartbeat = some now_beat;
        attempts = t.attempts + 1;
      },
    )
    else (raised (bad_transition t TaskStatus.running), t)

unfoldable pub heartbeat : DateTime → Exec DownloadTask (Unit {0})
heartbeat now t =
    if is_running t.status
    then (ok tt, record t { last_heartbeat = some now })
    else (raised (not_running t), t)

unfoldable pub increase_received : ℕ → Exec DownloadTask (Unit {0})
increase_received count t =
    if is_running t.status
    then (ok tt, record t { received_files = t.received_files + count })
    else (raised (not_running t), t)

-- `max(0, received - count)`: on the natural numbers `-` stops at 0.
unfoldable pub decrease_received : ℕ → Exec DownloadTask (Unit {0})
decrease_received count t = (ok tt, record t { received_files = t.received_files - count })

unfoldable pub increase_processed : ℕ → Exec DownloadTask (Unit {0})
increase_processed count t =
    if is_running t.status
    then (ok tt, record t { processed_files = t.processed_files + count })
    else (raised (not_running t), t)

unfoldable pub complete : DateTime → Exec DownloadTask (Unit {0})
complete now t =
    if is_running t.status
    then (ok tt, record t { status = TaskStatus.success; finished_at = some now })
    else (raised (bad_transition t TaskStatus.success), t)

unfoldable pub fail : String → DateTime → Exec DownloadTask (Unit {0})
fail error now t =
    if is_pending t.status || is_running t.status
    then (
      ok tt,
      record t { status = TaskStatus.failed; error = some error; finished_at = some now },
    )
    else (raised (bad_transition t TaskStatus.failed), t)

-- The end of `block`, once `blocked_until` is computed. The status was written before that, so it
-- stays where the sum is no `datetime`.
unfoldable pub block_until : String → Result DateTime → Exec DownloadTask (Unit {0})
block_until reason (raised e) t = (raised e, record t { status = TaskStatus.blocked })
block_until reason (ok until) t = (
  ok tt,
  record t {
    status = TaskStatus.blocked;
    blocked_until = some until;
    block_reason = some reason;
    error = some (if reason == "" then "External API block" else "External API block: " <> reason);
  },
)

unfoldable pub block : ℤ → String → DateTime → Exec DownloadTask (Unit {0})
unfolding block_until
block retry_after_seconds reason now t =
    if is_running t.status
    then block_until reason (add_seconds now retry_after_seconds) t
    else (raised (not_running t), t)

unfoldable pub is_blocked : DateTime → DownloadTask → Bool
is_blocked now t =
    is_blocked_status t.status && elim t.blocked_until [ none ↦ true | some until ↦ ltb now until ]
