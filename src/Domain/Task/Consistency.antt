-- ===== src/Domain/Task/Consistency.antt =====
-- What a status vouches for, and what a call of a method leaves behind when it raises.
use file_extractor.Base.{
  String, ◌≡◌, refl, ◌⊎◌, Option, none, some, arith, Bool, true, false, ◌&&◌, ltb,
}
use file_extractor.Base.Int.{ℤ}
use file_extractor.Base.Errors.{Error}
use file_extractor.Base.Exec.{ok, raised}
use file_extractor.Domain.Status.{TaskStatus, is_running}
use file_extractor.Domain.Time.{DateTime, add_seconds}
use file_extractor.Domain.Task.{DownloadTask, fail, block, block_until, is_blocked, bad_transition}
use file_extractor.Domain.Task.Lifecycle.{Call, claim_by, end_at, give_up, block_for, invoke}

-- How a call that raised has left the task: as it was, or, if it was `block` on a running task and
-- the end of the block is no `datetime`, with the status BLOCKED and all else as it was.
abbrev pub IsLeft : Call → Error → DownloadTask → DownloadTask → Type 0
IsLeft (block_for n reason now) e t u =
    (u ≡ t)
    ⊎ ((is_running t.status ≡ true)
        × (add_seconds now n ≡ raised e)
        × (u ≡ record t { status = TaskStatus.blocked }))
IsLeft _ e t u = u ≡ t

block-overflow :
    (n : ℤ) (reason : String) (now : DateTime) (t : DownloadTask) (e : Error)
    → is_running t.status ≡ true
    → add_seconds now n ≡ raised e
    → block n reason now t ≡ (raised e, record t { status = TaskStatus.blocked })
unfolding block
block-overflow n reason now t e run over = rw (run, over, block_until)

-- A method that raises has changed nothing; only `block` on a running task, when the end of the
-- block is no `datetime`, has set the status to BLOCKED before it raises, and all else as it was.
pub raised-IsLeft :
    (c : Call) (t : DownloadTask) (e : Error)
    → (invoke c t).0 ≡ raised e
    → IsLeft c e t (invoke c t).1
unfolding invoke block_until
raised-IsLeft (claim_by w s b) t e h = ground arith
raised-IsLeft _ t e h = ground arith

abbrev pub has {ℓ} : {A : Type ℓ} → Option A → Bool
has none = false
has (some a) = true

-- What the fields of a task must hold in each status.
abbrev pub fields_held : TaskStatus → DownloadTask → Bool
fields_held TaskStatus.pending t = true
fields_held TaskStatus.running t =
    has t.worker_id && has t.started_at && has t.last_heartbeat && ltb 0 t.attempts
fields_held TaskStatus.success t = has t.finished_at
fields_held TaskStatus.failed t = has t.finished_at && has t.error
fields_held TaskStatus.blocked t = has t.blocked_until && has t.block_reason && has t.error

abbrev pub IsConsistent : DownloadTask → Type 0
IsConsistent t = fields_held t.status t ≡ true

-- A call that returns keeps a task consistent: a RUNNING task has a worker, a start, a heartbeat
-- and an attempt; a SUCCESS task an end; a FAILED one an end and an error; a BLOCKED one the end
-- of the block, its reason and an error.
pub invoke-IsConsistent :
    (c : Call) (t : DownloadTask)
    → (invoke c t).0 ≡ ok tt
    → IsConsistent t
    → IsConsistent (invoke c t).1
unfolding invoke block_until
invoke-IsConsistent (claim_by w s b) t r h = ground arith
invoke-IsConsistent (block_for n reason now) t r h = ground arith
invoke-IsConsistent (give_up e now) t r h = ground arith
invoke-IsConsistent (end_at now) t r h = ground arith
invoke-IsConsistent _ t r h = ground arith

-- If a running task is blocked for so long that the end is no `datetime`, `block` raises and yet
-- the task is BLOCKED: with no end set before, `is_blocked` holds at every later time, and `fail`,
-- by which the caller would record the exception, raises in its turn and changes nothing.
pub block_overflow :
    (n : ℤ) (reason : String) (now : DateTime) (t : DownloadTask) (e : Error)
    → is_running t.status ≡ true
    → t.blocked_until ≡ none
    → add_seconds now n ≡ raised e
    → let u = (block n reason now t).1 in
      ((block n reason now t).0 ≡ raised e)
      × ((later : DateTime) → is_blocked later u ≡ true)
      × ((m : String) (later : DateTime)
          → fail m later u ≡ (raised (bad_transition u TaskStatus.failed), u))
unfolding is_blocked fail
block_overflow n reason now t e run fresh over =
    rw (block-overflow n reason now t e run over) (refl, λ later. rw fresh, λ m later. refl)
