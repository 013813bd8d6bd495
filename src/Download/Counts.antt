-- ===== src/Download/Counts.antt =====
-- The counts of received and processed files through a run of `ProcessFilesHandler`, against any
-- world: what the API, the store and the database answer and raise is left open.
pub mod Steps
pub mod Methods
pub mod Rounds
pub mod Loop
pub mod Whole
use file_extractor.Base.{ℕ, ◌+◌, ◌-◌, ◌≤◌, ◌≡◌, refl, Bool, true, arith}
use file_extractor.Base.Exec.{Exec, ok, raised}
use file_extractor.Domain.Status.{is_running, is_blocked_status}
use file_extractor.Domain.Task.{DownloadTask}

-- Since it was the task `base`, a task is the same claim by the same worker, and it has received
-- `k` files more than it has processed.
pub record Counts (base : DownloadTask) (k : ℕ) (t : DownloadTask) : Type 0 where
  pub same_id : t.id ≡ base.id
  pub same_candidate : t.candidate_id ≡ base.candidate_id
  pub same_worker : t.worker_id ≡ base.worker_id
  pub same_attempts : t.attempts ≡ base.attempts
  pub same_start : t.started_at ≡ base.started_at
  pub grows : base.processed_files ≤ t.processed_files
  pub balance :
      t.received_files + base.processed_files ≡ t.processed_files + base.received_files + k

-- ... and it is RUNNING, or BLOCKED.
abbrev pub IsOpen : DownloadTask → ℕ → DownloadTask → Type 0
IsOpen base k t = (is_running t.status ≡ true) × Counts base k t

-- ... and it has processed `p`.
abbrev pub IsAt : DownloadTask → ℕ → ℕ → DownloadTask → Type 0
IsAt base k p t = IsOpen base k t × (t.processed_files ≡ p)

abbrev pub IsPutOff : DownloadTask → ℕ → DownloadTask → Type 0
IsPutOff base k t = (is_blocked_status t.status ≡ true) × Counts base k t

-- ... for some `k`.
abbrev pub IsOwed : DownloadTask → DownloadTask → Type 0
IsOwed base t = (k : ℕ) × Counts base k t
