-- ===== src/Download/Counts/Methods.antt =====
-- What the methods of `DownloadTask` that the handler calls do to the counts.
use file_extractor.Base.{ℕ, ◌+◌, ◌≡◌, refl, String, Bool-cases, inl, inr, ◌||◌, arith}
use file_extractor.Base.Int.{ℤ}
use file_extractor.Base.Exec.Ensures.{Post}
use file_extractor.Domain.Status.{TaskStatus, is_pending, is_running}
use file_extractor.Domain.Task
use file_extractor.Domain.Task.{DownloadTask}
use file_extractor.Domain.Time.{DateTime}
use file_extractor.Download.Counts.{Counts, IsOpen, IsAt, IsPutOff, IsOwed}

module _ (base : DownloadTask) (k : ℕ) where
  pub heartbeat-IsAt :
      (p : ℕ) (now : DateTime) (t : DownloadTask)
      → IsAt base k p t
      → IsAt base k p (Task.heartbeat now t).1
  unfolding Task.heartbeat
  heartbeat-IsAt p now t h = ground arith

  -- What `block` leaves of a running task, by how it ends.
  pub block-Post :
      (n : ℤ) (reason : String) (now : DateTime) (t : DownloadTask)
      → IsOpen base k t
      → Post (λ _. IsPutOff base k) (Counts base k) (Task.block n reason now t)
  unfolding Task.block
  block-Post n reason now t h = ground arith

  pub increase_received-Post :
      (p n : ℕ) (t : DownloadTask)
      → IsAt base k p t
      → Post (λ _. IsAt base (k + n) p) (Counts base k) (Task.increase_received n t)
  unfolding Task.increase_received
  increase_received-Post p n t h = ground arith

  pub complete-Post :
      (now : DateTime) (t : DownloadTask)
      → IsOpen base k t
      → Post
          (λ _ u. (u.status ≡ TaskStatus.success) × Counts base k u)
          (Counts base k)
          (Task.complete now t)
  unfolding Task.complete
  complete-Post now t h = ground arith

-- Giving back what is outstanding.
pub decrease_received-Post :
    (base : DownloadTask) (k : ℕ) (t : DownloadTask)
    → IsOpen base k t
    → Post (λ _. IsOpen base 0) (Counts base 0) (Task.decrease_received k t)
unfolding Task.decrease_received
decrease_received-Post base k t h = ground arith

pub increase_processed-Post :
    (base : DownloadTask) (n k p : ℕ) (t : DownloadTask)
    → IsAt base (n + k) p t
    → Post (λ _. IsAt base k (p + n)) (IsOpen base (n + k)) (Task.increase_processed n t)
unfolding Task.increase_processed
increase_processed-Post base n k p t h = ground arith

pub fail-Post :
    (base : DownloadTask) (m : String) (now : DateTime) (t : DownloadTask)
    → IsOwed base t
    → Post (λ _ u. (u.status ≡ TaskStatus.failed) × IsOwed base u) (IsOwed base) (Task.fail m now t)
unfolding Task.fail
fail-Post base m now t (k, h) = elim (Bool-cases (is_pending t.status || is_running t.status)) [
  | inl e ↦ rw e (refl, (k, ground arith))
  | inr e ↦ rw e (k, h)
]
