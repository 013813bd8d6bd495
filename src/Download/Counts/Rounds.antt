-- ===== src/Download/Counts/Rounds.antt =====
-- An iteration of `_run`, on each way out of it.
use file_extractor.Base.{
  ℕ, ◌+◌, String, Bool, inl, inr, ◌⊎◌, true, false, Option, List, [], length, if◌then◌else◌,
}
use file_extractor.Base.Int.{ℤ, leb_ℤ}
use file_extractor.Base.Errors.{Error, blocked, message}
use file_extractor.Base.Exec.{Result, ok, raised, pure, raise, gets, attempt, modify, ◌>>◌}
use file_extractor.Base.Exec.Ensures.{
  Ensures, Either, Ensures-attempt, Ensures-pure, Ensures-if, Ensures-bind, Ensures-Keeps,
  Ensures-raises,
}
use file_extractor.Domain.Task
use file_extractor.Domain.Task.{DownloadTask}
use file_extractor.Download.Ports.{World}
use file_extractor.Download.State.{
  Run, Way, goes_on, returns, call, on_task, clock, save, handle_block, cleanup_batch_files,
  block_threshold_seconds,
}
use file_extractor.Download.Files.{extract_batch, confirm_batch}
use file_extractor.Download.Batch.{put_off, recover, confirmed, extracted, work_batch}
use file_extractor.Download.Counts.{Counts, IsOpen, IsAt, IsPutOff}
use file_extractor.Download.Counts.Steps.{
  On, Ensures-on_task, Keeps-save, Ensures-cleanup, Keeps-extract_batch, Keeps-call, Keeps-clock,
}
use file_extractor.Download.Counts.Methods.{
  heartbeat-IsAt, block-Post, decrease_received-Post, increase_processed-Post,
}

-- What the two ways of `handle_block` make sure of.
abbrev Handled : DownloadTask → ℕ → Bool → DownloadTask → Type 0
Handled base k true = IsPutOff base k
Handled base k false = IsOpen base k

-- What an iteration makes sure of when it goes on, and when it returns.
abbrev pub Worked : DownloadTask → ℕ → ℕ → Way → DownloadTask → Type 0
Worked base k p goes_on = IsAt base k p
Worked base k p returns = IsPutOff base 0

-- An exception behind the cut of a batch leaves nothing outstanding, or it finds the batch
-- confirmed: the task has processed `p`.
abbrev pub IsSettled : DownloadTask → ℕ → ℕ → DownloadTask → Type 0
IsSettled base k p t = Counts base 0 t ⊎ IsAt base k p t

module _ {w : World} (base : DownloadTask) where
  module _ (k : ℕ) where
    Ensures-handle_block :
        (n : ℤ)
        → Ensures {S = Run w}
            (On (IsOpen base k))
            (handle_block n)
            (λ b. On (Handled base k b))
            (On (Counts base k))
    unfolding handle_block
    Ensures-handle_block n =
        Ensures-if (leb_ℤ n block_threshold_seconds) _ _
          (λ _. Ensures-pure (λ b. On (Handled base k b)) _ false)
          λ _.
            Ensures-bind clock _ (Ensures-Keeps _ clock (Keeps-clock (IsOpen base k)) (λ r h. h.1))
              λ now.
                Ensures-bind (on_task (Task.block n (message w.repr (blocked n)) now)) _
                  (Ensures-on_task (IsOpen base k) (λ _. IsPutOff base k) (Counts base k) _
                    (block-Post base k n (message w.repr (blocked n)) now))
                  λ _.
                    Ensures-bind save _
                      (Ensures-Keeps _ save (Keeps-save (IsPutOff base k)) (λ r h. h.1))
                      λ _. Ensures-pure (λ b. On (Handled base k b)) _ true

    put_unless :
        (n : ℤ) (b : Bool)
        → Ensures {S = Run w}
            (On (Handled base k b))
            (if b then pure tt else raise (blocked n))
            (λ (_ : Unit {0}). On (IsPutOff base k))
            (On (Counts base k))
    put_unless n true = Ensures-pure (λ _. On (IsPutOff base k)) _ tt
    put_unless n false = record { at = λ r h. h.1 }

    pub Ensures-put_off :
        (e : Error)
        → Ensures {S = Run w}
            (On (IsOpen base k))
            (put_off e)
            (λ _. On (IsPutOff base k))
            (On (Counts base k))
    unfolding put_off
    Ensures-put_off (blocked n) =
        Ensures-bind (handle_block n) _ (Ensures-handle_block n) (put_unless n)
    Ensures-put_off _ = record { at = λ r h. h.1 }

  -- The `except` clauses behind a batch give back what was counted for it and for the rest.
  Ensures-recover :
      (left : ℕ) (e : Error)
      → Ensures {S = Run w}
          (On (IsOpen base left))
          (recover left e)
          (λ _. On (IsPutOff base 0))
          (On (Counts base 0))
  unfolding recover
  Ensures-recover left e =
      Ensures-bind (gets (λ r. r)) _ (record { at = λ r h. h })
        λ r.
          Ensures-bind (cleanup_batch_files r.task.id r.files) _
            (Ensures-cleanup (IsOpen base left) (On (Counts base 0)) r.task.id r.files)
            λ _.
              Ensures-bind (on_task (Task.decrease_received left)) _
                (Ensures-on_task (IsOpen base left) (λ _. IsOpen base 0) (Counts base 0) _
                  (decrease_received-Post base left))
                λ _. Ensures-put_off 0 e

  -- `recover` and the return behind it, as they stand in both `except` clauses.
  leave :
      (k p left : ℕ) (e : Error)
      → Ensures {S = Run w}
          (On (IsOpen base left))
          (recover left e >> pure returns)
          (λ o. On (Worked base k p o))
          (On (IsSettled base k p))
  leave k p left e =
      Ensures-bind (recover left e) _ (relax (Ensures-recover left e))
        (λ _. record { at = λ r h. h })
    where
      relax :
          Ensures {S = Run w}
            (On (IsOpen base left))
            (recover left e)
            (λ _. On (IsPutOff base 0))
            (On (Counts base 0))
          → Ensures {S = Run w}
              (On (IsOpen base left))
              (recover left e)
              (λ _. On (IsPutOff base 0))
              (On (IsSettled base k p))
      relax h = Ensures-raises _ (λ r c. inl c) h

  Ensures-confirm_batch :
      (batch : List String) (k p : ℕ) (candidate_id : Option String)
      → Ensures {S = Run w}
          (On (IsAt base (length batch + k) p))
          (confirm_batch batch candidate_id)
          (λ _. On (IsAt base k (p + length batch)))
          (On (IsOpen base (length batch + k)))
  unfolding confirm_batch
  Ensures-confirm_batch batch k p candidate_id =
      Ensures-bind (call (w.mark_downloaded batch candidate_id)) _
        (Ensures-Keeps _ _
          (Keeps-call (IsAt base (length batch + k) p) (w.mark_downloaded batch candidate_id))
          (λ r h. h.0))
        λ _.
          Ensures-on_task (IsAt base (length batch + k) p) (λ _. IsAt base k (p + length batch))
            (IsOpen base (length batch + k)) _ (increase_processed-Post base (length batch) k p)

  -- After the second `try` block.
  confirmed_end :
      (left k p : ℕ) (c : Result (Unit {0}))
      → Ensures {S = Run w}
          (Either (λ _. On (IsAt base k p)) (On (IsOpen base left)) c)
          (confirmed left c)
          (λ o. On (Worked base k p o))
          (On (IsSettled base k p))
  unfolding confirmed
  confirmed_end left k p (raised e) = leave k p left e
  confirmed_end left k p (ok _) =
      Ensures-bind save _ (Ensures-Keeps _ save (Keeps-save (IsAt base k p)) (λ r h. inr h))
        λ _. Ensures-pure (λ o. On (Worked base k p o)) _ goes_on

  -- After the first one.
  extracted_end :
      (batch pending : List String) (p : ℕ) (candidate_id : Option String) (c : Result (Unit {0}))
      → Ensures {S = Run w}
          (Either {A = Unit {0}}
            (λ _. On (IsAt base (length batch + length pending) p))
            (On (IsOpen base (length batch + length pending)))
            c)
          (extracted batch pending candidate_id c)
          (λ o. On (Worked base (length pending) (p + length batch) o))
          (On (IsSettled base (length pending) (p + length batch)))
  unfolding extracted
  extracted_end batch pending p candidate_id (raised e) = leave _ _ _ e
  extracted_end batch pending p candidate_id (ok _) =
      Ensures-bind (attempt (confirm_batch batch candidate_id)) _
        (Ensures-attempt _ (confirm_batch batch candidate_id)
          (Ensures-confirm_batch batch (length pending) p candidate_id))
        (confirmed_end (length batch + length pending) (length pending) (p + length batch))

  -- From the cut of the batch on: with `batch` and `pending` outstanding, an iteration that goes on
  -- has processed the batch and has only `pending` outstanding; one that returns has a BLOCKED task
  -- with nothing outstanding; one that raises has nothing outstanding, or it has processed the
  -- batch and has only `pending` outstanding, with the task still RUNNING.
  pub Ensures-work_batch :
      (batch pending : List String) (p : ℕ) (candidate_id : Option String)
      → Ensures {S = Run w}
          (On (IsAt base (length batch + length pending) p))
          (work_batch batch pending candidate_id)
          (λ o. On (Worked base (length pending) (p + length batch) o))
          (On (IsSettled base (length pending) (p + length batch)))
  unfolding work_batch
  Ensures-work_batch batch pending p candidate_id =
      let k = length batch + length pending in
      Ensures-bind (modify (λ r. record r { files = [] })) _ (record { at = λ r h. h })
        λ _.
          Ensures-bind (attempt (extract_batch batch)) _
            (Ensures-attempt (On (IsSettled base (length pending) (p + length batch)))
              (extract_batch batch)
              (Ensures-Keeps (On (IsOpen base k)) (extract_batch batch)
                (Keeps-extract_batch (IsAt base k p) (heartbeat-IsAt base k p) batch) (λ r h. h.0)))
            (extracted_end batch pending p candidate_id)
