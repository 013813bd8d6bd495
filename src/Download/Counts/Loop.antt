-- ===== src/Download/Counts/Loop.antt =====
-- The loop of `_run`: the counts of the task when it is left.
use file_extractor.Base.{
  ℕ, zero, suc, ◌+◌, ◌≤◌, ◌≡◌, false, arith, String, inl, inr, Option, List, [], ◌∷◌, ◌++◌, length,
  take, drop, length-append, length-take-drop, ltb,
}
use file_extractor.Base.Exec.{Exec, Result, ok, raised, pure, attempt, ◌>>=◌, ◌>>◌}
use file_extractor.Base.Exec.Ensures.{
  Post-weaken, Ensures, Either, Ensures-attempt, Ensures-if, Ensures-bind, Ensures-Keeps,
  Ensures-raises,
}
use file_extractor.Domain.Task
use file_extractor.Domain.Task.{DownloadTask}
use file_extractor.Download.Ports.{World}
use file_extractor.Download.State.{
  Run, Way, goes_on, returns, Ended, broke, returned, exhausted, Fetched, names, stop, call,
  on_task, save,
}
use file_extractor.Download.Batch.{put_off, work_batch}
use file_extractor.Download.Loop.{take_names, answered, fetch, worked, fetched, loop}
use file_extractor.Download.Counts.{Counts, IsOpen, IsAt, IsPutOff, IsOwed}
use file_extractor.Download.Counts.Methods.{increase_received-Post}
use file_extractor.Download.Counts.Steps.{On, Ensures-on_task, Keeps-save, Keeps-call}
use file_extractor.Download.Counts.Rounds.{Worked, IsSettled, Ensures-put_off, Ensures-work_batch}

-- How the loop was left, and the task then: it has processed `n` files at least if its fuel has
-- run out.
abbrev pub Left : DownloadTask → ℕ → Ended → DownloadTask → Type 0
Left base n broke = IsOpen base 0
Left base n returned = λ t. (k : ℕ) × IsPutOff base k t
Left base n exhausted = λ t. (k : ℕ) × IsOpen base k t × (n ≤ t.processed_files)

fewer :
    (base : DownloadTask) (m n : ℕ) (e : Ended) (t : DownloadTask)
    → m ≤ n
    → Left base n e t
    → Left base m e t
fewer base m n broke t g h = h
fewer base m n returned t g h = h
fewer base m n exhausted t g (k, h, q) = (k, h, omega arith)

-- What the head of an iteration makes sure of.
abbrev Fresh : DownloadTask → ℕ → ℕ → Fetched → DownloadTask → Type 0
Fresh base p n (names found) = λ t. IsAt base (length found) p t × (1 ≤ length found)
Fresh base p n (stop e) = Left base n e

settled-IsOwed :
    (base : DownloadTask) (k p : ℕ) (t : DownloadTask) → IsSettled base k p t → IsOwed base t
settled-IsOwed base k p t (inl c) = (0, c)
settled-IsOwed base k p t (inr c) = (k, c.0.1)

-- A batch takes one name at least.
take_some : (found : List String) → 1 ≤ length found → 1 ≤ length (take 3 found)
take_some [] h = h
take_some (x ∷ xs) h = omega arith

module _ {w : World} (base : DownloadTask) where
  module _ (p n : ℕ) where
    received_then_saved :
        (pending found : List String)
        → 1 ≤ length found
        → Ensures {S = Run w}
            (On (IsAt base (length pending) p))
            (on_task (Task.increase_received (length found))
              >> (save >> pure (names (pending ++ found))))
            (λ o. On (Fresh base p n o))
            (On (IsOwed base))
    received_then_saved pending found some_new =
        Ensures-bind (on_task (Task.increase_received (length found))) _
          (Ensures-raises (On (IsOwed base)) (λ r c. (length pending, c))
            (Ensures-on_task (IsAt base (length pending) p)
              (λ _. IsAt base (length pending + length found) p) (Counts base (length pending)) _
              (increase_received-Post base (length pending) p (length found))))
          λ _.
            Ensures-bind save _
              (Ensures-Keeps (On (IsOwed base)) save
                (Keeps-save (IsAt base (length pending + length found) p)) (λ r h. (_, h.0.1)))
              λ _. record { at = λ r h. rw length-append (h, omega arith) }

    Ensures-take_names :
        (pending found : List String)
        → Ensures {S = Run w}
            (On (IsAt base (length pending) p))
            (take_names pending found)
            (λ o. On (Fresh base p n o))
            (On (IsOwed base))
    unfolding take_names
    Ensures-take_names [] [] = record { at = λ r h. h.0 }
    Ensures-take_names (q ∷ qs) [] = record { at = λ r h. (h, omega arith) }
    Ensures-take_names [] (x ∷ xs) = received_then_saved [] (x ∷ xs) (omega arith)
    Ensures-take_names (q ∷ qs) (x ∷ xs) = received_then_saved (q ∷ qs) (x ∷ xs) (omega arith)

    Ensures-answered :
        (pending : List String) (a : Result (List String))
        → Ensures {S = Run w}
            (Either {A = List String}
              (λ _. On (IsAt base (length pending) p))
              (On (IsOpen base (length pending)))
              a)
            (answered pending a)
            (λ o. On (Fresh base p n o))
            (On (IsOwed base))
    unfolding answered
    Ensures-answered pending (raised e) =
        Ensures-bind (put_off e) _
          (Ensures-raises (On (IsOwed base)) (λ r c. (_, c))
            (Ensures-put_off base (length pending) e))
          λ _. record { at = λ r h. (_, h) }
    Ensures-answered pending (ok found) = Ensures-take_names pending found

    Ensures-fetch :
        (pending : List String) (candidate_id : Option String)
        → Ensures {S = Run w}
            (On (IsAt base (length pending) p))
            (fetch pending candidate_id)
            (λ o. On (Fresh base p n o))
            (On (IsOwed base))
    unfolding fetch
    Ensures-fetch pending candidate_id =
        Ensures-if (ltb (length pending) 3) _ _
          (λ _.
            Ensures-bind (attempt (call (w.get_file_names candidate_id))) _
              (Ensures-attempt (On (IsOwed base)) (call (w.get_file_names candidate_id)) (
                Ensures-Keeps (On (IsOpen base (length pending)))
                  (call (w.get_file_names candidate_id))
                  (Keeps-call (IsAt base (length pending) p) (w.get_file_names candidate_id))
                  (λ r h. h.0)))
              (Ensures-answered pending))
          (λ long. record { at = λ r h. (h, many long) })
      where
        many : ltb (length pending) 3 ≡ false → 1 ≤ length pending
        many long = ground arith

  module _ (candidate_id : Option String) where
    module _ (fuel : ℕ) (rest : List String → Exec (Run w) Ended)
        (h : (pending : List String) (p : ℕ)
          → Ensures {S = Run w}
              (On (IsAt base (length pending) p))
              (rest pending)
              (λ e. On (Left base (p + fuel) e))
              (On (IsOwed base))) where
      Ensures-worked :
          (pending : List String) (p : ℕ) (o : Way)
          → Ensures {S = Run w}
              (On (Worked base (length pending) p o))
              (worked (rest pending) o)
              (λ e. On (Left base (p + fuel) e))
              (On (IsOwed base))
      unfolding worked
      Ensures-worked pending p goes_on = h pending p
      Ensures-worked pending p returns = record { at = λ r q. (0, q) }

      Ensures-batch :
          (p : ℕ) (found : List String)
          → Ensures {S = Run w}
              (On (IsAt base (length found) p))
              (work_batch (take 3 found) (drop 3 found) candidate_id
                >>= worked (rest (drop 3 found)))
              (λ e. On (Left base (p + length (take 3 found) + fuel) e))
              (On (IsOwed base))
      Ensures-batch p found =
          Ensures-bind (work_batch (take 3 found) (drop 3 found) candidate_id) _
            (Ensures-raises (On (IsOwed base))
              (λ r. settled-IsOwed base (length (drop 3 found)) (p + length (take 3 found)) r.task)
              (rw length-take-drop at
                (Ensures-work_batch {w = w} base (take 3 found) (drop 3 found) p candidate_id)))
            (Ensures-worked (drop 3 found) (p + length (take 3 found)))

      Ensures-fetched :
          (p : ℕ) (o : Fetched)
          → Ensures {S = Run w}
              (On (Fresh base p (p + suc fuel) o))
              (fetched rest candidate_id o)
              (λ e. On (Left base (p + suc fuel) e))
              (On (IsOwed base))
      unfolding fetched
      Ensures-fetched p (stop e) = record { at = λ r q. q }
      Ensures-fetched p (names found) = record {
        at = λ r (q, long).
            let one = take_some found long in
            Post-weaken {R = λ e. On {w = w} (Left base (p + suc fuel) e)}
              {E = On {w = w} (IsOwed base)} (fetched rest candidate_id (names found) r)
              (λ e t left.
                fewer base (p + suc fuel) (p + length (take 3 found) + fuel) e t.task (omega arith)
                  left)
              (λ t owed. owed) ((Ensures-batch p found).at r q);
      }

    pub Ensures-loop :
        (fuel : ℕ) (pending : List String) (p : ℕ)
        → Ensures {S = Run w}
            (On (IsAt base (length pending) p))
            (loop fuel pending candidate_id)
            (λ e. On (Left base (p + fuel) e))
            (On (IsOwed base))
    unfolding loop
    Ensures-loop zero pending p = record { at = λ r h. (_, h.0, omega (arith, h.1)) }
    Ensures-loop (suc fuel) pending p =
        Ensures-bind (fetch pending candidate_id) _
          (Ensures-fetch p (p + suc fuel) pending candidate_id)
          (Ensures-fetched fuel (λ rest. loop fuel rest candidate_id) (Ensures-loop fuel) p)
