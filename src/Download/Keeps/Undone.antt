-- ===== src/Download/Keeps/Undone.antt =====
-- What the `except` clauses behind a batch leave of its files.
use mathlib.Core.Path.{subst}
use file_extractor.Base.{
  All, ℕ, String, ◌≡◌, refl, sym, Bool, true, Option, none, some, List, [], ◌∷◌,
}
use file_extractor.Base.Errors.{Error}
use file_extractor.Base.Exec.{Exec, Result, ok, raised, proceed, ◌>>=◌, ◌>>◌}
use file_extractor.Base.Exec.Ensures.{Post, Post_state, Ensures, Ensures-bind, Keeps, Keeps-bind}
use file_extractor.Uow.{with_uow}
use file_extractor.Uow.Blocks.{with_uow-ok}
use file_extractor.Domain.File.{File, StorageKey}
use file_extractor.Domain.Task
use file_extractor.Domain.Task.{DownloadTask}
use file_extractor.Download.Ports.{World}
use file_extractor.Download.State.{Run, on_task, forget_file, clean_key, cleanup_batch_files}
use file_extractor.Download.Batch.{put_off, recover}
use file_extractor.Download.Keeps.Traces.{
  Trace, object, row, download, Erases, forget_file-ok, Gone, RunGone, uow-Keeps, forget-Keeps,
  cleanup-Keeps, put_off-Keeps, on_task-Keeps,
}

module _ {w : World} {gone : w.State → Trace → Bool} (law : Erases w gone) where
  -- Nothing is left of a file that was stored for the task.
  abbrev pub IsUndone : String → w.State → File → Type 0
  IsUndone task_id s f =
      (key : StorageKey)
      → f.storage_key ≡ some key
      → (gone s (object key.value) ≡ true)
        × (gone s (row f.id) ≡ true)
        × (gone s (download task_id f.filename) ≡ true)

  -- What is left of one file, by its traces.
  abbrev Undone : String → File → StorageKey → w.State → Type 0
  Undone id f key s =
      (gone s (object key.value) ≡ true)
      × (gone s (row f.id) ≡ true)
      × (gone s (download id f.filename) ≡ true)

  Keeps-Undone :
      {A : Type 0} (id : String) (f : File) (key : StorageKey) (m : Exec (Run w) A)
      → ((x : Trace) → Keeps (RunGone law x) m)
      → Keeps (λ r. Undone id f key r.world) m
  Keeps-Undone id f key m h = record {
    at = λ r (a, b, c).
        ((h (object key.value)).at r a, (h (row f.id)).at r b, (h (download id f.filename)).at r c);
  }

  abbrev Forgotten : String → File → w.State → Type 0
  Forgotten id f s = (gone s (row f.id) ≡ true) × (gone s (download id f.filename) ≡ true)

  returned-Post :
      (Q E : w.State → Type 0) (r : Result (Unit {0}) × w.State)
      → r.0 ≡ ok tt
      → Q r.1
      → Post (λ _. Q) E r
  returned-Post Q E (ok _, s) e q = q
  returned-Post Q E (raised x, s) e q = cc

  both-Post : (Q : w.State → Type 0) (r : Result (Unit {0}) × w.State) → Q r.1 → Post (λ _. Q) Q r
  both-Post Q (ok _, s) q = q
  both-Post Q (raised x, s) q = q

  Ensures-forget_file :
      (id : String) (f : File)
      → Ensures (λ s. Unit) (forget_file w id f) (λ _. Forgotten id f) (Forgotten id f)
  unfolding forget_file
  Ensures-forget_file id f =
      Ensures-bind {Q = λ _. Forgotten id f} _ _
        (Ensures-bind {Q = λ _. Gone law (row f.id)} _ _
          (record {
            at = λ s p.
                returned-Post _ _ (w.delete_file f.id s) (law.deletes_file f.id s).0
                  (law.deletes_file f.id s).1;
          })
          λ _. record {
            at = λ s p.
                let (fine, done) = law.deletes_download id f.filename s in
                returned-Post _ _ (w.delete_downloaded_file id f.filename s) fine
                  ((law.download_keeps id f.filename (row f.id)).at s p, done);
          })
        λ _. record {
          at = λ s (a, b). both-Post (Forgotten id f) (w.commit s) (
            (law.commit_keeps (row f.id)).at s a,
            (law.commit_keeps (download id f.filename)).at s b,
          );
        }

  block-Forgotten :
      (id : String) (f : File) (s : w.State)
      → Forgotten id f (with_uow w.rollback (forget_file w id f) s).1
  block-Forgotten id f s =
      subst (λ r. Forgotten id f r.1)
        (sym (with_uow-ok w.rollback tt (forget_file w id f) s (forget_file-ok law id f s)))
        (Post_state (Forgotten id f) (forget_file w id f s) ((Ensures-forget_file id f).at s tt))

  clean_key-Undone :
      (id : String) (f : File) (key : StorageKey) (r : Run w)
      → Undone id f key (clean_key id f (some key) r).1.world
  unfolding clean_key ◌>>=◌
  clean_key-Undone id f key r =
      let s = (w.delete_object key.value r.world).1 in
      let (a, b) = block-Forgotten id f s in
      (
        (uow-Keeps law (object key.value) _ (forget_file-ok law id f)
              (forget-Keeps law (object key.value) id f)).at
            s (law.deletes_object key.value r.world),
        a,
        b,
      )

  -- Cleaning up raises nothing, so it goes on with the next file.
  clean_key-ok :
      (id : String) (f : File) (k : Option StorageKey) (r : Run w) → (clean_key id f k r).0 ≡ ok tt
  unfolding clean_key ◌>>=◌
  clean_key-ok id f none r = refl
  clean_key-ok id f (some key) r = refl

  cleanup_step :
      (id : String) (f : File) (fs : List File) (r : Run w)
      → cleanup_batch_files id (f ∷ fs) r
        ≡ cleanup_batch_files id fs (clean_key id f f.storage_key r).1
  unfolding cleanup_batch_files ◌>>=◌
  cleanup_step id f fs r = rw (clean_key-ok id f f.storage_key r) refl

  cleanup-IsUndone :
      (id : String) (fs : List File) (r : Run w)
      → All (IsUndone id (cleanup_batch_files id fs r).1.world) fs
  cleanup-IsUndone id [] r = tt
  cleanup-IsUndone id (f ∷ fs) r =
      let t = (clean_key id f f.storage_key r).1 in
      subst (λ x. All (IsUndone id x.1.world) (f ∷ fs)) (sym (cleanup_step id f fs r))
        (
          (λ key e. (Keeps-Undone id f key _ (λ x. cleanup-Keeps law x id fs)).at t (
              subst (λ k. Undone id f key (clean_key id f k r).1.world) (sym e)
                (clean_key-Undone id f key r))),
          cleanup-IsUndone id fs t,
        )

  rest-IsUndone :
      (id : String) (m : Exec (Run w) (Unit {0})) (fs : List File) (r : Run w)
      → ((x : Trace) → Keeps (RunGone law x) m)
      → All (IsUndone id r.world) fs
      → All (IsUndone id (m r).1.world) fs
  rest-IsUndone id m [] r keeps h = tt
  rest-IsUndone id m (f ∷ fs) r keeps (a, rest) = (
    (λ key e. (Keeps-Undone id f key m keeps).at r (a key e)),
    rest-IsUndone id m fs r keeps rest,
  )

-- When an exception has come up behind a batch, the `except` clauses leave nothing of any file that
-- the batch has stored and registered: neither the object under its key, nor its row, nor the
-- record of its download, whether the task is put off or the exception goes on. The storage and the
-- database answer without an exception, and what is deleted is not brought back by the other calls
-- of the clauses.
pub recover-IsUndone :
    (w : World) (gone : w.State → Trace → Bool) (law : Erases w gone) (left : ℕ) (e : Error)
    (r : Run w)
    → All (IsUndone law r.task.id (recover left e r).1.world) r.files
unfolding recover ◌>>=◌
recover-IsUndone w gone law left e r =
    over (cleanup_batch_files r.task.id r.files r) (cleanup-IsUndone law r.task.id r.files r)
  where
    rest : Exec (Run w) (Unit {0})
    rest = on_task (Task.decrease_received left) >> put_off e

    over :
        (c : Result (Unit {0}) × Run w)
        → All (IsUndone law r.task.id c.1.world) r.files
        → All (IsUndone law r.task.id (proceed (λ _. rest) c.0 c.1).1.world) r.files
    over (ok _, u) h =
        rest-IsUndone law r.task.id rest r.files u
          (λ x. Keeps-bind _ _ (on_task-Keeps law x _) (λ _. put_off-Keeps law x e)) h
    over (raised x, u) h = h
