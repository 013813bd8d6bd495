-- ===== src/Download/Keeps/Traces.antt =====
-- The traces of a stored file outside, and the steps of the `except` clauses that bring none back.
use mathlib.Core.Path.{subst}
use file_extractor.Base.{
  String, ◌≡◌, refl, sym, Bool, true, false, Option, none, some, List, [], ◌∷◌,
}
use file_extractor.Base.Int.{ℤ}
use file_extractor.Base.Errors.{Error, blocked}
use file_extractor.Base.Exec.{Exec, ok, pure, attempt, ◌>>=◌, ◌>>◌}
use file_extractor.Base.Exec.Ensures.{Keeps, Keeps-bind, Keeps-if}
use file_extractor.Uow.{with_uow}
use file_extractor.Uow.Blocks.{with_uow-ok}
use file_extractor.Domain.File.{File, FileId, StorageKey}
use file_extractor.Domain.Task.{DownloadTask}
use file_extractor.Download.Ports.{World}
use file_extractor.Download.State.{
  Run, call, on_task, save, handle_block, forget_file, clean_key, cleanup_batch_files,
}
use file_extractor.Download.Batch.{put_off}

-- What a file leaves outside: an object of the storage, a row, and the record of its download.
pub data Trace : Type 0 where
  object : (key : String) → Trace
  row : (id : FileId) → Trace
  download : (task_id filename : String) → Trace

-- The storage and the database answer: a deletion has its effect, the statements and the commits
-- return, so nothing is rolled back, and no call of the `except` clauses brings back what is gone.
pub record Erases (w : World) (gone : w.State → Trace → Bool) : Type 0 where
  pub deletes_object :
      (key : String) (s : w.State) → gone (w.delete_object key s).1 (object key) ≡ true
  pub deletes_file :
      (id : FileId) (s : w.State)
      → ((w.delete_file id s).0 ≡ ok tt) × (gone (w.delete_file id s).1 (row id) ≡ true)
  pub deletes_download :
      (id name : String) (s : w.State)
      → ((w.delete_downloaded_file id name s).0 ≡ ok tt)
        × (gone (w.delete_downloaded_file id name s).1 (download id name) ≡ true)
  pub object_keeps : (key : String) (x : Trace) → Keeps (λ s. gone s x ≡ true) (w.delete_object key)
  pub file_keeps : (id : FileId) (x : Trace) → Keeps (λ s. gone s x ≡ true) (w.delete_file id)
  pub download_keeps :
      (id name : String) (x : Trace)
      → Keeps (λ s. gone s x ≡ true) (w.delete_downloaded_file id name)
  pub update_keeps : (t : DownloadTask) (x : Trace) → Keeps (λ s. gone s x ≡ true) (w.update_task t)
  pub commit_keeps : (x : Trace) → Keeps (λ s. gone s x ≡ true) w.commit
  pub updates : (t : DownloadTask) (s : w.State) → (w.update_task t s).0 ≡ ok tt
  pub commits : (s : w.State) → (w.commit s).0 ≡ ok tt
  pub now_keeps : (s : w.State) (x : Trace) → gone s x ≡ true → gone (w.now s).1 x ≡ true

module _ {w : World} {gone : w.State → Trace → Bool} (law : Erases w gone) where
  pub forget_file-ok : (id : String) (f : File) (s : w.State) → (forget_file w id f s).0 ≡ ok tt
  unfolding forget_file ◌>>=◌
  forget_file-ok id f s =
      let t = (w.delete_file f.id s).1 in
      rw
        (
          (law.deletes_file f.id s).0,
          (law.deletes_download id f.filename t).0,
          law.commits (w.delete_downloaded_file id f.filename t).1,
        )
        refl

  save-ok : (t : DownloadTask) (s : w.State) → ((w.update_task t >> w.commit) s).0 ≡ ok tt
  unfolding ◌>>=◌
  save-ok t s = rw (law.updates t s, law.commits (w.update_task t s).1) refl

  module _ (x : Trace) where
    abbrev pub Gone : w.State → Type 0
    Gone s = gone s x ≡ true

    abbrev pub RunGone : Run w → Type 0
    RunGone r = gone r.world x ≡ true

    call-Keeps : {A : Type 0} (m : Exec w.State A) → Keeps Gone m → Keeps RunGone (call m)
    call-Keeps m h = record { at = λ r p. h.at r.world p }

    pub uow-Keeps :
        (m : Exec w.State (Unit {0}))
        → ((s : w.State) → (m s).0 ≡ ok tt)
        → Keeps Gone m
        → Keeps Gone (with_uow w.rollback m)
    uow-Keeps m fine h = record {
      at = λ s p. subst (λ r. Gone r.1) (sym (with_uow-ok w.rollback tt m s (fine s))) (h.at s p);
    }

    pub forget-Keeps : (id : String) (f : File) → Keeps Gone (forget_file w id f)
    unfolding forget_file
    forget-Keeps id f =
        Keeps-bind _ _
          (Keeps-bind _ _ (law.file_keeps f.id x) (λ _. law.download_keeps id f.filename x))
          (λ _. law.commit_keeps x)

    attempt-Keeps : {A : Type 0} (m : Exec (Run w) A) → Keeps RunGone m → Keeps RunGone (attempt m)
    attempt-Keeps m h = record { at = λ r p. h.at r p }

    pure-Keeps : {A : Type 0} (a : A) → Keeps RunGone (pure a)
    pure-Keeps a = record { at = λ r p. p }

    pub on_task-Keeps : {A : Type 0} (f : Exec DownloadTask A) → Keeps RunGone (on_task f)
    on_task-Keeps f = record { at = λ r p. p }

    clean_key-Keeps :
        (id : String) (f : File) (k : Option StorageKey) → Keeps RunGone (clean_key id f k)
    unfolding clean_key
    clean_key-Keeps id f none = pure-Keeps tt
    clean_key-Keeps id f (some k) =
        Keeps-bind _ _ (attempt-Keeps _ (call-Keeps _ (law.object_keeps k.value x))) λ _.
          Keeps-bind _ _
            (attempt-Keeps _ (call-Keeps _ (uow-Keeps _ (forget_file-ok id f) (forget-Keeps id f))))
            λ _. pure-Keeps tt

    pub cleanup-Keeps : (id : String) (fs : List File) → Keeps RunGone (cleanup_batch_files id fs)
    unfolding cleanup_batch_files
    cleanup-Keeps id [] = pure-Keeps tt
    cleanup-Keeps id (f ∷ fs) =
        Keeps-bind _ _ (clean_key-Keeps id f f.storage_key) (λ _. cleanup-Keeps id fs)

    save-Keeps : Keeps RunGone save
    unfolding save
    save-Keeps =
        Keeps-bind _ _ (record { at = λ r p. p })
          λ t. call-Keeps _ (
            uow-Keeps _ (save-ok t)
              (Keeps-bind _ _ (law.update_keeps t x) (λ _. law.commit_keeps x)))

    handle_block-Keeps : (n : ℤ) → Keeps RunGone (handle_block n)
    unfolding handle_block
    handle_block-Keeps n = Keeps-if _ _ _ (pure-Keeps false) (
        Keeps-bind _ _ (record { at = λ r p. law.now_keeps r.world x p })
          λ now.
            Keeps-bind _ _ (on_task-Keeps _) λ _. Keeps-bind _ _ save-Keeps λ _. pure-Keeps true)

    pub put_off-Keeps : (e : Error) → Keeps RunGone (put_off e)
    unfolding put_off
    put_off-Keeps (blocked n) =
        Keeps-bind _ _ (handle_block-Keeps n)
          λ put. Keeps-if put _ _ (pure-Keeps tt) (record { at = λ r p. p })
    put_off-Keeps _ = record { at = λ r p. p }
