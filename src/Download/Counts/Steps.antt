-- ===== src/Download/Counts/Steps.antt =====
-- The steps of an iteration that leave the counts alone.
use file_extractor.Base.{◌+◌, String, Option, none, some, List, [], ◌∷◌, ◌++◌}
use file_extractor.Base.Errors.{Error}
use file_extractor.Base.Exec.{
  Exec, Result, ok, raised, pure, raise, lift, gets, attempt, modify, ◌>>=◌,
}
use file_extractor.Base.Exec.Ensures.{
  Post, Ensures, Keeps, Ensures-pure, Ensures-bind, Keeps-bind, Keeps-if,
}
use file_extractor.Domain.Task
use file_extractor.Domain.Task.{DownloadTask}
use file_extractor.Domain.Time.{DateTime}
use file_extractor.Domain.File.{File, StorageKey}
use file_extractor.Domain.Hash.{FileHash}
use file_extractor.Download.Ports.{World, ExtractedFile}
use file_extractor.Download.State.{
  Run, call, on_task, clock, new_id, save, maybe_heartbeat, clean_key, cleanup_batch_files,
}
use file_extractor.Download.Files.{
  make_entity, register, store_file, handle_file, handle_files, open_stream, extract_batch,
  raise_some,
}

module _ {w : World} where
  -- A predicate of the task object, as one of the run.
  abbrev pub On : (DownloadTask → Type 0) → Run w → Type 0
  On T r = T r.task

  pub Ensures-on_task :
      {A : Type 0} (T : DownloadTask → Type 0) (Q : A → DownloadTask → Type 0)
      (E : DownloadTask → Type 0) (f : Exec DownloadTask A)
      → ((t : DownloadTask) → T t → Post Q E (f t))
      → Ensures (On T) (on_task f) (λ a. On (Q a)) (On E)
  Ensures-on_task {A} T Q E f h = record { at = λ r p. reached r (f r.task) (h r.task p) }
    where
      reached :
          (r : Run w) (x : Result A × DownloadTask)
          → Post Q E x
          → Post (λ a. On (Q a)) (On E) (x.0, record r { task = x.1 })
      reached r (ok a, t) p = p
      reached r (raised e, t) p = p

  -- All that works on the world, the files or the counter of heartbeats keeps what is known of
  -- the task object.
  module _ (T : DownloadTask → Type 0) where
    pub Keeps-call : {A : Type 0} (f : Exec w.State A) → Keeps (On T) (call f)
    Keeps-call f = record { at = λ r h. h }

    pub Keeps-pure : {A : Type 0} (a : A) → Keeps (On T) (pure a)
    Keeps-pure a = record { at = λ r h. h }

    pub Keeps-raise : {A : Type 0} (e : Error) → Keeps (On T) (raise {A = A} e)
    Keeps-raise {A} e = record { at = λ r h. h }

    Keeps-lift : {A : Type 0} (x : Result A) → Keeps (On T) (lift x)
    Keeps-lift x = record { at = λ r h. h }

    pub Keeps-gets : {A : Type 0} (f : Run w → A) → Keeps (On T) (gets f)
    Keeps-gets f = record { at = λ r h. h }

    pub Keeps-clock : Keeps (On T) clock
    Keeps-clock = record { at = λ r h. h }

    Keeps-new_id : Keeps (On T) new_id
    Keeps-new_id = record { at = λ r h. h }

    pub Keeps-attempt :
        {A : Type 0} (m : Exec (Run w) A) → Keeps (On T) m → Keeps (On T) (attempt m)
    Keeps-attempt m h = record { at = λ r p. h.at r p }

    Keeps-add_file :
        (f : File) → Keeps (On T) (modify (λ r. record r { files = r.files ++ f ∷ [] }))
    Keeps-add_file f = record { at = λ r h. h }

    Keeps-count_beat : Keeps (On T) (modify (λ r. record r { beats = r.beats + 1 }))
    Keeps-count_beat = record { at = λ r h. h }

    pub Keeps-no_files : Keeps (On T) (modify (λ r. record r { files = [] }))
    Keeps-no_files = record { at = λ r h. h }

    Keeps-open_stream : (batch : List String) → Keeps (On T) (open_stream batch)
    unfolding open_stream
    Keeps-open_stream batch = record { at = λ r h. h }

    ruleset keep_rules = (
      Keeps-call, Keeps-pure, Keeps-raise, Keeps-lift, Keeps-gets, Keeps-clock, Keeps-new_id,
      Keeps-attempt, Keeps-add_file, Keeps-count_beat, Keeps-if, Keeps-bind,
    )

    pub Keeps-save : Keeps (On T) save
    unfolding save
    Keeps-save = search keep_rules

    -- The clean-up never raises, so `E` is any predicate.
    module _ (E : Run w → Type 0) where
      Ensures-clean_key :
          (id : String) (f : File) (k : Option StorageKey)
          → Ensures (On T) (clean_key id f k) (λ _. On T) E
      unfolding clean_key ◌>>=◌
      Ensures-clean_key id f none = record { at = λ r h. h }
      Ensures-clean_key id f (some k) = record { at = λ r h. h }

      pub Ensures-cleanup :
          (id : String) (fs : List File) → Ensures (On T) (cleanup_batch_files id fs) (λ _. On T) E
      unfolding cleanup_batch_files
      Ensures-cleanup id [] = Ensures-pure (λ _. On T) E tt
      Ensures-cleanup id (f ∷ fs) =
          Ensures-bind (clean_key id f f.storage_key) (λ _. cleanup_batch_files id fs)
            (Ensures-clean_key id f f.storage_key) (λ _. Ensures-cleanup id fs)

    Keeps-make_entity :
        (x : ExtractedFile) (h : FileHash) (k : StorageKey) → Keeps (On T) (make_entity x h k)
    unfolding make_entity
    Keeps-make_entity x h k = search keep_rules depth 12

    Keeps-register : (f : File) (h : FileHash) → Keeps (On T) (register f h)
    unfolding register
    Keeps-register f h = search keep_rules

    Keeps-store_file : (x : ExtractedFile) → Keeps (On T) (store_file x)
    unfolding store_file
    Keeps-store_file x = search (keep_rules, Keeps-make_entity, Keeps-register) depth 12

    Keeps-on_task :
        {A : Type 0} (f : Exec DownloadTask A)
        → ((t : DownloadTask) → T t → T (f t).1)
        → Keeps (On T) (on_task f)
    Keeps-on_task f h = record { at = λ r p. h r.task p }

    module _ (beats : (now : DateTime) (t : DownloadTask) → T t → T (Task.heartbeat now t).1) where
      Keeps-maybe_heartbeat : Keeps (On T) maybe_heartbeat
      unfolding maybe_heartbeat
      Keeps-maybe_heartbeat =
          search
            (
              keep_rules,
              Keeps-save,
              λ (now : DateTime). Keeps-on_task (Task.heartbeat now) (beats now),
            )
            depth 9

      Keeps-handle_file : (x : ExtractedFile) → Keeps (On T) (handle_file x)
      unfolding handle_file
      Keeps-handle_file x = Keeps-bind _ _ Keeps-maybe_heartbeat λ _.
          Keeps-bind _ _ Keeps-count_beat λ _.
            Keeps-bind _ _ (Keeps-gets (λ r. r.task)) λ t. search (keep_rules, Keeps-store_file)

      Keeps-handle_files : (xs : List ExtractedFile) → Keeps (On T) (handle_files xs)
      unfolding handle_files
      Keeps-handle_files [] = search keep_rules
      Keeps-handle_files (x ∷ xs) =
          Keeps-bind (handle_file x) (λ _. handle_files xs) (Keeps-handle_file x)
            (λ _. Keeps-handle_files xs)

      Keeps-raise_some : (e : Option Error) → Keeps (On T) (raise_some e)
      Keeps-raise_some none = search keep_rules
      Keeps-raise_some (some e) = search keep_rules

      -- The whole extraction of a batch keeps it, if heartbeats do.
      pub Keeps-extract_batch : (batch : List String) → Keeps (On T) (extract_batch batch)
      unfolding extract_batch
      Keeps-extract_batch batch =
          search (keep_rules, Keeps-open_stream, Keeps-handle_files, Keeps-raise_some) depth 9
