-- ===== src/Download/Files.antt =====
-- app/application/handlers/download_handler.py: the body of `async for extracted in ...`, and the
-- two `try` blocks of an iteration.
use file_extractor.Uow.{with_uow}
use file_extractor.Base.{
  ◌+◌, String, ◌<>◌, Option, none, some, List, [], ◌∷◌, ◌++◌, length, if◌then◌else◌,
}
use file_extractor.Base.Int.{pos}
use file_extractor.Base.Errors.{Error}
use file_extractor.Base.Exec.{
  Exec, Result, ok, raised, pure, raise, lift, gets, modify, ◌>>=◌, ◌>>◌,
}
use file_extractor.Domain.Hash.{FileHash, compute}
use file_extractor.Domain.Size.{file_size}
use file_extractor.Domain.File.{File, StorageKey, new_file, start_upload, complete_upload}
use file_extractor.Domain.Task
use file_extractor.Domain.Task.{DownloadTask}
use file_extractor.Download.Ports.{World, ExtractedFile, Extraction}
use file_extractor.Download.State.{Run, call, on_task, clock, new_id, maybe_heartbeat}

-- The object after a call of its method, unless the method raised.
abbrev pub changed : {A : Type 0} → Result (Unit {0}) × A → Result A
changed (ok _, a) = ok a
changed (raised e, a) = raised e

module _ {w : World} where
  -- `File(...)`, `start_upload()`, `complete_upload(...)`: the entity of an uploaded object.
  unfoldable pub make_entity : ExtractedFile → FileHash → StorageKey → Exec (Run w) File
  make_entity x hash key = do
    id ← new_id
    size ← lift (file_size (pos x.size))
    created ← clock
    uploading ← lift (
        changed
          (start_upload w.str_id (new_file (record { value = id }) x.filename size hash created)))
    done ← clock
    lift (changed (complete_upload key hash done uploading))

  -- The `async with` block that files the entity and the record of the download.
  unfoldable pub register : File → FileHash → Exec (Run w) (Unit {0})
  register f hash = do
    t ← gets (λ r. r.task)
    call (
        with_uow w.rollback
          (w.add_file f >> w.record_downloaded_file t.id f.filename hash >> w.commit))

  -- A file that was not downloaded before.
  unfoldable pub store_file : ExtractedFile → Exec (Run w) (Unit {0})
  store_file x = do
    hash ← lift (compute w.sha256_hexdigest x.content)
    let key = "files/" <> x.filename
    call (w.upload_stream x.content key x.size)
    f ← make_entity x hash (record { value = key })
    register f hash
    modify (λ r. record r { files = r.files ++ f ∷ [] })

  -- The body of `async for extracted in ...`.
  unfoldable pub handle_file : ExtractedFile → Exec (Run w) (Unit {0})
  handle_file x = do
    maybe_heartbeat
    modify (λ r. record r { beats = r.beats + 1 })
    t ← gets (λ r. r.task)
    already_downloaded ← call (w.downloaded_file_exists t.id x.filename)
    if already_downloaded then pure tt else store_file x

  unfoldable pub handle_files : List ExtractedFile → Exec (Run w) (Unit {0})
  handle_files [] = pure tt
  handle_files (x ∷ xs) = do handle_file x; handle_files xs

  abbrev pub raise_some : Option Error → Exec (Run w) (Unit {0})
  raise_some none = pure tt
  raise_some (some e) = raise e

  -- `extract_stream(download_files_stream(batch))`
  unfoldable pub open_stream : List String → Exec (Run w) Extraction
  open_stream batch r = let (x, s) = w.extract batch r.world in (ok x, record r { world = s })

  -- The first `try` block: the extraction, its files, and the exception that ends it, if any.
  unfoldable pub extract_batch : List String → Exec (Run w) (Unit {0})
  extract_batch batch = do x ← open_stream batch; handle_files x.files; raise_some x.failure

  -- The second `try` block.
  unfoldable pub confirm_batch : List String → Option String → Exec (Run w) (Unit {0})
  confirm_batch batch candidate_id = do
    call (w.mark_downloaded batch candidate_id)
    on_task (Task.increase_processed (length batch))
