-- ===== src/Download/Keeps.antt =====
-- What the steps of `ProcessFilesHandler` keep: a predicate on the world that every call of a port
-- keeps, and every block of the unit of work as a whole.
pub mod Whole
pub mod Committed
pub mod Traces
pub mod Undone
mod Gone
mod Examples
use file_extractor.Base.{
  ℕ, ◌+◌, ◌≤◌, String, Bool, Option, none, some, List, [], ◌∷◌, ◌++◌, if◌then◌else◌,
}
use file_extractor.Base.Int.{ℤ}
use file_extractor.Base.Errors.{Error, blocked}
use file_extractor.Base.Exec.{
  ◌>>◌, Exec, Result, ok, raised, pure, raise, lift, gets, attempt, modify,
}
use file_extractor.Base.Exec.Ensures.{Keeps, Keeps-bind, Keeps-if}
use file_extractor.Uow.{with_uow}
use file_extractor.Domain.Task.{DownloadTask}
use file_extractor.Domain.File.{File, StorageKey}
use file_extractor.Domain.Hash.{FileHash}
use file_extractor.Download.Ports.{World, ExtractedFile}
use file_extractor.Download.State.{
  Run, call, on_task, clock, new_id, forget_file, save, maybe_heartbeat, handle_block, clean_key,
  cleanup_batch_files,
}
use file_extractor.Download.Files.{
  make_entity, register, store_file, handle_file, handle_files, open_stream, extract_batch,
  confirm_batch, raise_some,
}
use file_extractor.Download.Batch.{put_off, recover, confirmed, extracted, work_batch}

-- The calls outside the blocks of the unit of work, and the three blocks.
pub record Kept (w : World) (P : w.State → Type 0) : Type 0 where
  pub now : (s : w.State) → P s → P (w.now s).1
  pub uuid4 : (s : w.State) → P s → P (w.uuid4 s).1
  pub extract : (batch : List String) (s : w.State) → P s → P (w.extract batch s).1
  pub mark_downloaded :
      (batch : List String) (c : Option String) → Keeps P (w.mark_downloaded batch c)
  pub upload_stream :
      (bytes : List ℕ) (key : String) (size : ℕ) → Keeps P (w.upload_stream bytes key size)
  pub delete_object : (key : String) → Keeps P (w.delete_object key)
  pub downloaded_file_exists : (id name : String) → Keeps P (w.downloaded_file_exists id name)
  pub saves : (t : DownloadTask) → Keeps P (with_uow w.rollback (w.update_task t >> w.commit))
  pub registers :
      (id : String) (f : File) (h : FileHash)
      → Keeps P (
          with_uow w.rollback
            (w.add_file f >> w.record_downloaded_file id f.filename h >> w.commit))
  pub forgets : (id : String) (f : File) → Keeps P (with_uow w.rollback (forget_file w id f))

module _ {w : World} {P : w.State → Type 0} (d : Kept w P) where
  abbrev pub RunKept : Run w → Type 0
  RunKept r = P r.world

  pub call-Keeps : {A : Type 0} (m : Exec w.State A) → Keeps P m → Keeps RunKept (call m)
  call-Keeps m h = record { at = λ r p. h.at r.world p }

  pub saves-Keeps : (t : DownloadTask) → Keeps P (with_uow w.rollback (w.update_task t >> w.commit))
  saves-Keeps = d.saves

  pub registers-Keeps :
      (id : String) (f : File) (h : FileHash)
      → Keeps P (
          with_uow w.rollback
            (w.add_file f >> w.record_downloaded_file id f.filename h >> w.commit))
  registers-Keeps = d.registers

  pub forgets-Keeps : (id : String) (f : File) → Keeps P (with_uow w.rollback (forget_file w id f))
  forgets-Keeps = d.forgets

  pub exists-Keeps : (id name : String) → Keeps P (w.downloaded_file_exists id name)
  exists-Keeps = d.downloaded_file_exists

  pub delete-Keeps : (key : String) → Keeps P (w.delete_object key)
  delete-Keeps = d.delete_object

  pub upload-Keeps :
      (bytes : List ℕ) (key : String) (size : ℕ) → Keeps P (w.upload_stream bytes key size)
  upload-Keeps = d.upload_stream

  pub mark-Keeps : (batch : List String) (c : Option String) → Keeps P (w.mark_downloaded batch c)
  mark-Keeps = d.mark_downloaded

  pub pure-Keeps : {A : Type 0} (a : A) → Keeps RunKept (pure a)
  pure-Keeps a = record { at = λ r p. p }

  pub raise-Keeps : {A : Type 0} (e : Error) → Keeps RunKept (raise {A = A} e)
  raise-Keeps {A} e = record { at = λ r p. p }

  pub lift-Keeps : {A : Type 0} (x : Result A) → Keeps RunKept (lift x)
  lift-Keeps x = record { at = λ r p. p }

  pub gets-Keeps : {A : Type 0} (f : Run w → A) → Keeps RunKept (gets f)
  gets-Keeps f = record { at = λ r p. p }

  pub on_task-Keeps : {A : Type 0} (f : Exec DownloadTask A) → Keeps RunKept (on_task f)
  on_task-Keeps f = record { at = λ r p. p }

  pub clock-Keeps : Keeps RunKept clock
  clock-Keeps = record { at = λ r p. d.now r.world p }

  pub id-Keeps : Keeps RunKept new_id
  id-Keeps = record { at = λ r p. d.uuid4 r.world p }

  pub attempt-Keeps :
      {A : Type 0} (m : Exec (Run w) A) → Keeps RunKept m → Keeps RunKept (attempt m)
  attempt-Keeps m h = record { at = λ r p. h.at r p }

  pub add_file-Keeps :
      (f : File) → Keeps RunKept (modify (λ r. record r { files = r.files ++ f ∷ [] }))
  add_file-Keeps f = record { at = λ r p. p }

  pub no_files-Keeps : Keeps RunKept (modify (λ r. record r { files = [] }))
  no_files-Keeps = record { at = λ r p. p }

  pub beat-Keeps : Keeps RunKept (modify (λ r. record r { beats = r.beats + 1 }))
  beat-Keeps = record { at = λ r p. p }

  pub stream-Keeps : (batch : List String) → Keeps RunKept (open_stream batch)
  unfolding open_stream
  stream-Keeps batch = record { at = λ r p. d.extract batch r.world p }

  pub ruleset keep_rules = (
    call-Keeps, saves-Keeps, registers-Keeps, forgets-Keeps, exists-Keeps, delete-Keeps,
    upload-Keeps, mark-Keeps, pure-Keeps, raise-Keeps, lift-Keeps, gets-Keeps, on_task-Keeps,
    clock-Keeps, id-Keeps, attempt-Keeps, add_file-Keeps, no_files-Keeps, beat-Keeps, stream-Keeps,
    Keeps-if, Keeps-bind,
  )

  pub save-Keeps : Keeps RunKept save
  unfolding save
  save-Keeps = search keep_rules depth 9

  pub maybe_heartbeat-Keeps : Keeps RunKept maybe_heartbeat
  unfolding maybe_heartbeat
  maybe_heartbeat-Keeps = search (keep_rules, save-Keeps) depth 9

  handle_block-Keeps : (x : ℤ) → Keeps RunKept (handle_block x)
  unfolding handle_block
  handle_block-Keeps x = search (keep_rules, save-Keeps) depth 9

  clean_key-Keeps :
      (id : String) (f : File) (k : Option StorageKey) → Keeps RunKept (clean_key id f k)
  unfolding clean_key
  clean_key-Keeps id f none = search keep_rules
  clean_key-Keeps id f (some k) = search keep_rules depth 9

  cleanup-Keeps : (id : String) (fs : List File) → Keeps RunKept (cleanup_batch_files id fs)
  unfolding cleanup_batch_files
  cleanup-Keeps id [] = pure-Keeps tt
  cleanup-Keeps id (f ∷ fs) =
      Keeps-bind _ _ (clean_key-Keeps id f f.storage_key) (λ _. cleanup-Keeps id fs)

  entity-Keeps :
      (x : ExtractedFile) (h : FileHash) (k : StorageKey) → Keeps RunKept (make_entity x h k)
  unfolding make_entity
  entity-Keeps x h k = search keep_rules depth 12

  register-Keeps : (f : File) (h : FileHash) → Keeps RunKept (register f h)
  unfolding register
  register-Keeps f h = search keep_rules depth 12

  store_file-Keeps : (x : ExtractedFile) → Keeps RunKept (store_file x)
  unfolding store_file
  store_file-Keeps x = search (keep_rules, entity-Keeps, register-Keeps) depth 12

  handle_file-Keeps : (x : ExtractedFile) → Keeps RunKept (handle_file x)
  unfolding handle_file
  handle_file-Keeps x = Keeps-bind _ _ maybe_heartbeat-Keeps λ _.
      Keeps-bind _ _ beat-Keeps
        λ _. Keeps-bind _ _ (gets-Keeps (λ r. r.task)) λ t. search (keep_rules, store_file-Keeps)

  handle_files-Keeps : (xs : List ExtractedFile) → Keeps RunKept (handle_files xs)
  unfolding handle_files
  handle_files-Keeps [] = pure-Keeps tt
  handle_files-Keeps (x ∷ xs) = Keeps-bind _ _ (handle_file-Keeps x) (λ _. handle_files-Keeps xs)

  raise_some-Keeps : (e : Option Error) → Keeps RunKept (raise_some e)
  raise_some-Keeps none = pure-Keeps tt
  raise_some-Keeps (some e) = raise-Keeps e

  extract_batch-Keeps : (batch : List String) → Keeps RunKept (extract_batch batch)
  unfolding extract_batch
  extract_batch-Keeps batch = search (keep_rules, handle_files-Keeps, raise_some-Keeps) depth 9

  confirm_batch-Keeps :
      (batch : List String) (c : Option String) → Keeps RunKept (confirm_batch batch c)
  unfolding confirm_batch
  confirm_batch-Keeps batch c = search keep_rules

  put_unless-Keeps : (x : ℤ) (b : Bool) → Keeps RunKept (if b then pure tt else raise (blocked x))
  put_unless-Keeps x b = Keeps-if b _ _ (pure-Keeps tt) (raise-Keeps (blocked x))

  pub put_off-Keeps : (e : Error) → Keeps RunKept (put_off e)
  unfolding put_off
  put_off-Keeps (blocked x) = Keeps-bind _ _ (handle_block-Keeps x) (put_unless-Keeps x)
  put_off-Keeps _ = raise-Keeps _

  recover-Keeps : (left : ℕ) (e : Error) → Keeps RunKept (recover left e)
  unfolding recover
  recover-Keeps left e = search (keep_rules, cleanup-Keeps, put_off-Keeps) depth 9

  confirmed-Keeps : (left : ℕ) (a : Result (Unit {0})) → Keeps RunKept (confirmed left a)
  unfolding confirmed
  confirmed-Keeps left (ok _) = search (keep_rules, save-Keeps)
  confirmed-Keeps left (raised e) = search (keep_rules, recover-Keeps)

  extracted-Keeps :
      (batch pending : List String) (c : Option String) (a : Result (Unit {0}))
      → Keeps RunKept (extracted batch pending c a)
  unfolding extracted
  extracted-Keeps batch pending c (ok _) = search (keep_rules, confirm_batch-Keeps, confirmed-Keeps)
  extracted-Keeps batch pending c (raised e) = search (keep_rules, recover-Keeps)

  pub work_batch-Keeps :
      (batch pending : List String) (c : Option String) → Keeps RunKept (work_batch batch pending c)
  unfolding work_batch
  work_batch-Keeps batch pending c = search (keep_rules, extract_batch-Keeps, extracted-Keeps)
