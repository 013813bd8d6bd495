-- ===== src/Domain/Examples.antt =====
-- The theorems of the domain at concrete tasks, files and texts, and runs of the methods.
use file_extractor.Base.{ℕ, String, ◌≡◌, refl, ◌↔◌, true, some, List, [], ◌∷◌}
use file_extractor.Base.Int.{ℤ, pos}
use file_extractor.Base.Errors.{overflow_error}
use file_extractor.Base.Exec.{ok, raised}
use file_extractor.Domain.Status.{TaskStatus, FileStatus}
use file_extractor.Domain.Time.{DateTime, add_seconds}
use file_extractor.Domain.Hash.{FileHash, codes, file_hash, IsHexLine, file_hash_iff}
use file_extractor.Domain.Task
use file_extractor.Domain.Task.{DownloadTask, new_task, bad_transition}
use file_extractor.Domain.Task.Lifecycle as Life
use file_extractor.Domain.Task.Consistency as Fields
use file_extractor.Domain.File.{File, StorageKey, new_file}
use file_extractor.Domain.File.Upload as Upload

abbrev task : DownloadTask
task = new_task "t" "c"

abbrev working : DownloadTask
working = record task {
  status = TaskStatus.running;
  worker_id = some "w";
  started_at = some 5;
  last_heartbeat = some 6;
  attempts = 1;
}

-- tests/domain/test_download_task_entity.py: the life of a task that succeeds.
abbrev calls : List Life.Call
calls =
    Life.claim_by "w" 5 6
    ∷ Life.receive 5
    ∷ Life.work_off 3
    ∷ Life.end_at 9
    ∷ Life.give_up "too late" 10
    ∷ []

lifecycle : Life.invoke_all calls task ≡ record working {
  status = TaskStatus.success;
  received_files = 5;
  processed_files = 3;
  finished_at = some 9;
}
unfolding Life.invoke_all Life.invoke
lifecycle = refl

abbrev far : ℤ
far = pos 999999999999

too_far : add_seconds 7 far ≡ raised (overflow_error "date value out of range")
unfolding add_seconds
too_far = refl

invoke-Moves_example : Life.Moves TaskStatus.running (Life.invoke (Life.end_at 9) working).1.status
invoke-Moves_example = Life.invoke-Moves (Life.end_at 9) working

abbrev succeeded : DownloadTask
succeeded = record working { status = TaskStatus.success; finished_at = some 9 }

invoke_all_final_example : (Life.invoke_all calls succeeded).status ≡ TaskStatus.success
invoke_all_final_example = Life.invoke_all_final calls succeeded refl

raised-IsLeft_example :
    Fields.IsLeft
      (Life.end_at 9)
      (bad_transition task TaskStatus.success)
      task
      (Life.invoke (Life.end_at 9) task).1
unfolding Life.invoke
raised-IsLeft_example =
    Fields.raised-IsLeft (Life.end_at 9) task (bad_transition task TaskStatus.success) refl

invoke-IsConsistent_example : Fields.IsConsistent (Life.invoke (Life.end_at 9) working).1
unfolding Life.invoke
invoke-IsConsistent_example = Fields.invoke-IsConsistent (Life.end_at 9) working refl refl

block_overflow_example :
    let u = (Task.block far "r" 7 working).1 in
    ((Task.block far "r" 7 working).0 ≡ raised (overflow_error "date value out of range"))
    × ((later : DateTime) → Task.is_blocked later u ≡ true)
    × ((m : String) (later : DateTime)
        → Task.fail m later u ≡ (raised (bad_transition u TaskStatus.failed), u))
block_overflow_example =
    Fields.block_overflow far "r" 7 working (overflow_error "date value out of range") refl refl
      too_far

abbrev hex_text : String
hex_text = "0123456789abcdef0123456789abcdef0123456789abcdef0123456789abcdef"

file_hash_iff_example :
    (file_hash hex_text ≡ ok (record { value = hex_text })) ↔ IsHexLine 64 (codes hex_text)
file_hash_iff_example = file_hash_iff hex_text

-- A text of 65 characters, the last one a newline, is accepted.
accepts_newline :
    file_hash "0123456789abcdef0123456789abcdef0123456789abcdef0123456789abcdef\n"
    ≡ ok (record { value = "0123456789abcdef0123456789abcdef0123456789abcdef0123456789abcdef\n" })
unfolding file_hash
accepts_newline = refl

abbrev hash : FileHash
hash = record { value = hex_text }

abbrev key : StorageKey
key = record { value = "files/a" }

abbrev fresh : File
fresh = new_file (record { value = 1 }) "a" (record { value = pos 3 }) hash 5

abbrev no_text : ℕ → String
no_text n = ""

abbrev upload : List Upload.Call
upload = Upload.begin ∷ Upload.end_with key hash 6 ∷ Upload.begin ∷ Upload.drop ∷ []

abbrev again : List Upload.Call
again = Upload.rehash hash ∷ upload

abbrev stored : File
stored = record fresh { status = FileStatus.uploaded; storage_key = some key; uploaded_at = some 6 }

upload_life : Upload.invoke_all no_text upload fresh ≡ stored
unfolding Upload.invoke_all Upload.invoke
upload_life = refl

invoke_all-IsStored_example : Upload.IsStored (Upload.invoke_all no_text upload fresh)
invoke_all-IsStored_example = Upload.invoke_all-IsStored no_text upload fresh refl

invoke_all_uploaded_example :
    Upload.invoke_all no_text again stored
    ≡ record stored { hash = Upload.last_hash no_text again stored.hash }
invoke_all_uploaded_example = Upload.invoke_all_uploaded no_text again stored refl
