-- ===== src/Download/Examples.antt =====
-- The theorems about the handler at a small world that is held in memory, and runs in it.
use file_extractor.Uow.{with_uow, left_uow}
use file_extractor.Base.{
  ℕ, ◌+◌, String, ◌≡◌, refl, Bool, false, ◌||◌, Option, none, some, List, [], ◌∷◌, map, length,
  drop,
}
use text.Mathlib.Text.{◌==◌ as str_eq}
use file_extractor.Base.Int.{pos}
use file_extractor.Base.Errors.{Error, blocked, message}
use file_extractor.Base.Exec.{Exec, Result, ok, raised, ◌>>=◌}
use file_extractor.Base.Exec.Ensures.{Post, Ensures}
use file_extractor.Domain.Status.{TaskStatus}
use file_extractor.Domain.Hash.{compute}
use file_extractor.Domain.Size.{file_size}
use file_extractor.Domain.File.{File, start_upload, complete_upload}
use file_extractor.Domain.Task
use file_extractor.Domain.Task.{DownloadTask, new_task}
use file_extractor.Domain.Time.{add_seconds}
use file_extractor.Download.Ports.{World, ExtractedFile}
use file_extractor.Download.State
use file_extractor.Download.State.{Run, Ended, broke, returned, exhausted, Way}
use file_extractor.Download.Files
use file_extractor.Download.Batch
use file_extractor.Download.Batch.{work_batch}
use file_extractor.Download.Loop
use file_extractor.Download.Loop.{process}
use file_extractor.Download.Counts.{IsAt, IsOwed}
use file_extractor.Download.Counts.Steps.{On}
use file_extractor.Download.Counts.Rounds.{Worked, IsSettled, Ensures-work_batch}
use file_extractor.Download.Counts.Whole.{Done, process_ends}

-- The clock, the answers of the API that are still to come, what `mark_downloaded` answers, and
-- what is in the database and in the store.
pub record Desk : Type 0 where
  clock : ℕ
  answers : List (List String)
  refusal : Option Error
  saved : Option DownloadTask
  downloaded : List String
  rows : List File
  objects : List String

abbrev contains : String → List String → Bool
contains x [] = false
contains x (y ∷ ys) = str_eq x y || contains x ys

abbrev ask : Exec Desk (List String)
ask s = elim s.answers [ [] ↦ (ok [], s) | a ∷ rest ↦ (ok a, record s { answers = rest }) ]

abbrev answer : {A : Type 0} → A → Option Error → Result A
answer a none = ok a
answer a (some e) = raised e

abbrev one_file : String → ExtractedFile
one_file name = record { filename = name; content = 1 ∷ 2 ∷ []; size = 2 }

abbrev pub desk : World
desk = record {
  State = Desk;
  now = λ s. (s.clock, record s { clock = s.clock + 1 });
  uuid4 = λ s. (s.clock, record s { clock = s.clock + 1 });
  sha256_hexdigest = λ bytes. "0123456789abcdef0123456789abcdef0123456789abcdef0123456789abcdef";
  str_id = λ n. "id";
  repr = λ t. t;
  uuid_of = λ t. ok 0;
  send_task = λ id c s. (ok tt, s);
  get_file_names = λ c. ask;
  extract = λ batch s. (record { files = map one_file batch; failure = none }, s);
  mark_downloaded = λ batch c s. (answer (pos (length batch), pos 0) s.refusal, s);
  upload_stream = λ bytes key n s. (ok key, record s { objects = key ∷ s.objects });
  delete_object = λ key s. (ok tt, record s { objects = drop 1 s.objects });
  download = λ key s. (ok none, s);
  file_by_id = λ id s. (ok none, s);
  count_by_status = λ name s. (ok 0, s);
  add_file = λ f s. (ok tt, record s { rows = f ∷ s.rows });
  delete_file = λ id s. (ok tt, record s { rows = drop 1 s.rows });
  add_task = λ t s. (ok tt, record s { saved = some t });
  get_task = λ id s. (ok s.saved, s);
  update_task = λ t s. (ok tt, record s { saved = some t });
  downloaded_file_exists = λ id name s. (ok (contains name s.downloaded), s);
  record_downloaded_file = λ id name h s. (ok tt, record s { downloaded = name ∷ s.downloaded });
  delete_downloaded_file = λ id name s. (ok tt, record s { downloaded = drop 1 s.downloaded });
  commit = λ s. (ok tt, s);
  rollback = λ s. (ok tt, s);
}

abbrev task : DownloadTask
task = record (new_task "t" "c") {
  status = TaskStatus.running;
  worker_id = some "w";
  started_at = some 1;
  last_heartbeat = some 1;
  attempts = 1;
}

abbrev pub full : Desk
full = record {
  clock = 10;
  answers = ("a" ∷ "b" ∷ "c" ∷ "d" ∷ []) ∷ ("e" ∷ []) ∷ [];
  refusal = none;
  saved = some task;
  downloaded = "b" ∷ [];
  rows = [];
  objects = [];
}

abbrev begin : Desk → Run desk
begin s = record { task = task; world = s; files = []; beats = 0 }

-- Everything that a run computes with.
program : Unit {0}
unfolding ◌>>=◌ left_uow with_uow State.forget_file State.save State.maybe_heartbeat
    State.handle_block State.clean_key State.cleanup_batch_files Files.make_entity Files.register
    Files.store_file Files.handle_file Files.handle_files Files.open_stream Files.extract_batch
    Files.confirm_batch Batch.put_off Batch.recover Batch.confirmed Batch.extracted Batch.work_batch
    Loop.take_names Loop.answered Loop.fetch Loop.worked Loop.fetched Loop.loop Loop.finish Loop.run
    Loop.fail_task Loop.failed_run Loop.process Task.heartbeat Task.increase_received
    Task.decrease_received Task.increase_processed Task.complete Task.fail Task.block add_seconds
    compute file_size start_upload complete_upload message
program = tt

-- Five names come in two answers and are worked through in batches of three and two. One file was
-- downloaded before; the others are stored and filed.
all_done :
    let (e, r) = process {w = desk} 9 none (begin full) in
    (e ≡ ok broke)
    × (r.task.status ≡ TaskStatus.success)
    × (r.task.received_files ≡ 5)
    × (r.task.processed_files ≡ 5)
    × (r.world.objects ≡ "files/e" ∷ "files/d" ∷ "files/c" ∷ "files/a" ∷ [])
    × (r.world.downloaded ≡ "e" ∷ "d" ∷ "c" ∷ "a" ∷ "b" ∷ [])
unfolding program
all_done = (refl, refl, refl, refl, refl, refl)

abbrev refusing : Error → Desk
refusing e = record full { refusal = some e }

-- The API blocks for more than a minute when the first batch is confirmed: the files of the batch
-- are taken back, the counts too, and the task is BLOCKED.
put_off :
    let (e, r) = process {w = desk} 9 none (begin (refusing (blocked (pos 300)))) in
    (e ≡ ok returned)
    × (r.task.status ≡ TaskStatus.blocked)
    × (r.task.received_files ≡ 0)
    × (r.world.objects ≡ [])
    × (r.world.downloaded ≡ "b" ∷ [])
unfolding program
put_off = (refl, refl, refl, refl, refl)

failed :
    let (e, r) = process {w = desk} 9 none (begin (refusing (blocked (pos 60)))) in
    (e ≡ ok returned)
    × (r.task.status ≡ TaskStatus.failed)
    × (r.task.error ≡ some "Blocked. Retry after 60s")
    × (r.task.received_files ≡ 0)
unfolding program
failed = (refl, refl, refl, refl)

process_ends_example :
    Post
      (λ e s. Done task 9 e s.task)
      (λ s. IsOwed task s.task)
      (process {w = desk} 9 none (begin full))
process_ends_example = process_ends desk 9 none (begin full) refl

Ensures-work_batch_example :
    Ensures {S = Run desk}
      (On (IsAt task 3 0))
      (work_batch ("a" ∷ "b" ∷ []) ("c" ∷ []) none)
      (λ o. On (Worked task 1 2 o))
      (On (IsSettled task 1 2))
Ensures-work_batch_example = Ensures-work_batch {w = desk} task ("a" ∷ "b" ∷ []) ("c" ∷ []) 0 none
