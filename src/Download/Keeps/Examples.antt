-- ===== src/Download/Keeps/Examples.antt =====
-- The theorem about what is committed, at a database that counts the files and the records of
-- downloads.
use file_extractor.Base.{
  ℕ, ◌+◌, ◌-◌, String, ◌≡◌, refl, ap, false, none, some, List, [], ◌∷◌, length,
}
use file_extractor.Base.Int.{pos}
use file_extractor.Base.Errors.{other}
use file_extractor.Base.Exec.{Exec, ok, raised}
use file_extractor.Domain.Status.{TaskStatus}
use file_extractor.Domain.Task.{DownloadTask, new_task}
use file_extractor.Download.Ports.{World, ExtractedFile}
use file_extractor.Download.State.{Run}
use file_extractor.Download.Loop.{process}
use file_extractor.Download.Keeps.Committed.{
  Effects, Transactions, WholeKeeps, process_commits_whole,
}

abbrev Tally : Type 0
Tally = ℕ × ℕ

-- The rows that are committed and those that the session sees, and the answers of the API.
record Ledger : Type 0 where
  committed : Tally
  working : Tally
  answers : List (List String)

abbrev does : (Tally → Tally) → Exec Ledger (Unit {0})
does f s = (ok tt, record s { working = f s.working })

abbrev ask : Exec Ledger (List String)
ask s = elim s.answers [ [] ↦ (ok [], s) | a ∷ rest ↦ (ok a, record s { answers = rest }) ]

abbrev a_file : ExtractedFile
a_file = record { filename = "a"; content = 1 ∷ []; size = 1 }

-- The record of a download cannot be written.
abbrev fails : Exec Ledger (Unit {0})
fails s = (raised (other "unique constraint"), s)

abbrev tally_effects : Effects Tally
tally_effects = record {
  saved = λ t r. r;
  added = λ f (a, b). (a + 1, b);
  recorded = λ id name h (a, b). (a, b + 1);
  removed = λ id (a, b). (a - 1, b);
  unrecorded = λ id name (a, b). (a, b - 1);
}

abbrev ledger_world : World
ledger_world = record {
  State = Ledger;
  now = λ s. (5, s);
  uuid4 = λ s. (1, s);
  sha256_hexdigest = λ bytes. "0123456789abcdef0123456789abcdef0123456789abcdef0123456789abcdef";
  str_id = λ n. "id";
  repr = λ t. t;
  uuid_of = λ t. ok 0;
  send_task = λ id c s. (ok tt, s);
  get_file_names = λ c. ask;
  extract = λ batch s. (record { files = a_file ∷ []; failure = none }, s);
  mark_downloaded = λ batch c s. (ok (pos (length batch), pos 0), s);
  upload_stream = λ bytes key n s. (ok key, s);
  delete_object = λ key s. (ok tt, s);
  download = λ key s. (ok none, s);
  file_by_id = λ id s. (ok none, s);
  count_by_status = λ name s. (ok 0, s);
  add_file = λ f. does (tally_effects.added f);
  delete_file = λ id. does (tally_effects.removed id);
  add_task = λ t s. (ok tt, s);
  get_task = λ id s. (ok none, s);
  update_task = λ t. does (tally_effects.saved t);
  downloaded_file_exists = λ id name s. (ok false, s);
  record_downloaded_file = λ id name h. fails;
  delete_downloaded_file = λ id name. does (tally_effects.unrecorded id name);
  commit = λ s. (ok tt, record s { committed = s.working });
  rollback = λ s. (ok tt, record s { working = s.committed });
}

ask_leaves : (s : Ledger) → ((ask s).1.committed ≡ s.committed) × ((ask s).1.working ≡ s.working)
ask_leaves s = over s.answers refl
  where
    over :
        (l : List (List String))
        → s.answers ≡ l
        → ((ask s).1.committed ≡ s.committed) × ((ask s).1.working ≡ s.working)
    over [] e = rw e (refl, refl)
    over (a ∷ rest) e = rw e (refl, refl)

ledger-Transactions : Transactions ledger_world (λ s. s.committed) (λ s. s.working) tally_effects
ledger-Transactions = record {
  commits = λ s. (refl, refl);
  rolls_back = λ s. (refl, refl);
  saves = λ t s. (refl, refl);
  adds = λ f s. (refl, refl);
  records = λ id name h s. refl;
  removes = λ id s. (refl, refl);
  unrecords = λ id name s. (refl, refl);
  asks = λ c. ask_leaves;
  marks = λ b c s. (refl, refl);
  uploads = λ b k n s. (refl, refl);
  deletes = λ k s. (refl, refl);
  looks = λ i n s. (refl, refl);
  now_leaves = λ s. (refl, refl);
  uuid4_leaves = λ s. (refl, refl);
  extract_leaves = λ b s. (refl, refl);
}

-- There are as many files as records.
abbrev Balanced : Tally → Type 0
Balanced (a, b) = a ≡ b

tally-WholeKeeps : WholeKeeps tally_effects Balanced
tally-WholeKeeps = record {
  saved = λ t r q. q;
  registered = λ id f h (a, b) q. ap (λ n. n + 1) q;
  forgotten = λ id f (a, b) q. ap (λ n. n - 1) q;
}

abbrev task : DownloadTask
task = record (new_task "t" "c") {
  status = TaskStatus.running;
  worker_id = some "w";
  started_at = some 1;
  last_heartbeat = some 1;
  attempts = 1;
}

abbrev start : Run ledger_world
start = record {
  task = task;
  world = record { committed = (7, 7); working = (7, 7); answers = ("a" ∷ []) ∷ [] };
  files = [];
  beats = 0;
}

-- A file row is added each time, but the record beside it fails, and neither is committed.
process_commits_whole_example :
    let t = (process {w = ledger_world} 3 none start).1.world in
    (t.working ≡ t.committed) × Balanced t.committed
process_commits_whole_example =
    process_commits_whole ledger_world (λ s. s.committed) (λ s. s.working) tally_effects
      ledger-Transactions Balanced tally-WholeKeeps 3 none start refl refl
