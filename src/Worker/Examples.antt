-- ===== src/Worker/Examples.antt =====
-- The theorems about the worker and the watchdog at a database that holds one task.
use file_extractor.Base.{ℕ, String, ◌≡◌, refl, none, some, List, [], ◌∷◌, ◌++◌, map, take, length}
use file_extractor.Base.Int.{pos}
use file_extractor.Base.Errors.{key_error}
use file_extractor.Base.Exec.{Exec, ok, raised, finally, ◌>>=◌}
use file_extractor.Base.Exec.Ensures.{Post}
use file_extractor.Domain.Status.{task_status_of_name}
use file_extractor.Domain.Time.{add_seconds}
use file_extractor.Download.Ports.{World}
use file_extractor.Repositories.Rows.{task_to_model, task_to_domain}
use file_extractor.Repositories.Tasks.{
  claim, get_by_id, update, update_heartbeat, reclaim_stuck, reclaim_blocked, tasks_of,
}
use file_extractor.Repositories.Exclusive.{beats, here, next}
use file_extractor.Repositories.Runs.{Cell, row, cell, cell-Table, waiting, taken, taken_once}
use file_extractor.Worker.{
  Host, process_files_task, reclaim_stuck_tasks, reclaim_blocked_tasks, sweep, requeue_task,
  requeue_tasks,
}
use file_extractor.Worker.Queue.{Queue, Message, message_of, returned_tasks, sweeps_requeue}
use file_extractor.Worker.Once.{process_once}

-- The database, the queue, and the answers of the API that are still to come.
pub record Floor : Type 0 where
  pub db : Cell
  pub queue : List Message
  pub answers : List (List String)

abbrev on_cell : {A : Type 0} → Exec Cell A → Exec Floor A
on_cell m s = let (r, c) = m s.db in (r, record s { db = c })

abbrev done : Exec Floor (Unit {0})
done s = (ok tt, s)

abbrev ask : Exec Floor (List String)
ask s = elim s.answers [ [] ↦ (ok [], s) | a ∷ rest ↦ (ok a, record s { answers = rest }) ]

abbrev pub ports : World
ports = record {
  State = Floor;
  now = λ s. (6000, s);
  uuid4 = λ s. (1, s);
  sha256_hexdigest = λ bytes. "";
  str_id = λ n. "id";
  repr = λ t. t;
  uuid_of = λ t. ok 0;
  send_task = λ id c s. (ok tt, record s { queue = s.queue ++ (id, c) ∷ [] });
  get_file_names = λ c. ask;
  extract = λ batch s. (record { files = []; failure = none }, s);
  mark_downloaded = λ batch c s. (ok (pos (length batch), pos 0), s);
  upload_stream = λ bytes key n s. (ok key, s);
  delete_object = λ key. done;
  download = λ key s. (ok none, s);
  file_by_id = λ id s. (ok none, s);
  count_by_status = λ name s. (ok 0, s);
  add_file = λ f. done;
  delete_file = λ id. done;
  add_task = λ t. done;
  get_task = λ id. on_cell (get_by_id cell id);
  update_task = λ t. on_cell (update cell t);
  downloaded_file_exists = λ id name s. (raised (key_error name), s);
  record_downloaded_file = λ id name h. done;
  delete_downloaded_file = λ id name. done;
  commit = done;
  rollback = done;
}

abbrev host : Host
host = record {
  ports = ports;
  session = cell;
  db = λ s. s.db;
  with_db = λ c s. record s { db = c };
  open_session = done;
  close_session = done;
  dispose = done;
  open_client = done;
  close_client = done;
}

host-Queue : Queue host (λ s. s.queue)
host-Queue = record {
  sends = λ id c s. refl;
  stores = λ d s. refl;
  commits = λ s. refl;
  opens = λ s. refl;
  closes = λ s. refl;
  disposes = λ s. refl;
}

-- The heartbeat of the task is older than five minutes.
abbrev stale : Floor
unfolding task_to_model
stale = record {
  db = some (task_to_model (record taken { last_heartbeat = some 5 }));
  queue = ("t0", none) ∷ [];
  answers = [];
}

abbrev status_of : Cell → String
status_of none = ""
status_of (some m) = m.status

-- The task is sent again, and is PENDING.
swept :
    let (r, s) = reclaim_stuck_tasks host stale in
    (r ≡ ok tt)
    × (s.queue ≡ ("t0", none) ∷ ("t1", some "candidate") ∷ [])
    × (status_of s.db ≡ "PENDING")
unfolding reclaim_stuck_tasks sweep requeue_tasks requeue_task reclaim_stuck tasks_of task_to_domain
    task_status_of_name add_seconds finally ◌>>=◌ stale
swept = (refl, refl, refl)

sweeps_requeue_example :
    let stuck = returned_tasks (reclaim_stuck cell (pos 300) 20 stale.db).0 in
    let over = returned_tasks (reclaim_blocked cell 20 stale.db).0 in
    Post
      (λ _ t. t.queue ≡ stale.queue ++ map message_of stuck)
      (λ t. (n : ℕ) × (t.queue ≡ stale.queue ++ map message_of (take n stuck)))
      (reclaim_stuck_tasks host stale)
    × Post
        (λ _ t. t.queue ≡ stale.queue ++ map message_of over)
        (λ t. (n : ℕ) × (t.queue ≡ stale.queue ++ map message_of (take n over)))
        (reclaim_blocked_tasks host stale)
sweeps_requeue_example = sweeps_requeue host (λ s. s.queue) host-Queue stale

-- The first worker has claimed the task and has sent a heartbeat.
abbrev later : Floor
later = record {
  db = (update_heartbeat cell "t1" (claim cell "t1" "w1" waiting).1).1;
  queue = [];
  answers = [];
}

process_once_example :
    Post (λ o t. o ≡ none) (λ t. Unit {0}) (process_files_task host 3 "t1" none (some "w2") later)
process_once_example =
    process_once host row cell-Table (λ s j. refl) "t1" "w1" waiting taken taken_once later
      (next here (beats "t1" (claim cell "t1" "w1" waiting).1)) 3 none (some "w2")
