-- ===== src/Worker/Assembled.antt =====
-- The worker with its parts, at a world that holds the client, the bucket and the row of a task.
use file_extractor.Base.{◌≡◌, refl, none, some, [], ◌∷◌}
use file_extractor.Base.Int.{pos}
use file_extractor.Base.{false}
use file_extractor.Base.Exec.{Exec, ok}
use file_extractor.Archive.Examples.{zip}
use file_extractor.Client.Examples.{limiter, milliseconds, found, AtMost, laws, limiter-IsBounded}
use file_extractor.Client.Downloads.{disk, drive, drive-Temporaries, client}
use file_extractor.Client.Requests.{CatalogClient}
use file_extractor.Client.Outcomes.{HasBounds}
use file_extractor.Download.Ports.{World}
use file_extractor.Storage.Examples.{Objects, bucket}
use file_extractor.Worker.Parts.{Parts, assembled}
use file_extractor.Worker.{Host, process_files_task}
use file_extractor.Worker.Clean.{Apart}
use file_extractor.Worker.Whole.{Opens, process_files_task_cleans}
use file_extractor.Repositories.Tasks.{get_by_id, update}
use file_extractor.Repositories.Runs.{Cell, cell, waiting}

record Bench : Type 0 where
  client : CatalogClient disk
  objects : Objects
  db : Cell

abbrev idle : Exec Bench (Unit {0})
idle s = (ok tt, s)

abbrev on_cell : {A : Type 0} → Exec Cell A → Exec Bench A
on_cell m s = let (r, c) = m s.db in (r, record s { db = c })

abbrev bench : World
bench = record {
  State = Bench;
  now = λ s. (6000, s);
  uuid4 = λ s. (1, s);
  sha256_hexdigest = λ bytes. "0123456789abcdef0123456789abcdef0123456789abcdef0123456789abcdef";
  str_id = λ n. "id";
  repr = λ t. t;
  uuid_of = λ t. ok 0;
  send_task = λ id c. idle;
  get_file_names = λ c s. (ok [], s);
  extract = λ batch s. (record { files = []; failure = none }, s);
  mark_downloaded = λ batch c s. (ok (pos 0, pos 0), s);
  upload_stream = λ bytes key n s. (ok key, s);
  delete_object = λ key. idle;
  download = λ key s. (ok none, s);
  file_by_id = λ id s. (ok none, s);
  count_by_status = λ name s. (ok 0, s);
  add_file = λ f. idle;
  delete_file = λ id. idle;
  add_task = λ t. idle;
  get_task = λ id. on_cell (get_by_id cell id);
  update_task = λ t. on_cell (update cell t);
  downloaded_file_exists = λ id name s. (ok false, s);
  record_downloaded_file = λ id name h. idle;
  delete_downloaded_file = λ id name. idle;
  commit = idle;
  rollback = idle;
}

abbrev parts : Parts bench
parts = record {
  floats = milliseconds;
  http = disk;
  io = drive found;
  zip = zip;
  s3 = bucket;
  client = λ s. s.client;
  with_client = λ c s. record s { client = c };
  bucket = λ s. s.objects;
  with_bucket = λ b s. record s { objects = b };
  max_retries = 1;
  rate_limit_retries = 1;
}

parts-Apart : Apart bench parts
parts-Apart = record {
  puts = λ c s. refl;
  buckets = λ b s. refl;
  now = λ s. refl;
  uuid4 = λ s. refl;
  finds = λ id s. refl;
  saves = λ t s. refl;
  adds = λ f s. refl;
  records = λ id name h s. refl;
  looks = λ id name s. refl;
  removes = λ id s. refl;
  unrecords = λ id name s. refl;
  commits = λ s. refl;
  rolls_back = λ s. refl;
}

abbrev host : Host
host = record {
  ports = bench;
  session = cell;
  db = λ s. s.db;
  with_db = λ c s. record s { db = c };
  open_session = idle;
  close_session = idle;
  dispose = idle;
  open_client = λ s. (ok tt, record s { client = record s.client { rate_limiter = limiter } });
  close_client = idle;
}

host-Opens : Opens host parts
host-Opens = record {
  stores = λ d s. refl;
  opens = λ s. refl;
  closes = λ s. refl;
  disposes = λ s. refl;
  leaves = λ s. refl;
}

abbrev start : Bench
start = record { client = client; objects = λ key. none; db = waiting }

abbrev finished : Bench
finished = (process_files_task (assembled host parts) 2 "t1" none (some "w1") start).1

process_files_task_cleans_example :
    (finished.client.net ≡ "/tmp/z" ∷ []) × HasBounds laws finished.client
process_files_task_cleans_example =
    process_files_task_cleans host parts parts-Apart host-Opens (λ n. n) (drive-Temporaries found)
      AtMost laws (λ s. (refl, limiter-IsBounded)) 2 "t1" none (some "w1") start limiter-IsBounded
