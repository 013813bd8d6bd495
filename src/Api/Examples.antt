-- ===== src/Api/Examples.antt =====
-- The theorems about the routes on a database of one task and three files.
use text.Mathlib.TextEquality.{eq_iff}
use file_extractor.Base.{ℕ, String, ◌≡◌, refl, false, none, some, [], ◌∷◌, map}
use file_extractor.Base.Int.{pos, ◌+ℤ◌, ◌*ℤ◌}
use file_extractor.Base.Exec.{Exec, ok, ◌>>=◌}
use file_extractor.Base.Exec.Ensures.{Post}
use file_extractor.Uow.{with_uow, left_uow}
use file_extractor.Domain.Status.{file_status_of_name}
use file_extractor.Domain.Size.{file_size}
use file_extractor.Repositories.Rows.{DownloadTaskModel, file_to_domain}
use file_extractor.Repositories.Tasks
use file_extractor.Repositories.Files
use file_extractor.Repositories.Runs.{Cell, row, cell, shelf, rows, waiting, added}
use file_extractor.Repositories.Wiring.{Database}
use file_extractor.Worker.Examples.{Floor, ports}
use file_extractor.Api.{
  replied, http_exception, start_download, get_task_status, get_files, file_to_item, with_uow_of,
}
use file_extractor.Api.Rows.{IsReply, IsRefused, get_task_status-IsReply}
use file_extractor.Api.Started.{HoldsRows, request, untouched, start_download-shown}
use file_extractor.Download.Ports.{World}

-- The files are always the same.
abbrev database : Database Floor
database = record {
  tasks = cell;
  files = shelf;
  task_db = λ s. s.db;
  with_task_db = λ c s. record s { db = c };
  file_db = λ s. rows;
  with_file_db = λ c s. s;
}

abbrev iso : ℕ → String
iso t = "1970"

abbrev vacant : Floor
vacant = record { db = none; queue = []; answers = [] }

abbrev one_task : Floor
one_task = record vacant { db = waiting }

-- A page of the uploaded files, the newest first, and a task that is not there.
page :
    (get_files (with_uow_of ports database iso) (pos 1) (pos 2) (some "UPLOADED") vacant).0
    ≡ ok (record {
      items =
          map {A = ℕ}
            (λ t. record {
              id = "id";
              filename = "a.txt";
              size = pos 5;
              status = "UPLOADED";
              hash = none;
              created_at = "1970";
              uploaded_at = none;
            })
            (3 ∷ 1 ∷ []);
      total = 2;
      page = pos 1;
      per_page = pos 2;
    })
unfolding get_files file_to_item with_uow left_uow Files.list_files Files.files_of file_to_domain
    file_status_of_name file_size ◌>>=◌ ◌+ℤ◌ ◌*ℤ◌
page = refl

unknown :
    (get_task_status (with_uow_of ports database iso) "t2" vacant).0
    ≡ ok (http_exception 404 "Task not found")
unfolding get_task_status with_uow left_uow Tasks.get_by_id ◌>>=◌
unknown = refl

get_task_status-IsReply_example :
    let found = (cell.get "t1" one_task.db).0 in
    Post
      (λ r t. IsReply found r)
      (λ t. IsRefused found)
      (get_task_status (with_uow_of ports database iso) "t1" one_task)
get_task_status-IsReply_example = get_task_status-IsReply ports database iso "t1" one_task

-- What is in the session of a request, and what is committed.
record Booth : Type 0 where
  draft : Cell
  saved : Cell

abbrev calm : Exec Booth (Unit {0})
calm s = (ok tt, s)

abbrev desk : World
desk = record {
  State = Booth;
  now = λ s. (6000, s);
  uuid4 = λ s. (1, s);
  sha256_hexdigest = λ bytes. "";
  str_id = λ n. "id";
  repr = λ t. t;
  uuid_of = λ t. ok 0;
  send_task = λ id c. calm;
  get_file_names = λ c s. (ok [], s);
  extract = λ batch s. (record { files = []; failure = none }, s);
  mark_downloaded = λ batch c s. (ok (pos 0, pos 0), s);
  upload_stream = λ bytes key n s. (ok key, s);
  delete_object = λ key. calm;
  download = λ key s. (ok none, s);
  file_by_id = λ id s. (ok none, s);
  count_by_status = λ name s. (ok 0, s);
  add_file = λ f. calm;
  delete_file = λ id. calm;
  add_task = λ t. calm;
  get_task = λ id s. (ok none, s);
  update_task = λ t. calm;
  downloaded_file_exists = λ id name s. (ok false, s);
  record_downloaded_file = λ id name h. calm;
  delete_downloaded_file = λ id name. calm;
  commit = λ s. (ok tt, record s { saved = s.draft });
  rollback = λ s. (ok tt, record s { draft = s.saved });
}

abbrev counter : Database Booth
counter = record {
  tasks = cell;
  files = shelf;
  task_db = λ s. s.draft;
  with_task_db = λ c s. record s { draft = c };
  file_db = λ s. rows;
  with_file_db = λ c s. s;
}

-- A session starts from what is committed, and what it has not committed is lost with it.
abbrev opens : Booth → Booth
opens s = record s { draft = s.saved }

abbrev closes : Booth → Booth
closes s = record s { draft = none }

row-added :
    (m : DownloadTaskModel) (c : Cell) → (added m c).0 ≡ ok tt → row (added m c).1 m.id ≡ some m
row-added m none e = rw ((eq_iff m.id m.id).1 refl) refl
row-added m (some old) e = cc

counter-HoldsRows : HoldsRows desk counter opens closes (λ s. row s.draft) (λ s. row s.saved)
counter-HoldsRows = record {
  adds = λ m s. row-added m s.draft;
  gets = λ id s. refl;
  commits = λ s k e. refl;
  sends = λ id c s k. refl;
  opened = λ s k. refl;
  closed = λ s k. refl;
}

abbrev quiet : Booth
quiet = record { draft = none; saved = none }

start_download-shown_example :
    let b = with_uow_of desk counter iso in
    Post
      (λ x t.
        (request opens closes (get_task_status b x.task_id) t).0
        ≡ ok (replied (untouched x.task_id)))
      (λ t. Unit {0})
      (request opens closes (start_download b (some "c")) quiet)
start_download-shown_example =
    start_download-shown desk counter opens closes (λ s. row s.draft) (λ s. row s.saved)
      counter-HoldsRows iso (some "c") quiet
