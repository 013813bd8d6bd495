-- ===== src/Repositories/Runs.antt =====
-- The theorems about claims and pages at a table that holds one task, and at one of three files.
use text.Mathlib.Text.{◌==◌ as str_eq}
use text.Mathlib.TextEquality.{eq_iff}
use file_extractor.Base.{
  ℕ, suc, ◌*◌, String, ◌≡◌, refl, sym, ap, Bool, true, Option, none, some, List, [], ◌∷◌, arith,
  if◌then◌else◌, length, take, drop, filter,
}
use file_extractor.Base.Int.{pos, pos_part}
use file_extractor.Base.Errors.{Error, key_error}
use file_extractor.Base.Exec.{Exec, ok, raised, ◌>>=◌}
use file_extractor.Domain.Status.{TaskStatus, FileStatus, task_status_of_name, file_status_of_name}
use file_extractor.Domain.Size.{file_size}
use file_extractor.Domain.File.{File}
use file_extractor.Domain.Task.{DownloadTask, new_task}
use file_extractor.Repositories.Rows.{
  DownloadTaskModel, FileModel, task_to_model, task_to_domain, file_to_domain,
}
use file_extractor.Base.Exec.Ensures.{Post}
use file_extractor.Repositories.Saved.{with_task, update_stores}
use file_extractor.Repositories.Tasks.{Session, claim, first_task, update, assigned}
use file_extractor.Repositories.Table.{Table, changed, assigned_to}
use file_extractor.Repositories.Files.{FileSession, FileFilters, condition, files_of, list_files}
use file_extractor.Repositories.Pages.{Reads, gather, list_files_pages}

abbrev pub Cell : Type 0
Cell = Option DownloadTaskModel

abbrev pub row : Cell → String → Option DownloadTaskModel
row none k = none
row (some m) k = if str_eq m.id k then some m else none

abbrev updated :
    (DownloadTaskModel → Bool)
    → (DownloadTaskModel → DownloadTaskModel)
    → Exec Cell (List DownloadTaskModel)
updated p f none = (ok [], none)
updated p f (some m) = if p m then (ok (f m ∷ []), some (f m)) else (ok [], some m)

abbrev pub added : DownloadTaskModel → Exec Cell (Unit {0})
added m none = (ok tt, some m)
added m (some old) = (raised (key_error m.id), some old)

abbrev assigned_in : String → (DownloadTaskModel → DownloadTaskModel) → Cell → Cell
assigned_in id f none = none
assigned_in id f (some m) = some (if str_eq m.id id then record (f m) { id = m.id } else m)

abbrev pub cell : Session
cell = record {
  State = Cell;
  now = λ s. (400000000, s);
  get = λ id s. (ok (row s id), s);
  add = added;
  assign = assigned_in;
  select_latest = λ offset limit s. (ok [], s);
  update_where = updated;
  update_some = λ p n f. updated p f;
  select_downloaded = λ p s. (ok none, s);
  add_downloaded = λ d s. (ok tt, s);
  delete_downloaded = λ p s. (ok tt, s);
}

cell_changes :
    (p : DownloadTaskModel → Bool) (f : DownloadTaskModel → DownloadTaskModel)
    (same : (m : DownloadTaskModel) → (f m).id ≡ m.id) (s t : Cell) (rows : List DownloadTaskModel)
    → updated p f s ≡ (ok rows, t)
    → (k : String) → row t k ≡ changed p f (row s k)
cell_changes p f same none t rows h k = rw (← ap (λ r. r.1) h) refl
cell_changes p f same (some m) t rows h k =
    let e : t ≡ (updated p f (some m)).1 = sym (ap (λ r. r.1) h) in
    let id = same m in ground (arith, e, id, eq_iff m.id k, eq_iff (f m).id k)

cell_hits :
    (p : DownloadTaskModel → Bool) (f : DownloadTaskModel → DownloadTaskModel) (s : Cell)
    (m : DownloadTaskModel) (ms : List DownloadTaskModel)
    → (updated p f s).0 ≡ ok (m ∷ ms)
    → (old : DownloadTaskModel) × (row s old.id ≡ some old) × (p old ≡ true)
cell_hits p f none m ms h = cc
cell_hits p f (some old) m ms h = (old, rw (eq_iff old.id old.id).1 refl, ground arith)

cell_fails :
    (p : DownloadTaskModel → Bool) (f : DownloadTaskModel → DownloadTaskModel) (s t : Cell)
    (e : Error)
    → updated p f s ≡ (raised e, t)
    → (k : String) → row t k ≡ row s k
cell_fails p f none t e h k = cc
cell_fails p f (some m) t e h k = absurd (ground arith)

cell_assigns :
    (id : String) (f : DownloadTaskModel → DownloadTaskModel)
    (same : (m : DownloadTaskModel) → (f m).id ≡ m.id) (s : Cell) (k : String)
    → row (assigned_in id f s) k ≡ (if str_eq id k then assigned_to f (row s k) else row s k)
cell_assigns id f same none k = ground arith
cell_assigns id f same (some m) k =
    let e = same m in
    ground (arith, e, eq_iff m.id k, eq_iff m.id id, eq_iff id k, eq_iff (f m).id k)

cell_adds :
    (m : DownloadTaskModel) (s : Cell) (k : String) (old : DownloadTaskModel)
    → row s k ≡ some old
    → row (added m s).1 k ≡ some old
cell_adds m none k old h = cc
cell_adds m (some x) k old h = h

pub cell-Table : Table cell row
cell-Table = record {
  now_keeps = λ s k. refl;
  get_keeps = λ id s k. refl;
  where_changes = cell_changes;
  where_hits = cell_hits;
  where_fails = cell_fails;
  assigns = cell_assigns;
  adds = cell_adds;
}

abbrev pub waiting : Cell
unfolding task_to_model
waiting = some (task_to_model (new_task "t1" "candidate"))

abbrev pub taken : DownloadTask
taken = record (new_task "t1" "candidate") {
  status = TaskStatus.running;
  worker_id = some "w1";
  started_at = some 400000000;
  last_heartbeat = some 400000000;
  attempts = 1;
}

pub taken_once : (claim cell "t1" "w1" waiting).0 ≡ ok (some taken)
unfolding claim ◌>>=◌ first_task task_to_domain task_status_of_name waiting
taken_once = refl

-- The task is another worker's when the first one saves it.
abbrev reclaimed : DownloadTask
reclaimed = record taken { worker_id = some "w2"; attempts = 2 }

update_stores_example :
    Post
      (λ _ u.
        (k : String) → row u k ≡ with_task cell row taken (row (some (task_to_model reclaimed))) k)
      (λ u. (k : String) → row u k ≡ row (some (task_to_model reclaimed)) k)
      (update cell taken (some (task_to_model reclaimed)))
    × ((m : DownloadTaskModel)
        → task_to_domain (assigned taken m)
          ≡ ok (record taken { id = m.id; candidate_id = m.candidate_id }))
update_stores_example =
    update_stores cell row cell-Table (λ id s. refl) taken (some (task_to_model reclaimed))

-- The row is then the first worker's again.
lost : (update cell taken (some (task_to_model reclaimed))).1 ≡ some (task_to_model taken)
unfolding update assigned task_to_model ◌>>=◌
lost = refl

-- Three files, of which two are uploaded.
abbrev a_row : String → ℕ → FileModel
a_row status at = record {
  id = at;
  filename = "a.txt";
  size = pos 5;
  hash = none;
  storage_key = none;
  status = status;
  created_at = at;
  uploaded_at = none;
}

abbrev pub shelf : FileSession
shelf = record {
  State = List FileModel;
  str_id = λ n. "id";
  uuid_of = λ t. ok 7;
  contains = λ s t. true;
  get = λ id s. (ok none, s);
  add = λ m s. (ok tt, m ∷ s);
  delete = λ m s. (ok tt, s);
  select_one = λ p s. (ok none, s);
  select_count = λ p s. (ok (length (filter p s)), s);
  select_page =
      λ p offset limit s. (ok (take (pos_part limit) (drop (pos_part offset) (filter p s))), s);
}

shelf-Reads : Reads shelf (λ s. s)
shelf-Reads = record { counts = λ p s. refl; pages = λ p offset limit s. refl }

abbrev pub rows : List FileModel
rows = a_row "UPLOADED" 3 ∷ a_row "FAILED" 2 ∷ a_row "UPLOADED" 1 ∷ []

abbrev a_file : ℕ → File
a_file at = record {
  id = record { value = 7 };
  filename = "a.txt";
  size = record { value = pos 5 };
  hash = none;
  storage_key = none;
  status = FileStatus.uploaded;
  created_at = at;
  uploaded_at = none;
}

abbrev uploaded_only : Option FileFilters
uploaded_only = some (record { status = some "UPLOADED"; filename_contains = none })

rows_read :
    files_of shelf (filter (condition shelf.contains uploaded_only) rows)
    ≡ ok (a_file 3 ∷ a_file 1 ∷ [])
unfolding files_of file_to_domain file_status_of_name file_size
rows_read = refl

list_files_pages_example :
    (gather shelf uploaded_only 1 0 2 rows ≡ (ok (a_file 3 ∷ a_file 1 ∷ []), rows))
    × ((i : ℕ)
        → list_files shelf uploaded_only (pos (suc i)) (pos 1) rows ≡ (
          ok (record {
            items = take 1 (drop (i * 1) (a_file 3 ∷ a_file 1 ∷ []));
            total = 2;
            page = pos (suc i);
            per_page = pos 1;
          }),
          rows,
        ))
list_files_pages_example =
    list_files_pages shelf (λ s. s) shelf-Reads uploaded_only rows (a_file 3 ∷ a_file 1 ∷ [])
      rows_read 1 2 (omega arith)
