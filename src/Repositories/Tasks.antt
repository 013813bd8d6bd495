-- ===== src/Repositories/Tasks.antt =====
-- `SQLAlchemyTaskRepository` of app/infrastructure/database/repositories.py. A statement is its
-- condition and its assignments, which are functions of a row; the session runs it.
use file_extractor.Base.{
  ℕ, ◌+◌, String, Bool, true, false, ◌&&◌, Option, none, some, List, [], ◌∷◌, ltb,
}
use text.Mathlib.Text.{◌==◌ as str_eq}
use file_extractor.Base.Int.{ℤ, pos_part, neg_part, sub_ℕ}
use file_extractor.Base.Exec.{Exec, Result, ok, pure, lift, ◌>>=◌, ◌>>◌}
use file_extractor.Domain.Hash.{FileHash}
use file_extractor.Domain.Task.{DownloadTask}
use file_extractor.Domain.Time.{DateTime, add_seconds}
use file_extractor.Repositories.Rows.{DownloadTaskModel, task_to_model, task_to_domain, and_then}

-- `DownloadedFileModel`, less the UUID that its default gives.
pub record DownloadedFileModel : Type 0 where
  pub task_id : String
  pub file_name : String
  pub hash : String

-- What the repository asks of the session and the database.
pub record Session : Type 1 where
  pub State : Type 0
  pub now : State → DateTime × State
  -- get by the primary key, add, and the assignments to the attributes of the object with a key
  pub get : String → Exec State (Option DownloadTaskModel)
  pub add : DownloadTaskModel → Exec State (Unit {0})
  pub assign : String → (DownloadTaskModel → DownloadTaskModel) → State → State
  -- select, by `started_at` from the last, with an offset and a limit
  pub select_latest : ℕ → ℕ → Exec State (List DownloadTaskModel)
  -- update with a condition and values, which returns the rows as they are then; and the same for
  -- at most so many of the rows with the condition
  pub update_where :
      (DownloadTaskModel → Bool)
      → (DownloadTaskModel → DownloadTaskModel)
      → Exec State (List DownloadTaskModel)
  pub update_some :
      (DownloadTaskModel → Bool)
      → ℕ
      → (DownloadTaskModel → DownloadTaskModel)
      → Exec State (List DownloadTaskModel)
  -- the statements on the downloaded files
  pub select_downloaded : (DownloadedFileModel → Bool) → Exec State (Option DownloadedFileModel)
  pub add_downloaded : DownloadedFileModel → Exec State (Unit {0})
  pub delete_downloaded : (DownloadedFileModel → Bool) → Exec State (Unit {0})

-- `column < time`, which a NULL does not satisfy.
abbrev pub is_before : Option DateTime → DateTime → Bool
is_before none t = false
is_before (some s) t = ltb s t

-- The conditions and the values of the statements.
abbrev pub has_status : String → String → DownloadTaskModel → Bool
has_status task_id status m = str_eq m.id task_id && str_eq m.status status

abbrev pub claim_values : String → DateTime → DownloadTaskModel → DownloadTaskModel
claim_values worker_id now m = record m {
  status = "RUNNING";
  worker_id = some worker_id;
  started_at = some now;
  last_heartbeat = some now;
  attempts = m.attempts + 1;
  error = none;
  blocked_until = none;
  block_reason = none;
}

abbrev pub is_stuck : DateTime → DownloadTaskModel → Bool
is_stuck cutoff m = str_eq m.status "RUNNING" && is_before m.last_heartbeat cutoff

abbrev pub stuck_values : DownloadTaskModel → DownloadTaskModel
stuck_values m = record m {
  status = "PENDING";
  worker_id = none;
  last_heartbeat = none;
  blocked_until = none;
  block_reason = none;
}

abbrev pub is_over : DateTime → DownloadTaskModel → Bool
is_over now m = str_eq m.status "BLOCKED" && is_before m.blocked_until now

abbrev pub over_values : DownloadTaskModel → DownloadTaskModel
over_values m = record m {
  status = "PENDING";
  worker_id = none;
  blocked_until = none;
  block_reason = none;
}

-- The attributes that `update` assigns.
unfoldable pub assigned : DownloadTask → DownloadTaskModel → DownloadTaskModel
unfolding task_to_model
assigned t m = record (task_to_model t) { id = m.id; candidate_id = m.candidate_id }

abbrev pub is_download : String → String → DownloadedFileModel → Bool
is_download task_id filename d = str_eq d.task_id task_id && str_eq d.file_name filename

-- `[self._to_domain(row[0]) for row in rows]`
unfoldable pub tasks_of : List DownloadTaskModel → Result (List DownloadTask)
tasks_of [] = ok []
tasks_of (m ∷ ms) = and_then (task_to_domain m) λ t. and_then (tasks_of ms) λ ts. ok (t ∷ ts)

-- `fetchone`, and `_to_domain` of the row if there is one.
unfoldable pub first_task : List DownloadTaskModel → Result (Option DownloadTask)
first_task [] = ok none
first_task (m ∷ ms) = and_then (task_to_domain m) λ t. ok (some t)

abbrev pub opposite : ℤ → ℤ
opposite z = sub_ℕ (neg_part z) (pos_part z)

module _ (d : Session) where
  abbrev pub clock : Exec d.State DateTime
  clock s = let (t, u) = d.now s in (ok t, u)

  unfoldable pub add : DownloadTask → Exec d.State (Unit {0})
  add t = d.add (task_to_model t)

  unfoldable pub get_by_id : String → Exec d.State (Option DownloadTask)
  get_by_id task_id = do
    found ← d.get task_id
    elim found [ none ↦ pure none | some m ↦ lift (first_task (m ∷ [])) ]

  unfoldable pub update : DownloadTask → Exec d.State (Unit {0})
  update t = do
    found ← d.get t.id
    elim found [ none ↦ pure tt | some m ↦ λ s. (ok tt, d.assign t.id (assigned t) s) ]

  unfoldable pub list_tasks : ℕ → ℕ → Exec d.State (List DownloadTask)
  list_tasks limit offset = do rows ← d.select_latest offset limit; lift (tasks_of rows)

  unfoldable pub claim : String → String → Exec d.State (Option DownloadTask)
  claim task_id worker_id = do
    now ← clock
    rows ← d.update_where (has_status task_id "PENDING") (claim_values worker_id now)
    lift (first_task rows)

  unfoldable pub update_heartbeat : String → Exec d.State (Unit {0})
  update_heartbeat task_id = do
    now ← clock
    d.update_where (has_status task_id "RUNNING") (λ m. record m { last_heartbeat = some now })
    pure tt

  -- The age is in seconds.
  unfoldable pub reclaim_stuck : ℤ → ℕ → Exec d.State (List DownloadTask)
  reclaim_stuck max_heartbeat_age limit = do
    now ← clock
    cutoff ← lift (add_seconds now (opposite max_heartbeat_age))
    rows ← d.update_some (is_stuck cutoff) limit stuck_values
    lift (tasks_of rows)

  unfoldable pub reclaim_blocked : ℕ → Exec d.State (List DownloadTask)
  reclaim_blocked limit = do
    now ← clock
    rows ← d.update_some (is_over now) limit over_values
    lift (tasks_of rows)

  unfoldable pub downloaded_file_exists : String → String → Exec d.State Bool
  downloaded_file_exists task_id filename = do
    found ← d.select_downloaded (is_download task_id filename)
    pure (elim found [ none ↦ false | some _ ↦ true ])

  unfoldable pub record_downloaded_file : String → String → FileHash → Exec d.State (Unit {0})
  record_downloaded_file task_id filename hash =
      d.add_downloaded (record { task_id = task_id; file_name = filename; hash = hash.value })

  unfoldable pub delete_downloaded_file : String → String → Exec d.State (Unit {0})
  delete_downloaded_file task_id filename = d.delete_downloaded (is_download task_id filename)
