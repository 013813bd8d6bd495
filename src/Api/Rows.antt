-- ===== src/Api/Rows.antt =====
-- What the routes show of the rows of the database.
use file_extractor.Base.{String, ◌≡◌, refl, sym, ap, ◌∙◌, Option, none, some, [], ◌∷◌}
use file_extractor.Base.Errors.{Error}
use file_extractor.Base.Exec.{Exec, Result, ok, raised, proceed, pure, lift, ◌>>=◌}
use file_extractor.Base.Exec.Ensures.{Post}
use file_extractor.Uow.{with_uow, left_uow}
use file_extractor.Domain.Status.{
  TaskStatus, task_status_name, task_status_of_name, task_status_of_name_sound,
  task_status_of_name-task_status_name,
}
use file_extractor.Domain.Task.{DownloadTask}
use file_extractor.Domain.Time.{DateTime}
use file_extractor.Download.Ports.{World}
use file_extractor.Repositories.Rows.{DownloadTaskModel, task_to_domain, task_with, and_then}
use file_extractor.Repositories.Tasks.{first_task, get_by_id}
use file_extractor.Repositories.Wiring.{Database}
use file_extractor.Api.{
  DownloadTaskResponse, Reply, replied, http_exception, task_to_response, shown, get_task_status,
  with_uow_of,
}

-- The columns of a row, less those that are not shown.
abbrev pub row_shown : DownloadTaskModel → DownloadTaskResponse
row_shown m = record {
  task_id = m.id;
  status = m.status;
  received_files = m.received_files;
  processed_files = m.processed_files;
  error = m.error;
  started_at = m.started_at;
  finished_at = m.finished_at;
  worker_id = m.worker_id;
  attempts = m.attempts;
  blocked_until = m.blocked_until;
  block_reason = m.block_reason;
}

-- The reply to what the query for the row has given.
abbrev pub IsReply : Result (Option DownloadTaskModel) → Reply DownloadTaskResponse → Type 0
IsReply (ok none) r = r ≡ http_exception 404 "Task not found"
IsReply (ok (some m)) r =
    (r ≡ replied (row_shown m)) × ((s : TaskStatus) × (m.status ≡ task_status_name s))
IsReply (raised e) r = ⊥

-- Why there is no reply: the query has raised, or the row has a status that is no name.
abbrev pub IsRefused : Result (Option DownloadTaskModel) → Type 0
IsRefused (ok none) = ⊥
IsRefused (ok (some m)) = (s : TaskStatus) → ¬ (m.status ≡ task_status_name s)
IsRefused (raised e) = Unit

-- No name is the status of a row that is refused.
status_refused :
    (name : String) (e : Error)
    → task_status_of_name name ≡ raised e
    → (s : TaskStatus) → ¬ (name ≡ task_status_name s)
status_refused name e unread s same =
    absurd (
      cc
        (sym (task_status_of_name-task_status_name s) ∙ ap task_status_of_name (sym same) ∙ unread))

module _ (w : World) where
  -- The end of the block and of the route.
  abbrev ended : Result (Option DownloadTask) → Exec w.State (Reply DownloadTaskResponse)
  ended a s = let (b, t) = left_uow w.rollback a s in proceed (λ task. pure (shown task)) b t

  refused-Post :
      (P : Reply DownloadTaskResponse → w.State → Type 0) (C : Type 0) (e : Error) (s : w.State)
      → C
      → Post P (λ t. C) (ended (raised e) s)
  unfolding left_uow
  refused-Post P C e s c = over (w.rollback s)
    where
      over :
          (r : Result (Unit {0}) × w.State)
          → Post P
              (λ t. C)
              (proceed
                (λ task. pure (shown task))
                (elim r.0 [ ok _ ↦ raised e | raised f ↦ raised f ])
                r.1)
      over (ok _, t) = c
      over (raised f, t) = c

  -- A row that is found, by how its status is read.
  row-Post :
      (m : DownloadTaskModel) (a : Result TaskStatus) (s : w.State)
      → task_status_of_name m.status ≡ a
      → Post
          (λ r t. IsReply (ok (some m)) r)
          (λ t. IsRefused (ok (some m)))
          (ended (and_then (task_with m a) λ t. ok (some t)) s)
  unfolding left_uow task_to_response
  row-Post m (ok status) s read =
      let name = task_status_of_name_sound m.status status read in (rw name refl, (status, name))
  row-Post m (raised e) s read =
      refused-Post _ (IsRefused (ok (some m))) e s (status_refused m.status e read)

-- `GET /api/download/{task_id}` on the SQL repositories: where the query finds a row, the reply
-- shows its columns as they are, and its status is one of the five names; where it finds none the
-- reply is 404. An exception comes only from the query, or from a row whose status is no name, or
-- in the place of one of these, from the roll-back.
pub get_task_status-IsReply :
    (w : World) (d : Database w.State) (isoformat : DateTime → String) (id : String) (s : w.State)
    → let found = (d.tasks.get id (d.task_db s)).0 in
      Post
        (λ r t. IsReply found r)
        (λ t. IsRefused found)
        (get_task_status (with_uow_of w d isoformat) id s)
unfolding get_task_status with_uow left_uow get_by_id first_task task_to_domain ◌>>=◌
get_task_status-IsReply w d isoformat id s = over (d.tasks.get id (d.task_db s))
  where
    over :
        (q : Result (Option DownloadTaskModel) × d.tasks.State)
        → let r =
            proceed {B = Option DownloadTask}
              (λ found. elim found [ none ↦ pure none | some m ↦ lift (first_task (m ∷ [])) ])
              q.0
              q.1 in
          Post (λ r t. IsReply q.0 r) (λ t. IsRefused q.0) (ended w r.0 (d.with_task_db r.1 s))
    over (ok none, u) = refl
    over (ok (some m), u) = row-Post w m (task_status_of_name m.status) (d.with_task_db u s) refl
    over (raised e, u) = refused-Post w _ Unit e (d.with_task_db u s) tt
