-- ===== src/Api/Started.antt =====
-- From `POST /api/download/start` to `GET /api/download/{task_id}`, over the handler, the unit of
-- work and the SQL repository.
use file_extractor.Base.{String, ◌≡◌, refl, ◌∙◌, Option, none, some}
use file_extractor.Base.Errors.{Error}
use file_extractor.Base.Exec.{Exec, Result, ok, raised, proceed, pure, ◌>>=◌}
use file_extractor.Base.Exec.Ensures.{Post, Ensures, Ensures-bind}
use file_extractor.Uow.{with_uow, left_uow}
use file_extractor.Domain.Task.{DownloadTask, new_task}
use file_extractor.Domain.Time.{DateTime}
use file_extractor.Download.Ports.{World}
use file_extractor.Download.Start
use file_extractor.Download.Start.{or_empty, new_task_id}
use file_extractor.Repositories.Rows.{
  DownloadTaskModel, task_to_model, task_to_domain-task_to_model,
}
use file_extractor.Repositories.Tasks
use file_extractor.Repositories.Tasks.{first_task, get_by_id}
use file_extractor.Repositories.Wiring.{Database, on_tasks, with_repositories}
use file_extractor.Api.{
  DownloadTaskResponse, replied, created, task_to_response, start_download, get_task_status,
  with_uow_of,
}

-- The table of the tasks and the session of a request. A row that is added is in the session, where
-- the query by the primary key reads it; a commit that returns writes what is in the session to the
-- table; a session that opens has what is in the table. Neither a message of the queue nor the end
-- of a session changes the table.
pub record HoldsRows (w : World) (d : Database w.State) (opens closes : w.State → w.State)
    (draft row : w.State → String → Option DownloadTaskModel) : Type 0 where
  pub adds :
      (m : DownloadTaskModel) (s : w.State)
      → (on_tasks d (d.tasks.add m) s).0 ≡ ok tt
      → draft (on_tasks d (d.tasks.add m) s).1 m.id ≡ some m
  pub gets : (id : String) (s : w.State) → (on_tasks d (d.tasks.get id) s).0 ≡ ok (draft s id)
  pub commits :
      (s : w.State) (k : String) → (w.commit s).0 ≡ ok tt → row (w.commit s).1 k ≡ draft s k
  pub sends :
      (id : String) (c : Option String) (s : w.State) (k : String)
      → row (w.send_task id c s).1 k ≡ row s k
  pub opened : (s : w.State) (k : String) → draft (opens s) k ≡ row s k
  pub closed : (s : w.State) (k : String) → row (closes s) k ≡ row s k

-- `get_uow`: a request works in a session of its own, which is closed whichever way it ends.
unfoldable pub request : {S A : Type 0} → (S → S) → (S → S) → Exec S A → Exec S A
request opens closes act s = let (r, t) = act (opens s) in (r, closes t)

-- The row of a task that was just made, as the route shows it.
abbrev pub untouched : String → DownloadTaskResponse
untouched task_id = record {
  task_id = task_id;
  status = "PENDING";
  received_files = 0;
  processed_files = 0;
  error = none;
  started_at = none;
  finished_at = none;
  worker_id = none;
  attempts = 0;
  blocked_until = none;
  block_reason = none;
}

module _ {w : World} {d : Database w.State} {opens closes : w.State → w.State}
    {draft row : w.State → String → Option DownloadTaskModel}
    (law : HoldsRows w d opens closes draft row) where
  abbrev IsDraft : DownloadTask → w.State → Type 0
  IsDraft t s = draft s t.id ≡ some (task_to_model t)

  abbrev HasRow : DownloadTask → w.State → Type 0
  HasRow t s = row s t.id ≡ some (task_to_model t)

  abbrev Anything : w.State → Type 0
  Anything s = Unit

  kept-Post :
      (t : DownloadTask) (r : Result (Unit {0}) × w.State)
      → HasRow t r.1
      → Post (λ _. HasRow t) Anything r
  kept-Post t (ok _, s) h = h
  kept-Post t (raised e, s) h = tt

  uow-Ensures :
      {P : w.State → Type 0} (t : DownloadTask) (m : Exec w.State (Unit {0}))
      → Ensures P m (λ _. HasRow t) Anything
      → Ensures P (with_uow w.rollback m) (λ _. HasRow t) Anything
  unfolding with_uow left_uow
  uow-Ensures t m h = record { at = λ s p. over (m s) (h.at s p) }
    where
      failed :
          (e : Error) (r : Result (Unit {0}) × w.State)
          → Post {A = Unit {0}}
              (λ _. HasRow t)
              Anything
              (elim r.0 [ ok _ ↦ raised e | raised f ↦ raised f ], r.1)
      failed e (ok _, s) = tt
      failed e (raised f, s) = tt

      over :
          (r : Result (Unit {0}) × w.State)
          → Post (λ _. HasRow t) Anything r
          → Post (λ _. HasRow t) Anything (left_uow w.rollback r.0 r.1)
      over (ok _, s) p = p
      over (raised e, s) p = failed e (w.rollback s)

  add-Ensures :
      (t : DownloadTask)
      → Ensures Anything (on_tasks d (Tasks.add d.tasks t)) (λ _. IsDraft t) Anything
  unfolding Tasks.add task_to_model
  add-Ensures t = record {
    at = λ s p. over (on_tasks d (d.tasks.add (task_to_model t)) s) (law.adds (task_to_model t) s);
  }
    where
      over :
          (r : Result (Unit {0}) × w.State)
          → (r.0 ≡ ok tt → IsDraft t r.1)
          → Post (λ _. IsDraft t) Anything r
      over (ok _, s) h = h refl
      over (raised e, s) h = tt

  commit-Ensures : (t : DownloadTask) → Ensures (IsDraft t) w.commit (λ _. HasRow t) Anything
  commit-Ensures t = record { at = λ s p. over (w.commit s) (λ e. law.commits s t.id e ∙ p) }
    where
      over :
          (r : Result (Unit {0}) × w.State)
          → (r.0 ≡ ok tt → HasRow t r.1)
          → Post (λ _. HasRow t) Anything r
      over (ok _, s) h = h refl
      over (raised e, s) h = tt

  started-Post :
      (c : Option String) (s : w.State)
      → Post
          (λ id. HasRow (new_task id (or_empty c)))
          Anything
          (Start.start_download (with_repositories w d) c s)
  unfolding Start.start_download ◌>>=◌
  started-Post c s =
      let id = w.str_id (w.uuid4 s).0 in
      let t = new_task id (or_empty c) in
      (Ensures-bind _ _
          (uow-Ensures t _ (
            Ensures-bind (on_tasks d (Tasks.add d.tasks t)) _ (add-Ensures t)
              λ _. commit-Ensures t))
          λ _.
            Ensures-bind {R = λ id u. HasRow (new_task id (or_empty c)) u} (w.send_task id c) _
              (record { at = λ u p. kept-Post t (w.send_task id c u) (law.sends id c u t.id ∙ p) })
              λ _. record { at = λ u p. p }).at
        (w.uuid4 s).1 tt

  shown_lem :
      (isoformat : DateTime → String) (t : DownloadTask) (s : w.State)
      → IsDraft t s
      → (get_task_status (with_uow_of w d isoformat) t.id s).0 ≡ ok (replied (task_to_response t))
  unfolding get_task_status with_uow left_uow get_by_id first_task ◌>>=◌
  shown_lem isoformat t s h = rw (law.gets t.id s, h, task_to_domain-task_to_model t) refl

  -- What a request of its own shows of a task whose row is in the table.
  asked_lem :
      (isoformat : DateTime → String) (id c : String) (s : w.State)
      → HasRow (new_task id c) s
      → (request opens closes (get_task_status (with_uow_of w d isoformat) id) (closes s)).0
        ≡ ok (replied (untouched id))
  unfolding request task_to_response
  asked_lem isoformat id c s h =
      shown_lem isoformat (new_task id c) (opens (closes s))
        (law.opened (closes s) id ∙ law.closed s id ∙ h)

-- A task that `POST /api/download/start` has returned the id of is shown by
-- `GET /api/download/{task_id}` right after, each request with a session of its own: PENDING, with
-- nothing counted, and with no worker, error or block. An added row is at first in the session that
-- it was added to; only a commit writes to the table what another session reads.
pub start_download-shown :
    (w : World) (d : Database w.State) (opens closes : w.State → w.State)
    (draft row : w.State → String → Option DownloadTaskModel)
    → HoldsRows w d opens closes draft row
    → (isoformat : DateTime → String) (candidate_id : Option String) (s : w.State)
    → let b = with_uow_of w d isoformat in
      Post
        (λ x t.
          (request opens closes (get_task_status b x.task_id) t).0
          ≡ ok (replied (untouched x.task_id)))
        (λ t. Unit {0})
        (request opens closes (start_download b candidate_id) s)
unfolding request start_download ◌>>=◌
start_download-shown w d opens closes draft row law isoformat candidate_id s =
    over (Start.start_download (with_repositories w d) candidate_id (opens s))
      (started-Post law candidate_id (opens s))
  where
    over :
        (r : Result String × w.State)
        → Post (λ id. HasRow law (new_task id (or_empty candidate_id))) (λ t. Unit) r
        → let q = proceed (λ id. pure (created id)) r.0 r.1 in
          Post
            (λ x t.
              (request opens closes (get_task_status (with_uow_of w d isoformat) x.task_id) t).0
              ≡ ok (replied (untouched x.task_id)))
            (λ t. Unit {0})
            (q.0, closes q.1)
    over (ok id, t) h = asked_lem law isoformat id (or_empty candidate_id) t h
    over (raised e, t) h = tt
