-- ===== src/Repositories/Claims.antt =====
-- What `claim` and `reclaim_blocked` of the task repository give, in the terms of the entity: both
-- write a status by SQL, past the guards of `DownloadTask`.
use mathlib.Core.Path.{subst}
use text.Mathlib.Text.{◌==◌ as str_eq}
use text.Mathlib.TextEquality.{eq_iff}
use file_extractor.Base.{
  All, ℕ, ◌≤◌, String, ◌≡◌, refl, sym, ap, ◌∙◌, Bool, true, false, none, some, List, [], ◌∷◌,
  length, arith,
}
use file_extractor.Base.Exec.{Result, ok, raised, proceed, lift, ◌>>=◌}
use file_extractor.Domain.Status.{
  TaskStatus, is_pending, is_blocked_status, task_status_name, task_status_of_name,
  task_status_of_name-task_status_name,
}
use file_extractor.Domain.Task
use file_extractor.Domain.Task.{DownloadTask, is_blocked}
use file_extractor.Domain.Time.{DateTime}
use file_extractor.Repositories.Rows.{DownloadTaskModel, task_to_domain, task_with, and_then}
use file_extractor.Repositories.Tasks.{
  Session, has_status, claim_values, is_over, over_values, tasks_of, first_task, claim,
  reclaim_blocked,
}

-- Each row is `f` of a stored one with `p`.
abbrev pub EachFrom :
    (DownloadTaskModel → Type 0)
    → (DownloadTaskModel → Bool)
    → (DownloadTaskModel → DownloadTaskModel)
    → List DownloadTaskModel
    → Type 0
EachFrom stored p f [] = Unit {0}
EachFrom stored p f (m ∷ ms) =
    ((old : DownloadTaskModel) × stored old × (p old ≡ true) × (m ≡ f old)) × EachFrom stored p f ms

-- What the database does for an UPDATE with RETURNING, by the rows that it stores: the rows that it
-- returns are stored rows that had the condition, with the values set; with a limit, they are no
-- more than that. Reading the clock stores no row.
pub record Returns (d : Session) (stored : d.State → DownloadTaskModel → Type 0) : Type 0 where
  pub now_from : (s : d.State) (m : DownloadTaskModel) → stored (d.now s).1 m → stored s m
  pub where_from :
      (p : DownloadTaskModel → Bool) (f : DownloadTaskModel → DownloadTaskModel) (s : d.State)
      (rows : List DownloadTaskModel)
      → (d.update_where p f s).0 ≡ ok rows
      → EachFrom (stored s) p f rows
  pub some_from :
      (p : DownloadTaskModel → Bool) (n : ℕ) (f : DownloadTaskModel → DownloadTaskModel)
      (s : d.State) (rows : List DownloadTaskModel)
      → (d.update_some p n f s).0 ≡ ok rows
      → EachFrom (stored s) p f rows × (length rows ≤ n)

-- `u` is a stored task that was PENDING and that `DownloadTask.claim` has changed, less the error
-- and the block of an earlier attempt.
abbrev pub IsClaim :
    (DownloadTaskModel → Type 0) → String → String → DateTime → DownloadTask → Type 0
IsClaim stored task_id worker_id now u =
    (m : DownloadTaskModel) × (t : DownloadTask) × stored m
    × (task_to_domain m ≡ ok t)
    × (t.id ≡ task_id)
    × (is_pending t.status ≡ true)
    × (u ≡ record (Task.claim worker_id now now t).1 {
      error = none;
      blocked_until = none;
      block_reason = none;
    })

abbrev as_task : TaskStatus → DownloadTaskModel → DownloadTask
as_task status m = record {
  id = m.id;
  candidate_id = m.candidate_id;
  status = status;
  received_files = m.received_files;
  processed_files = m.processed_files;
  error = m.error;
  started_at = m.started_at;
  finished_at = m.finished_at;
  worker_id = m.worker_id;
  last_heartbeat = m.last_heartbeat;
  attempts = m.attempts;
  blocked_until = m.blocked_until;
  block_reason = m.block_reason;
}

-- A row whose status has a name is read as the task with that status.
read_as :
    (status : TaskStatus) (m : DownloadTaskModel)
    → str_eq m.status (task_status_name status) ≡ true
    → task_to_domain m ≡ ok (as_task status m)
unfolding task_to_domain
read_as status m h =
    ap (λ n. task_with m (task_status_of_name n)) ((eq_iff m.status (task_status_name status)).0 h)
    ∙ ap (task_with m) (task_status_of_name-task_status_name status)

module _ (stored : DownloadTaskModel → Type 0) (task_id worker_id : String) (now : DateTime)
    (u : DownloadTask) where
  first_task-IsClaim :
      (rows : List DownloadTaskModel)
      → EachFrom stored (has_status task_id "PENDING") (claim_values worker_id now) rows
      → first_task rows ≡ ok (some u)
      → IsClaim stored task_id worker_id now u
  unfolding first_task task_to_domain task_status_of_name Task.claim
  first_task-IsClaim [] from h = cc
  first_task-IsClaim (m ∷ ms) ((old, there, p, e), from) h =
      let q : first_task (claim_values worker_id now old ∷ ms) ≡ ok (some u) =
        ap (λ r. first_task (r ∷ ms)) (sym e) ∙ h in
      (
        old,
        as_task TaskStatus.pending old,
        there,
        read_as TaskStatus.pending old (ground arith),
        (eq_iff old.id task_id).0 (ground arith),
        refl,
        cc,
      )

  rows-IsClaim :
      {S : Type 0} (r : Result (List DownloadTaskModel) × S)
      → ((rows : List DownloadTaskModel)
          → r.0 ≡ ok rows
          → EachFrom stored (has_status task_id "PENDING") (claim_values worker_id now) rows)
      → (proceed (λ rows. lift (first_task rows)) r.0 r.1).0 ≡ ok (some u)
      → IsClaim stored task_id worker_id now u
  rows-IsClaim (raised e, s) from h = cc
  rows-IsClaim (ok rows, s) from h = first_task-IsClaim rows (from rows refl) h

pub EachFrom-stored :
    {P Q : DownloadTaskModel → Type 0} (p : DownloadTaskModel → Bool)
    (f : DownloadTaskModel → DownloadTaskModel) (rows : List DownloadTaskModel)
    → ((m : DownloadTaskModel) → P m → Q m)
    → EachFrom P p f rows
    → EachFrom Q p f rows
EachFrom-stored p f [] g from = tt
EachFrom-stored p f (m ∷ ms) g ((old, there, h, e), from) =
    ((old, g old there, h, e), EachFrom-stored p f ms g from)

-- A task that the repository's `claim` returns was stored as PENDING, has the id that was asked for,
-- and is what `DownloadTask.claim` makes of it at that time, less the error and the block of an
-- earlier attempt, if the database returns only stored rows that had the condition.
pub claim-IsClaim :
    (d : Session) (stored : d.State → DownloadTaskModel → Type 0)
    → Returns d stored
    → (task_id worker_id : String) (s : d.State) (u : DownloadTask)
    → (claim d task_id worker_id s).0 ≡ ok (some u)
    → IsClaim (stored s) task_id worker_id (d.now s).0 u
unfolding claim ◌>>=◌
claim-IsClaim d stored laws task_id worker_id s u h =
    let (now, t) = d.now s in
    let p = has_status task_id "PENDING" in
    let f = claim_values worker_id now in
    rows-IsClaim (stored s) task_id worker_id now u (d.update_where p f t)
      (λ rows e. EachFrom-stored p f rows (laws.now_from s) (laws.where_from p f t rows e)) h

-- `u` is a stored BLOCKED task whose block is over, put back to PENDING without its worker and block.
abbrev pub IsReclaimed : (DownloadTaskModel → Type 0) → DateTime → DownloadTask → Type 0
IsReclaimed stored now u =
    (m : DownloadTaskModel) × (t : DownloadTask) × stored m
    × (task_to_domain m ≡ ok t)
    × (is_blocked_status t.status ≡ true)
    × (is_blocked now t ≡ false)
    × (u ≡ record t {
      status = TaskStatus.pending;
      worker_id = none;
      blocked_until = none;
      block_reason = none;
    })

is_over-IsFree :
    (now : DateTime) (m : DownloadTaskModel)
    → is_over now m ≡ true
    → is_blocked now (as_task TaskStatus.blocked m) ≡ false
unfolding is_blocked
is_over-IsFree now m h = ground arith

rest_of :
    (t : DownloadTask) (r : Result (List DownloadTask)) (ts : List DownloadTask)
    → and_then r (λ us. ok (t ∷ us)) ≡ ok ts
    → (us : List DownloadTask) × (r ≡ ok us) × (ts ≡ t ∷ us)
rest_of t (raised e) ts h = cc
rest_of t (ok us) ts h = (us, refl, cc)

module _ (stored : DownloadTaskModel → Type 0) (now : DateTime) where
  tasks_of-IsReclaimed :
      (rows : List DownloadTaskModel) (ts : List DownloadTask)
      → EachFrom stored (is_over now) over_values rows
      → tasks_of rows ≡ ok ts
      → All (IsReclaimed stored now) ts × (length ts ≡ length rows)
  unfolding tasks_of task_to_domain task_status_of_name
  tasks_of-IsReclaimed [] [] from h = (tt, refl)
  tasks_of-IsReclaimed [] (t ∷ ts) from h = cc
  tasks_of-IsReclaimed (m ∷ ms) ts ((old, there, p, e), from) h =
      let u : DownloadTask = as_task TaskStatus.pending (over_values old) in
      let (us, read, parts) =
        rest_of u (tasks_of ms) ts (ap (λ r. tasks_of (r ∷ ms)) (sym e) ∙ h) in
      let (each, size) = tasks_of-IsReclaimed ms us from read in
      let blocked = read_as TaskStatus.blocked old (ground arith) in
      subst (λ xs. All (IsReclaimed stored now) xs × (length xs ≡ length (m ∷ ms))) (sym parts)
        (
          (
            (
              old,
              as_task TaskStatus.blocked old,
              there,
              blocked,
              refl,
              is_over-IsFree now old p,
              refl,
            ),
            each,
          ),
          omega (arith, size),
        )

  rows-IsReclaimed :
      {S : Type 0} (limit : ℕ) (ts : List DownloadTask) (r : Result (List DownloadTaskModel) × S)
      → ((rows : List DownloadTaskModel)
          → r.0 ≡ ok rows
          → EachFrom stored (is_over now) over_values rows × (length rows ≤ limit))
      → (proceed (λ rows. lift (tasks_of rows)) r.0 r.1).0 ≡ ok ts
      → All (IsReclaimed stored now) ts × (length ts ≤ limit)
  rows-IsReclaimed limit ts (raised e, s) from h = cc
  rows-IsReclaimed limit ts (ok rows, s) from h =
      let (some_of, bound) = from rows refl in
      let (each, size) = tasks_of-IsReclaimed rows ts some_of h in
      (each, omega (arith, size, bound))

-- What `reclaim_blocked` returns is at most `limit` tasks; each was stored as BLOCKED, `is_blocked`
-- denied that its block lasts at that time, and it is PENDING again without a worker and a block, all
-- else as it was, if the database returns only stored rows that had the condition, and no more than
-- the limit.
pub reclaim_blocked-IsReclaimed :
    (d : Session) (stored : d.State → DownloadTaskModel → Type 0)
    → Returns d stored
    → (limit : ℕ) (s : d.State) (ts : List DownloadTask) → (reclaim_blocked d limit s).0 ≡ ok ts
    → All (IsReclaimed (stored s) (d.now s).0) ts × (length ts ≤ limit)
unfolding reclaim_blocked ◌>>=◌
reclaim_blocked-IsReclaimed d stored laws limit s ts h =
    let (now, t) = d.now s in
    rows-IsReclaimed (stored s) now limit ts (d.update_some (is_over now) limit over_values t)
      (λ rows e.
        let (each, size) = laws.some_from (is_over now) limit over_values t rows e in
        (EachFrom-stored (is_over now) over_values rows (laws.now_from s) each, size))
      h
