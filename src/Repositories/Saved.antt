-- ===== src/Repositories/Saved.antt =====
-- `SQLAlchemyTaskRepository.update` on the rows of the table.
use text.Mathlib.Text.{◌==◌ as str_eq}
use text.Mathlib.TextEquality.{eq_iff}
use file_extractor.Base.{
  String, ◌≡◌, refl, sym, ap, ◌∙◌, inl, inr, Bool-cases, Option, none, some, if◌then◌else◌,
}
use file_extractor.Base.Exec.{Result, ok, raised, pure, proceed, ◌>>=◌}
use file_extractor.Base.Exec.Ensures.{Post}
use file_extractor.Domain.Status.{task_status_of_name-task_status_name}
use file_extractor.Domain.Task.{DownloadTask}
use file_extractor.Repositories.Rows.{DownloadTaskModel, task_to_model, task_to_domain}
use file_extractor.Repositories.Tasks.{Session, assigned, update}
use file_extractor.Repositories.Table.{Table, assigned_to}

module _ (d : Session) (row : d.State → String → Option DownloadTaskModel) where
  -- `get` by the key returns the row, if it returns.
  abbrev pub Gets : Type 0
  Gets =
      (id : String) (s : d.State) → Post (λ found t. found ≡ row s id) (λ t. Unit {0}) (d.get id s)

  -- The rows with the one of the task replaced.
  abbrev pub with_task :
      DownloadTask → (String → Option DownloadTaskModel) → String → Option DownloadTaskModel
  with_task t rows k = if str_eq t.id k then assigned_to (assigned t) (rows k) else rows k

module _ (d : Session) (row : d.State → String → Option DownloadTaskModel) (table : Table d row)
    (t : DownloadTask) (s : d.State) where
  abbrev Stored : d.State → Type 0
  Stored u = (k : String) → row u k ≡ with_task d row t (row s) k

  abbrev Same : d.State → Type 0
  Same u = (k : String) → row u k ≡ row s k

  -- Where there is no row, there is nothing to replace.
  none-Stored : (u : d.State) → row s t.id ≡ none → Same u → Stored u
  none-Stored u e same k = elim (Bool-cases (str_eq t.id k)) [
    | inl x ↦
        let absent : row s k ≡ none = ap (row s) (sym ((eq_iff t.id k).0 x)) ∙ e in
        rw (x, absent) (same k ∙ absent)
    | inr x ↦ rw x (same k)
  ]

  some-Stored : (u : d.State) → Same u → Stored (d.assign t.id (assigned t) u)
  unfolding assigned
  some-Stored u same k =
      table.assigns t.id (assigned t) (λ m. refl) u k
      ∙ ap (λ r. if str_eq t.id k then assigned_to (assigned t) r else r) (same k)

  found-Post :
      (r : Result (Option DownloadTaskModel) × d.State)
      → Same r.1
      → Post (λ found u. found ≡ row s t.id) (λ u. Unit {0}) r
      → Post {S = d.State}
          (λ _. Stored)
          Same
          (proceed
            (λ found. elim found [
              | none ↦ pure tt
              | some m ↦ λ u. (ok tt, d.assign t.id (assigned t) u)
            ])
            r.0
            r.1)
  found-Post (ok none, u) same e = none-Stored u (sym e) same
  found-Post (ok (some m), u) same e = some-Stored u same
  found-Post (raised x, u) same e = same

task_to_domain-assigned :
    (t : DownloadTask) (m : DownloadTaskModel)
    → task_to_domain (assigned t m) ≡ ok (record t { id = m.id; candidate_id = m.candidate_id })
unfolding task_to_domain assigned task_to_model
task_to_domain-assigned t m = rw (task_status_of_name-task_status_name t.status) refl

-- `update` stores the task in the row with its id, if there is one, whatever that row was, and leaves
-- all other rows alone; if it raises, all rows are as they were. The row is then read back as that
-- task, with the id and the candidate of the row. The table gives the row for a key, and changes its
-- rows as the statements say.
pub update_stores :
    (d : Session) (row : d.State → String → Option DownloadTaskModel)
    → Table d row
    → Gets d row
    → (t : DownloadTask) (s : d.State)
    → Post
        (λ _ u. (k : String) → row u k ≡ with_task d row t (row s) k)
        (λ u. (k : String) → row u k ≡ row s k)
        (update d t s)
      × ((m : DownloadTaskModel)
          → task_to_domain (assigned t m)
            ≡ ok (record t { id = m.id; candidate_id = m.candidate_id }))
unfolding update ◌>>=◌
update_stores d row table gets t s = (
  found-Post d row table t s (d.get t.id s) (table.get_keeps t.id s) (gets t.id s),
  task_to_domain-assigned t,
)
