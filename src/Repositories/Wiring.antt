-- ===== src/Repositories/Wiring.antt =====
-- app/infrastructure/database/sqlalchemy_uow.py: the unit of work hands the handlers the two SQL
-- repositories, over one session.
use file_extractor.Base.Exec.{Exec}
use file_extractor.Download.Ports.{World}
use file_extractor.Repositories.Tasks.{Session}
use file_extractor.Repositories.Tasks
use file_extractor.Repositories.Files.{FileSession}
use file_extractor.Repositories.Files

-- What both repositories see of the session, as parts of the world.
pub record Database (S : Type 0) : Type 1 where
  pub tasks : Session
  pub files : FileSession
  pub task_db : S → tasks.State
  pub with_task_db : tasks.State → S → S
  pub file_db : S → files.State
  pub with_file_db : files.State → S → S

module _ {S : Type 0} (d : Database S) where
  abbrev pub on_tasks : {A : Type 0} → Exec d.tasks.State A → Exec S A
  on_tasks m s = let (r, t) = m (d.task_db s) in (r, d.with_task_db t s)

  abbrev pub on_files : {A : Type 0} → Exec d.files.State A → Exec S A
  on_files m s = let (r, t) = m (d.file_db s) in (r, d.with_file_db t s)

-- `SQLAlchemyUnitOfWork.__init__` and its properties: the ports with the repositories put in.
abbrev pub with_repositories : (w : World) → Database w.State → World
with_repositories w d = record w {
  add_file = λ f. on_files d (Files.add d.files f);
  delete_file = λ id. on_files d (Files.delete d.files id);
  file_by_id = λ id. on_files d (Files.get_by_id d.files id);
  count_by_status = λ status. on_files d (Files.count_by_status d.files status);
  add_task = λ t. on_tasks d (Tasks.add d.tasks t);
  get_task = λ id. on_tasks d (Tasks.get_by_id d.tasks id);
  update_task = λ t. on_tasks d (Tasks.update d.tasks t);
  downloaded_file_exists = λ id name. on_tasks d (Tasks.downloaded_file_exists d.tasks id name);
  record_downloaded_file = λ id name h. on_tasks d (Tasks.record_downloaded_file d.tasks id name h);
  delete_downloaded_file = λ id name. on_tasks d (Tasks.delete_downloaded_file d.tasks id name);
}
