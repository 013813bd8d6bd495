-- ===== src/Api.antt =====
-- app/presentation/api/routes.py with the schemas of app/presentation/schemas/responses.py: the
-- function of each route. Which of them a request runs, and how a response is sent, is the
-- framework's.
pub mod Rows
pub mod Started
mod Examples
use file_extractor.Base.{ℕ, String, Option, none, some, List, map}
use file_extractor.Base.Int.{ℤ}
use file_extractor.Base.Dict.{Dict}
use file_extractor.Base.Exec.{Exec, pure, ◌>>=◌}
use file_extractor.Uow.{with_uow}
use file_extractor.Domain.Status.{task_status_name, file_status_name}
use file_extractor.Domain.File.{File}
use file_extractor.Domain.Task.{DownloadTask}
use file_extractor.Domain.Time.{DateTime}
use file_extractor.Repositories.Files.{FileFilters, PaginatedFiles}
use file_extractor.Repositories.Files
use file_extractor.Repositories.Tasks
use file_extractor.Repositories.Wiring.{Database, on_tasks, on_files, with_repositories}
use file_extractor.Download.Ports.{World}
use file_extractor.Download.Start
use file_extractor.Statistics.Digits.{Counts, CalculateStatsResult}
use file_extractor.Statistics.Digits
use file_extractor.Statistics.Files.{StatisticsResult, statistics}

pub record DownloadTaskResponse : Type 0 where
  pub task_id : String
  pub status : String
  pub received_files : ℕ
  pub processed_files : ℕ
  pub error : Option String
  pub started_at : Option DateTime
  pub finished_at : Option DateTime
  pub worker_id : Option String
  pub attempts : ℕ
  pub blocked_until : Option DateTime
  pub block_reason : Option String

pub record TaskCreatedResponse : Type 0 where
  pub task_id : String

pub record StatisticsResponse : Type 0 where
  pub total_files : ℕ
  pub total_size : ℕ
  pub uploaded_files : ℕ
  pub failed_files : ℕ
  pub average_file_size : ℕ × ℕ

pub record CalculateStatsResponse : Type 0 where
  pub overall : Counts
  pub per_file : Dict String Counts

-- The dictionaries that `get_files` returns.
pub record FileItem : Type 0 where
  pub id : String
  pub filename : String
  pub size : ℤ
  pub status : String
  pub hash : Option String
  pub created_at : String
  pub uploaded_at : Option String

pub record FilePage : Type 0 where
  pub items : List FileItem
  pub total : ℕ
  pub page : ℤ
  pub per_page : ℤ

-- What a route returns or the `HTTPException` that it raises, by its status code and detail.
pub data Reply (A : Type 0) : Type 0 where
  replied : A → Reply A
  http_exception : ℕ → String → Reply A

-- What the routes are given beside the ports of the handlers: the listings of both repositories,
-- and `isoformat`.
pub record Backend : Type 1 where
  pub ports : World
  pub list_tasks : ℕ → ℕ → Exec ports.State (List DownloadTask)
  pub list_files : Option FileFilters → ℤ → ℤ → Exec ports.State PaginatedFiles
  pub isoformat : DateTime → String

-- `_task_to_response`
unfoldable pub task_to_response : DownloadTask → DownloadTaskResponse
task_to_response t = record {
  task_id = t.id;
  status = task_status_name t.status;
  received_files = t.received_files;
  processed_files = t.processed_files;
  error = t.error;
  started_at = t.started_at;
  finished_at = t.finished_at;
  worker_id = t.worker_id;
  attempts = t.attempts;
  blocked_until = t.blocked_until;
  block_reason = t.block_reason;
}

-- The condition on what `get_by_id` has found, and the end of `get_task_status`.
abbrev pub shown : Option DownloadTask → Reply DownloadTaskResponse
shown none = http_exception 404 "Task not found"
shown (some t) = replied (task_to_response t)

abbrev pub created : String → TaskCreatedResponse
created task_id = record { task_id = task_id }

module _ (b : Backend) where
  unfoldable pub list_tasks : Exec b.ports.State (List DownloadTaskResponse)
  list_tasks = do
    tasks ← with_uow b.ports.rollback (b.list_tasks 10 0)
    pure (map task_to_response tasks)

  unfoldable pub start_download : Option String → Exec b.ports.State TaskCreatedResponse
  start_download candidate_id = do
    task_id ← Start.start_download b.ports candidate_id
    pure (created task_id)

  unfoldable pub get_task_status : String → Exec b.ports.State (Reply DownloadTaskResponse)
  get_task_status task_id = do
    task ← with_uow b.ports.rollback (b.ports.get_task task_id)
    pure (shown task)

  unfoldable pub file_to_item : File → FileItem
  file_to_item f = record {
    id = b.ports.str_id f.id.value;
    filename = f.filename;
    size = f.size.value;
    status = file_status_name f.status;
    hash = elim f.hash [ none ↦ none | some h ↦ some h.value ];
    created_at = b.isoformat f.created_at;
    uploaded_at = elim f.uploaded_at [ none ↦ none | some t ↦ some (b.isoformat t) ];
  }

  abbrev pub page_of : PaginatedFiles → FilePage
  page_of result = record {
    items = map file_to_item result.items;
    total = result.total;
    page = result.page;
    per_page = result.per_page;
  }

  unfoldable pub get_files : ℤ → ℤ → Option String → Exec b.ports.State FilePage
  get_files page per_page status = do
    result ←
        with_uow b.ports.rollback
          (b.list_files (some (record { status = status; filename_contains = none })) page per_page)
    pure (page_of result)

  abbrev pub statistics_shown : StatisticsResult → StatisticsResponse
  statistics_shown result = record {
    total_files = result.total_files;
    total_size = result.total_size;
    uploaded_files = result.uploaded_files;
    failed_files = result.failed_files;
    average_file_size = result.average_file_size;
  }

  unfoldable pub get_statistics : Exec b.ports.State StatisticsResponse
  get_statistics = do result ← statistics b.ports; pure (statistics_shown result)

  unfoldable pub calculate_stats : List String → Exec b.ports.State CalculateStatsResponse
  calculate_stats file_ids = do
    result ← Digits.calculate_stats b.ports file_ids
    pure (record { overall = result.total; per_file = result.by_file })

-- `get_uow` of app/presentation/api/deps.py: the routes on the SQL repositories.
abbrev pub with_uow_of : (w : World) → Database w.State → (DateTime → String) → Backend
with_uow_of w d isoformat = record {
  ports = with_repositories w d;
  list_tasks = λ limit offset. on_tasks d (Tasks.list_tasks d.tasks limit offset);
  list_files = λ filters page per_page. on_files d (Files.list_files d.files filters page per_page);
  isoformat = isoformat;
}
