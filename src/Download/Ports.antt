-- ===== src/Download/Ports.antt =====
-- What the handlers are given: the ports of app/application/ports, the repositories of
-- app/domain/repositories and the unit of work of app/application/unit_of_work.py, each an abstract
-- class with one method for each field here, and the standard library's clock, UUIDs and
-- `hashlib.sha256`, and the queue of Celery. A method takes the state of the world outside and returns the next one, also
-- when it raises.
use file_extractor.Base.{ℕ, String, Bool, Option, List}
use file_extractor.Base.Int.{ℤ}
use file_extractor.Base.Errors.{Error}
use file_extractor.Base.Exec.{Exec, Result}
use file_extractor.Domain.Hash.{FileHash}
use file_extractor.Domain.File.{File, FileId}
use file_extractor.Domain.Task.{DownloadTask}
use file_extractor.Domain.Time.{DateTime}

-- `ExtractedFile` of app/application/ports/file_processor.py; `content` is the bytes.
pub record ExtractedFile : Type 0 where
  pub filename : String
  pub content : List ℕ
  pub size : ℕ

-- What iterating over `extract_stream(download_files_stream(batch))` yields: some files, and
-- perhaps an exception behind them. The archive is complete before the first file is yielded
-- (app/infrastructure/processors/zip_processor.py), so no call between two files changes it.
pub record Extraction : Type 0 where
  pub files : List ExtractedFile
  pub failure : Option Error

pub record World : Type 1 where
  pub State : Type 0
  -- datetime.now(UTC), uuid4(), sha256(...).hexdigest(), str(UUID), repr(str)
  pub now : State → DateTime × State
  pub uuid4 : State → ℕ × State
  pub sha256_hexdigest : List ℕ → String
  pub str_id : ℕ → String
  pub repr : String → String
  -- UUID(text), celery_app.send_task("app.worker.celery_tasks.process_files_task", args=[...])
  pub uuid_of : String → Result ℕ
  pub send_task : String → Option String → Exec State (Unit {0})
  -- ExternalAPIClient and FileProcessor
  pub get_file_names : Option String → Exec State (List String)
  pub extract : List String → State → Extraction × State
  pub mark_downloaded : List String → Option String → Exec State (ℤ × ℤ)
  -- ObjectStorage
  pub upload_stream : List ℕ → String → ℕ → Exec State String
  pub delete_object : String → Exec State (Unit {0})
  pub download : String → Exec State (Option String)
  -- FileRepository
  pub add_file : File → Exec State (Unit {0})
  pub delete_file : FileId → Exec State (Unit {0})
  pub file_by_id : FileId → Exec State (Option File)
  pub count_by_status : String → Exec State ℕ
  -- TaskRepository
  pub add_task : DownloadTask → Exec State (Unit {0})
  pub get_task : String → Exec State (Option DownloadTask)
  pub update_task : DownloadTask → Exec State (Unit {0})
  pub downloaded_file_exists : String → String → Exec State Bool
  pub record_downloaded_file : String → String → FileHash → Exec State (Unit {0})
  pub delete_downloaded_file : String → String → Exec State (Unit {0})
  -- UnitOfWork
  pub commit : Exec State (Unit {0})
  pub rollback : Exec State (Unit {0})
