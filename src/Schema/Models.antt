-- ===== src/Schema/Models.antt =====
-- The tables that app/infrastructure/database/models.py declares. A default that SQLAlchemy itself
-- fills in is no part of the schema.
use file_extractor.Base.{true, false, some, [], ◌∷◌}
use file_extractor.Schema.{
  uuid, text, integer, big_integer, date_time, string, Table, key_column, column, default_column,
}

-- `class FileModel`
abbrev pub files : Table
files = record {
  columns =
      key_column "id" uuid
      ∷ column "filename" (string 255) false
      ∷ column "size" big_integer false
      ∷ column "hash" (string 64) true
      ∷ column "storage_key" (string 512) true
      ∷ column "status" (string 20) false
      ∷ default_column "created_at" date_time "now()"
      ∷ column "uploaded_at" date_time true
      ∷ [];
  unique = [];
}

-- `class DownloadTaskModel`
abbrev pub download_tasks : Table
download_tasks = record {
  columns =
      key_column "id" (string 36)
      ∷ column "candidate_id" (string 255) false
      ∷ column "status" (string 20) false
      ∷ column "received_files" integer false
      ∷ column "processed_files" integer false
      ∷ column "error" text true
      ∷ column "started_at" date_time true
      ∷ column "finished_at" date_time true
      ∷ column "worker_id" (string 100) true
      ∷ column "last_heartbeat" date_time true
      ∷ column "attempts" integer false
      ∷ column "blocked_until" date_time true
      ∷ column "block_reason" (string 255) true
      ∷ [];
  unique = [];
}

-- `class DownloadedFileModel`
abbrev pub downloaded_files : Table
downloaded_files = record {
  columns =
      key_column "id" uuid
      ∷ record (column "task_id" (string 36) false) { references = some ("download_tasks", "id") }
      ∷ column "file_name" (string 255) false
      ∷ column "hash" (string 64) true
      ∷ [];
  unique = ("uq_task_file", "task_id" ∷ "file_name" ∷ []) ∷ [];
}
