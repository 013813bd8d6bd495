-- ===== src/Schema/Revisions.antt =====
-- The three files of app/migrations/versions: `upgrade` and `downgrade` of each, and the revision
-- that each comes after.
use file_extractor.Base.{String, true, false, Option, none, some, List, [], ◌∷◌}
use file_extractor.Base.Exec.{Exec, ◌>>◌}
use file_extractor.Schema.{
  uuid, text, integer, big_integer, date_time, string, Table, key_column, column, default_column,
  Op,
}

abbrev pub files_created : Table
files_created = record {
  columns =
      key_column "id" uuid
      ∷ column "filename" (string 255) false
      ∷ column "size" big_integer false
      ∷ column "hash" (string 64) true
      ∷ column "storage_key" (string 512) true
      ∷ default_column "status" (string 20) "CREATED"
      ∷ default_column "created_at" date_time "now()"
      ∷ column "uploaded_at" date_time true
      ∷ [];
  unique = [];
}

abbrev pub download_tasks_created : Table
download_tasks_created = record {
  columns =
      key_column "id" (string 36)
      ∷ column "candidate_id" (string 255) false
      ∷ default_column "status" (string 20) "CREATED"
      ∷ default_column "received_files" integer "0"
      ∷ default_column "processed_files" integer "0"
      ∷ column "error" text true
      ∷ column "started_at" date_time true
      ∷ column "finished_at" date_time true
      ∷ [];
  unique = [];
}

abbrev pub outbox_events_created : Table
outbox_events_created = record {
  columns =
      key_column "id" integer
      ∷ column "event_type" (string 255) false
      ∷ column "payload" text false
      ∷ default_column "created_at" date_time "now()"
      ∷ column "processed_at" date_time true
      ∷ [];
  unique = [];
}

abbrev pub downloaded_files_created : Table
downloaded_files_created = record {
  columns =
      key_column "id" uuid
      ∷ record (column "task_id" (string 36) false) { references = some ("download_tasks", "id") }
      ∷ column "file_name" (string 255) false
      ∷ column "hash" (string 64) true
      ∷ [];
  unique = ("uq_task_file", "task_id" ∷ "file_name" ∷ []) ∷ [];
}

-- A file of the directory: its `revision` and `down_revision`, and its two functions.
pub record Revision (op : Op) : Type 0 where
  pub revision : String
  pub down_revision : Option String
  pub upgrade : Exec op.State (Unit {0})
  pub downgrade : Exec op.State (Unit {0})

module _ (op : Op) where
  unfoldable pub upgrade_initial : Exec op.State (Unit {0})
  upgrade_initial = do
    op.create_table "files" files_created
    op.create_table "download_tasks" download_tasks_created
    op.create_table "outbox_events" outbox_events_created

  unfoldable pub downgrade_initial : Exec op.State (Unit {0})
  downgrade_initial = do
    op.drop_table "outbox_events"
    op.drop_table "download_tasks"
    op.drop_table "files"

  unfoldable pub upgrade_outbox : Exec op.State (Unit {0})
  upgrade_outbox = op.drop_table "outbox_events"

  unfoldable pub downgrade_outbox : Exec op.State (Unit {0})
  downgrade_outbox = op.create_table "outbox_events" outbox_events_created

  unfoldable pub upgrade_worker : Exec op.State (Unit {0})
  upgrade_worker = do
    op.add_column "download_tasks" (column "worker_id" (string 100) true)
    op.add_column "download_tasks" (column "last_heartbeat" date_time true)
    op.add_column "download_tasks" (default_column "attempts" integer "0")
    op.add_column "download_tasks" (column "blocked_until" date_time true)
    op.add_column "download_tasks" (column "block_reason" (string 255) true)
    op.create_table "downloaded_files" downloaded_files_created

  unfoldable pub downgrade_worker : Exec op.State (Unit {0})
  downgrade_worker = do
    op.drop_table "downloaded_files"
    op.drop_column "download_tasks" "block_reason"
    op.drop_column "download_tasks" "blocked_until"
    op.drop_column "download_tasks" "attempts"
    op.drop_column "download_tasks" "last_heartbeat"
    op.drop_column "download_tasks" "worker_id"

  abbrev pub initial : Revision op
  initial = record {
    revision = "4a6d5897183b";
    down_revision = none;
    upgrade = upgrade_initial;
    downgrade = downgrade_initial;
  }

  abbrev pub drop_outbox_events : Revision op
  drop_outbox_events = record {
    revision = "0896cce46c31";
    down_revision = some "4a6d5897183b";
    upgrade = upgrade_outbox;
    downgrade = downgrade_outbox;
  }

  abbrev pub add_worker_fields : Revision op
  add_worker_fields = record {
    revision = "9d7c4a3b1e2f";
    down_revision = some "0896cce46c31";
    upgrade = upgrade_worker;
    downgrade = downgrade_worker;
  }

  -- All of them, the first at the head.
  abbrev pub history : List (Revision op)
  history = initial ∷ drop_outbox_events ∷ add_worker_fields ∷ []
