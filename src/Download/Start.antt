-- ===== src/Download/Start.antt =====
-- app/application/handlers/download_handler.py: `StartDownloadHandler`, which files a PENDING task
-- and then sends the message that makes a worker claim it.
use file_extractor.Uow.{with_uow}
use file_extractor.Base.{String, Option, none, some}
use file_extractor.Base.Exec.{Exec, ok, pure, ◌>>=◌, ◌>>◌}
use file_extractor.Domain.Task.{new_task}
use file_extractor.Download.Ports.{World}

-- `command.candidate_id or ""`
abbrev pub or_empty : Option String → String
or_empty none = ""
or_empty (some c) = c

module _ (w : World) where
  -- `str(uuid4())`
  abbrev pub new_task_id : Exec w.State String
  new_task_id s = let (n, t) = w.uuid4 s in (ok (w.str_id n), t)

  -- `StartDownloadHandler.execute`
  unfoldable pub start_download : Option String → Exec w.State String
  start_download candidate_id = do
    task_id ← new_task_id
    with_uow w.rollback (w.add_task (new_task task_id (or_empty candidate_id)) >> w.commit)
    w.send_task task_id candidate_id
    pure task_id
