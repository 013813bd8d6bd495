-- ===== src/Domain/Status.antt =====
-- app/domain/value_objects/statuses.py, and the look-ups `TaskStatus[name]` and
-- `FileStatus[name]` by which the repositories read a status back from its column.
use text.Mathlib.Text.{◌==◌}
use text.Mathlib.TextEquality.{eq_iff}
use file_extractor.Base.{String, ◌≡◌, refl, Bool, true, false, arith, if◌then◌else◌}
use file_extractor.Base.Errors.{key_error}
use file_extractor.Base.Exec.{Result, ok, raised}

pub data TaskStatus : Type 0 where
  pending running success failed blocked : TaskStatus

pub data FileStatus : Type 0 where
  created uploading uploaded failed : FileStatus

-- `status.name`
abbrev pub task_status_name : TaskStatus → String
task_status_name TaskStatus.pending = "PENDING"
task_status_name TaskStatus.running = "RUNNING"
task_status_name TaskStatus.success = "SUCCESS"
task_status_name TaskStatus.failed = "FAILED"
task_status_name TaskStatus.blocked = "BLOCKED"

abbrev pub file_status_name : FileStatus → String
file_status_name FileStatus.created = "CREATED"
file_status_name FileStatus.uploading = "UPLOADING"
file_status_name FileStatus.uploaded = "UPLOADED"
file_status_name FileStatus.failed = "FAILED"

-- `TaskStatus[name]`, which raises a `KeyError` on any other name.
unfoldable pub task_status_of_name : String → Result TaskStatus
task_status_of_name name =
    if name == "PENDING"
    then ok TaskStatus.pending
    else if name == "RUNNING"
    then ok TaskStatus.running
    else if name == "SUCCESS"
    then ok TaskStatus.success
    else if name == "FAILED"
    then ok TaskStatus.failed
    else if name == "BLOCKED"
    then ok TaskStatus.blocked
    else raised (key_error name)

unfoldable pub file_status_of_name : String → Result FileStatus
file_status_of_name name =
    if name == "CREATED"
    then ok FileStatus.created
    else if name == "UPLOADING"
    then ok FileStatus.uploading
    else if name == "UPLOADED"
    then ok FileStatus.uploaded
    else if name == "FAILED"
    then ok FileStatus.failed
    else raised (key_error name)

-- `status == TaskStatus.RUNNING` and the like.
abbrev pub is_pending : TaskStatus → Bool
is_pending TaskStatus.pending = true
is_pending _ = false

abbrev pub is_running : TaskStatus → Bool
is_running TaskStatus.running = true
is_running _ = false

abbrev pub is_blocked_status : TaskStatus → Bool
is_blocked_status TaskStatus.blocked = true
is_blocked_status _ = false

abbrev pub is_created : FileStatus → Bool
is_created FileStatus.created = true
is_created _ = false

abbrev pub is_uploading : FileStatus → Bool
is_uploading FileStatus.uploading = true
is_uploading _ = false

abbrev pub is_uploaded : FileStatus → Bool
is_uploaded FileStatus.uploaded = true
is_uploaded _ = false

-- Each task status is read back from its name.
pub task_status_of_name-task_status_name :
    (s : TaskStatus) → task_status_of_name (task_status_name s) ≡ ok s
unfolding task_status_of_name
task_status_of_name-task_status_name TaskStatus.pending = refl
task_status_of_name-task_status_name _ = refl

-- No other text is read as a task status: what is read came from the name of the result.
pub task_status_of_name_sound :
    (name : String) (s : TaskStatus) → task_status_of_name name ≡ ok s → name ≡ task_status_name s
unfolding task_status_of_name
task_status_of_name_sound name s h = ground (
  arith,
  eq_iff name "PENDING",
  eq_iff name "RUNNING",
  eq_iff name "SUCCESS",
  eq_iff name "FAILED",
  eq_iff name "BLOCKED",
)

pub file_status_of_name-file_status_name :
    (s : FileStatus) → file_status_of_name (file_status_name s) ≡ ok s
unfolding file_status_of_name
file_status_of_name-file_status_name FileStatus.created = refl
file_status_of_name-file_status_name _ = refl

pub file_status_of_name_sound :
    (name : String) (s : FileStatus) → file_status_of_name name ≡ ok s → name ≡ file_status_name s
unfolding file_status_of_name
file_status_of_name_sound name s h = ground (
  arith,
  eq_iff name "CREATED",
  eq_iff name "UPLOADING",
  eq_iff name "UPLOADED",
  eq_iff name "FAILED",
)
