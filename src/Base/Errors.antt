-- ===== src/Base/Errors.antt =====
-- The exceptions of app/domain/exceptions.py and app/application/exceptions.py, those of the
-- interpreter and of third parties that the code tells apart, and `str` on them.
use Prim.Native.String.{String, ◌++◌ as ◌<>◌}
use file_extractor.Base.Int.{ℤ}
use file_extractor.Base.Text.{decimal_ℤ}

-- app/domain/exceptions.py
pub data DomainError : Type 0 where
  invalid_status_transition : (entity from_status to_status : String) → DomainError
  file_already_uploaded : (file_id : String) → DomainError
  invalid_file_hash : (value : String) → DomainError
  negative_file_size : (value : ℤ) → DomainError
  invalid_file_id : (value : String) → DomainError
  task_already_completed : (task_id : String) → DomainError
  task_not_running : (task_id status : String) → DomainError

-- What a method may raise. The last six carry the message that the library gave them.
pub data Error : Type 0 where
  domain : DomainError → Error
  rate_limited : (retry_after : ℤ) → Error
  blocked : (retry_after : ℤ) → Error
  forbidden : Error
  not_found : String → Error
  server_error : String → Error
  parse_error : String → Error
  timeout : String → Error
  http_error : String → Error
  value_error : String → Error
  overflow_error : String → Error
  key_error : String → Error
  other : String → Error

-- The `f"..."` messages; `repr` is Python's, for `{value!r}`.
unfoldable pub domain_message : (String → String) → DomainError → String
unfolding decimal_ℤ
domain_message repr (invalid_status_transition entity from_status to_status) =
    "Cannot transition " <> entity <> " from " <> from_status <> " to " <> to_status
domain_message repr (file_already_uploaded file_id) = "File " <> file_id <> " is already uploaded"
domain_message repr (invalid_file_hash value) =
    "Invalid file hash: " <> repr value <> ". Must be a 64-character SHA256 hex string"
domain_message repr (negative_file_size value) = "File size cannot be negative: " <> decimal_ℤ value
domain_message repr (invalid_file_id value) =
    "Invalid file ID: " <> repr value <> ". Must be a valid UUID"
domain_message repr (task_already_completed task_id) =
    "Download task " <> task_id <> " is already completed"
domain_message repr (task_not_running task_id status) =
    "Download task " <> task_id <> " is in status " <> status <> ", expected RUNNING"

-- `str(e)`
unfoldable pub message : (String → String) → Error → String
unfolding domain_message
message repr (domain d) = domain_message repr d
message repr (rate_limited n) = "Rate limited. Retry after " <> decimal_ℤ n <> "s"
message repr (blocked n) = "Blocked. Retry after " <> decimal_ℤ n <> "s"
message repr forbidden = ""
message repr (not_found m) = m
message repr (server_error m) = m
message repr (parse_error m) = m
message repr (timeout m) = m
message repr (http_error m) = m
message repr (value_error m) = m
message repr (overflow_error m) = m
message repr (key_error m) = m
message repr (other m) = m
