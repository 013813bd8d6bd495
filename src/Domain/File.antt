-- ===== src/Domain/File.antt =====
-- app/domain/entities/file.py: `class File`, and the value objects of file_id.py and
-- storage_key.py that it holds. A UUID is kept as the integer of its 128 bits.
pub mod Upload
use file_extractor.Base.{ℕ, String, Bool, true, false, Option, none, some, if◌then◌else◌, ◌||◌}
use file_extractor.Base.Errors.{Error, domain, invalid_status_transition, file_already_uploaded}
use file_extractor.Base.Exec.{Exec, ok, raised}
use file_extractor.Domain.Status.{
  FileStatus, file_status_name, is_created, is_uploading, is_uploaded,
}
use file_extractor.Domain.Hash.{FileHash}
use file_extractor.Domain.Size.{FileSize}
use file_extractor.Domain.Time.{DateTime}

pub record FileId : Type 0 where
  pub value : ℕ

pub record StorageKey : Type 0 where
  pub value : String

pub record File : Type 0 where
  pub id : FileId
  pub filename : String
  pub size : FileSize
  pub hash : Option FileHash
  pub storage_key : Option StorageKey
  pub status : FileStatus
  pub created_at : DateTime
  pub uploaded_at : Option DateTime

-- `File(file_id=..., filename=..., size=..., hash=...)` at the time `now`, the other arguments at
-- their defaults.
abbrev pub new_file : FileId → String → FileSize → FileHash → DateTime → File
new_file file_id filename size hash now = record {
  id = file_id;
  filename = filename;
  size = size;
  hash = some hash;
  storage_key = none;
  status = FileStatus.created;
  created_at = now;
  uploaded_at = none;
}

abbrev pub bad_transition : File → FileStatus → Error
bad_transition f target =
    domain (invalid_status_transition "File" (file_status_name f.status) (file_status_name target))

-- `str_id` is `str` on a UUID.
unfoldable pub start_upload : (ℕ → String) → Exec File (Unit {0})
start_upload str_id f =
    if is_uploaded f.status
    then (raised (domain (file_already_uploaded (str_id f.id.value))), f)
    else if is_created f.status
    then (ok tt, record f { status = FileStatus.uploading })
    else (raised (bad_transition f FileStatus.uploading), f)

unfoldable pub complete_upload : StorageKey → FileHash → DateTime → Exec File (Unit {0})
complete_upload storage_key file_hash now f =
    if is_uploading f.status
    then (
      ok tt,
      record f {
        storage_key = some storage_key;
        hash = some file_hash;
        status = FileStatus.uploaded;
        uploaded_at = some now;
      },
    )
    else (raised (bad_transition f FileStatus.uploaded), f)

unfoldable pub fail_upload : Exec File (Unit {0})
fail_upload f =
    if is_created f.status || is_uploading f.status
    then (ok tt, record f { status = FileStatus.failed })
    else (raised (bad_transition f FileStatus.failed), f)

-- The setter of `hash`.
unfoldable pub set_hash : FileHash → Exec File (Unit {0})
set_hash value f = (ok tt, record f { hash = some value })
