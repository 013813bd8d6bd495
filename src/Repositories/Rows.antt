-- ===== src/Repositories/Rows.antt =====
-- app/infrastructure/database/models.py, and the static methods `_to_model` and `_to_domain` of
-- both repositories of app/infrastructure/database/repositories.py.
use text.Mathlib.Text.{◌==◌ as str_eq}
use text.Mathlib.TextEquality.{eq_iff}
use file_extractor.Base.{
  ℕ, String, ◌≡◌, ◌≢◌, sym, ap, ◌∙◌, inl, inr, Bool-cases, refl, Option, none, some, if◌then◌else◌,
}
use file_extractor.Base.Int.{ℤ}
use file_extractor.Base.Exec.{Result, ok, raised}
use file_extractor.Domain.Status.{
  TaskStatus, task_status_name, file_status_name, task_status_of_name, file_status_of_name,
  task_status_of_name-task_status_name, file_status_of_name-file_status_name,
}
use file_extractor.Domain.Hash.{FileHash, file_hash, matches_hex}
use file_extractor.Domain.Size.{file_size}
use file_extractor.Domain.File.{File, StorageKey}
use file_extractor.Domain.Task.{DownloadTask}
use file_extractor.Domain.Time.{DateTime}

pub record FileModel : Type 0 where
  pub id : ℕ
  pub filename : String
  pub size : ℤ
  pub hash : Option String
  pub storage_key : Option String
  pub status : String
  pub created_at : DateTime
  pub uploaded_at : Option DateTime

pub record DownloadTaskModel : Type 0 where
  pub id : String
  pub candidate_id : String
  pub status : String
  pub received_files : ℕ
  pub processed_files : ℕ
  pub error : Option String
  pub started_at : Option DateTime
  pub finished_at : Option DateTime
  pub worker_id : Option String
  pub last_heartbeat : Option DateTime
  pub attempts : ℕ
  pub blocked_until : Option DateTime
  pub block_reason : Option String

-- `SQLAlchemyTaskRepository._to_model`
unfoldable pub task_to_model : DownloadTask → DownloadTaskModel
task_to_model t = record {
  id = t.id;
  candidate_id = t.candidate_id;
  status = task_status_name t.status;
  received_files = t.received_files;
  processed_files = t.processed_files;
  error = t.error;
  started_at = t.started_at;
  finished_at = t.finished_at;
  worker_id = t.worker_id;
  last_heartbeat = t.last_heartbeat;
  attempts = t.attempts;
  blocked_until = t.blocked_until;
  block_reason = t.block_reason;
}

-- The call of `DownloadTask` in `_to_domain`, once the status is read.
abbrev pub task_with : DownloadTaskModel → Result TaskStatus → Result DownloadTask
task_with m (raised e) = raised e
task_with m (ok status) = ok (record {
  id = m.id;
  candidate_id = m.candidate_id;
  status = status;
  received_files = m.received_files;
  processed_files = m.processed_files;
  error = m.error;
  started_at = m.started_at;
  finished_at = m.finished_at;
  worker_id = m.worker_id;
  last_heartbeat = m.last_heartbeat;
  attempts = m.attempts;
  blocked_until = m.blocked_until;
  block_reason = m.block_reason;
})

-- `SQLAlchemyTaskRepository._to_domain`
unfoldable pub task_to_domain : DownloadTaskModel → Result DownloadTask
task_to_domain m = task_with m (task_status_of_name m.status)

-- A task is read back from its row as it was.
pub task_to_domain-task_to_model : (t : DownloadTask) → task_to_domain (task_to_model t) ≡ ok t
unfolding task_to_domain task_to_model
task_to_domain-task_to_model t = rw (task_status_of_name-task_status_name t.status) refl

-- `x if model.column else None` on a text: an empty one is dropped too.
abbrev pub unless_empty : {A : Type 0} → (String → Result A) → Option String → Result (Option A)
unless_empty make none = ok none
unless_empty make (some s) =
    if str_eq s "" then ok none else elim (make s) [ ok a ↦ ok (some a) | raised e ↦ raised e ]

-- `SQLAlchemyFileRepository._to_model`
unfoldable pub file_to_model : File → FileModel
file_to_model f = record {
  id = f.id.value;
  filename = f.filename;
  size = f.size.value;
  hash = elim f.hash [ none ↦ none | some h ↦ some h.value ];
  storage_key = elim f.storage_key [ none ↦ none | some k ↦ some k.value ];
  status = file_status_name f.status;
  created_at = f.created_at;
  uploaded_at = f.uploaded_at;
}

abbrev pub and_then : {A B : Type 0} → Result A → (A → Result B) → Result B
and_then (ok a) f = f a
and_then (raised e) f = raised e

-- `SQLAlchemyFileRepository._to_domain`; `str_id` is `str` on a UUID, and `uuid_of` is `UUID` on a
-- text.
unfoldable pub file_to_domain : (ℕ → String) → (String → Result ℕ) → FileModel → Result File
file_to_domain str_id uuid_of m = and_then (uuid_of (str_id m.id)) λ id.
    and_then (file_size m.size) λ size. and_then (unless_empty file_hash m.hash) λ hash.
      and_then (unless_empty (λ s. ok (record { value = s })) m.storage_key) λ key.
        and_then (file_status_of_name m.status) λ status. ok (record {
          id = record { value = id };
          filename = m.filename;
          size = size;
          hash = hash;
          storage_key = key;
          status = status;
          created_at = m.created_at;
          uploaded_at = m.uploaded_at;
        })

unless_empty_back :
    {A : Type 0} (make : String → Result A) (s : String) (a : A)
    → s ≢ ""
    → make s ≡ ok a
    → unless_empty make (some s) ≡ ok (some a)
unless_empty_back make s a set made = elim (Bool-cases (str_eq s "")) [
  | inl e ↦ absurd (set ((eq_iff s "").0 e))
  | inr e ↦ rw (e, made) refl
]

hash_set : (value : String) (h : FileHash) → file_hash value ≡ ok h → value ≢ ""
unfolding file_hash matches_hex
hash_set value h made e = let p : file_hash "" ≡ ok h = ap file_hash (sym e) ∙ made in cc

hash_back :
    (hash : Option FileHash)
    → ((h : FileHash) → hash ≡ some h → file_hash h.value ≡ ok h)
    → unless_empty file_hash (elim hash [ none ↦ none | some h ↦ some h.value ]) ≡ ok hash
hash_back none made = refl
hash_back (some h) made =
    unless_empty_back file_hash h.value h (hash_set h.value h (made h refl)) (made h refl)

key_back :
    (key : Option StorageKey)
    → ((k : StorageKey) → key ≡ some k → k.value ≢ "")
    → unless_empty {A = StorageKey}
        (λ s. ok (record { value = s }))
        (elim key [ none ↦ none | some k ↦ some k.value ])
      ≡ ok key
key_back none set = refl
key_back (some k) set =
    unless_empty_back (λ s. ok (record { value = s })) k.value k (set k refl) refl

-- A file is read back from its row as it was, if its UUID is read back from its text, its size and
-- its hash are values that their classes accept, and its storage key is not the empty text.
pub file_to_domain-file_to_model :
    (str_id : ℕ → String) (uuid_of : String → Result ℕ) (f : File)
    → uuid_of (str_id f.id.value) ≡ ok f.id.value
    → file_size f.size.value ≡ ok f.size
    → ((h : FileHash) → f.hash ≡ some h → file_hash h.value ≡ ok h)
    → ((k : StorageKey) → f.storage_key ≡ some k → k.value ≢ "")
    → file_to_domain str_id uuid_of (file_to_model f) ≡ ok f
unfolding file_to_domain file_to_model
file_to_domain-file_to_model str_id uuid_of f uuid size made set =
    rw
      (
        uuid,
        size,
        hash_back f.hash made,
        key_back f.storage_key set,
        file_status_of_name-file_status_name f.status,
      )
      refl
