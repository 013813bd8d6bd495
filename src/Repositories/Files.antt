-- ===== src/Repositories/Files.antt =====
-- `SQLAlchemyFileRepository` of app/infrastructure/database/repositories.py, with the `FileFilters`
-- and `PaginatedFiles` of app/domain/repositories/file_repository.py. A query is its condition, a
-- function of a row; the session runs it.
use text.Mathlib.Text.{◌==◌ as str_eq}
use file_extractor.Base.{
  ℕ, String, Bool, true, false, ◌&&◌, Option, none, some, List, [], ◌∷◌, if◌then◌else◌,
}
use file_extractor.Base.Int.{ℤ, negsuc, ◌+ℤ◌, ◌*ℤ◌}
use file_extractor.Base.Exec.{Exec, Result, ok, pure, lift, ◌>>=◌}
use file_extractor.Domain.File.{File, FileId}
use file_extractor.Repositories.Rows.{FileModel, file_to_model, file_to_domain, and_then}

pub record FileFilters : Type 0 where
  pub status : Option String
  pub filename_contains : Option String

pub record PaginatedFiles : Type 0 where
  pub items : List File
  pub total : ℕ
  pub page : ℤ
  pub per_page : ℤ

-- What the repository asks of the session and the database.
pub record FileSession : Type 1 where
  pub State : Type 0
  -- str and UUID on a UUID and a text, and `column.contains(text)`
  pub str_id : ℕ → String
  pub uuid_of : String → Result ℕ
  pub contains : String → String → Bool
  -- get by the primary key, add and delete
  pub get : ℕ → Exec State (Option FileModel)
  pub add : FileModel → Exec State (Unit {0})
  pub delete : FileModel → Exec State (Unit {0})
  -- select with `scalar_one_or_none`, select of a count, and select by `created_at` from the last
  -- with an offset and a limit
  pub select_one : (FileModel → Bool) → Exec State (Option FileModel)
  pub select_count : (FileModel → Bool) → Exec State ℕ
  pub select_page : (FileModel → Bool) → ℤ → ℤ → Exec State (List FileModel)

-- `column == value`, where the column may be NULL.
abbrev pub is_value : String → Option String → Bool
is_value v none = false
is_value v (some s) = str_eq s v

-- `if status: query.where(FileModel.status == status)`
abbrev pub with_status : String → FileModel → Bool
with_status status m = if str_eq status "" then true else str_eq m.status status

-- The same for the fields of the filters, of which each may be None.
abbrev pub if_status : Option String → FileModel → Bool
if_status none m = true
if_status (some s) m = with_status s m

abbrev pub if_contains : (String → String → Bool) → Option String → FileModel → Bool
if_contains contains none m = true
if_contains contains (some s) m = if str_eq s "" then true else contains m.filename s

-- The condition that `list` gives both of its queries.
abbrev pub condition : (String → String → Bool) → Option FileFilters → FileModel → Bool
condition contains none m = true
condition contains (some f) m = if_status f.status m && if_contains contains f.filename_contains m

module _ (d : FileSession) where
  -- `[self._to_domain(m) for m in models]`
  unfoldable pub files_of : List FileModel → Result (List File)
  files_of [] = ok []
  files_of (m ∷ ms) =
      and_then (file_to_domain d.str_id d.uuid_of m) λ f. and_then (files_of ms) λ fs. ok (f ∷ fs)

  -- `self._to_domain(model) if model else None`
  unfoldable pub maybe_file : Option FileModel → Result (Option File)
  maybe_file none = ok none
  maybe_file (some m) = and_then (file_to_domain d.str_id d.uuid_of m) λ f. ok (some f)

  unfoldable pub add : File → Exec d.State (Unit {0})
  add f = d.add (file_to_model f)

  unfoldable pub get_by_id : FileId → Exec d.State (Option File)
  get_by_id file_id = do found ← d.get file_id.value; lift (maybe_file found)

  unfoldable pub get_by_storage_key : String → Exec d.State (Option File)
  get_by_storage_key key = do
    found ← d.select_one (λ m. is_value key m.storage_key)
    lift (maybe_file found)

  -- `list`
  unfoldable pub list_files : Option FileFilters → ℤ → ℤ → Exec d.State PaginatedFiles
  list_files filters page per_page = do
    total ← d.select_count (condition d.contains filters)
    let offset = (page +ℤ negsuc 0) *ℤ per_page
    models ← d.select_page (condition d.contains filters) offset per_page
    items ← lift (files_of models)
    pure (record { items = items; total = total; page = page; per_page = per_page })

  unfoldable pub delete : FileId → Exec d.State (Unit {0})
  delete file_id = do
    found ← d.get file_id.value
    elim found [ none ↦ pure tt | some m ↦ d.delete m ]

  unfoldable pub count_by_status : String → Exec d.State ℕ
  count_by_status status = d.select_count (with_status status)
