-- ===== src/Repositories/Table.antt =====
-- What a table of tasks with the key `id` does for the session, by the row that it has for a key.
use text.Mathlib.Text.{◌==◌ as str_eq}
use file_extractor.Base.{String, ◌≡◌, Bool, true, Option, none, some, List, ◌∷◌, if◌then◌else◌}
use file_extractor.Base.Errors.{Error}
use file_extractor.Base.Exec.{ok, raised}
use file_extractor.Repositories.Rows.{DownloadTaskModel}
use file_extractor.Repositories.Tasks.{Session}

-- A row after an UPDATE.
abbrev pub changed :
    (DownloadTaskModel → Bool)
    → (DownloadTaskModel → DownloadTaskModel)
    → Option DownloadTaskModel
    → Option DownloadTaskModel
changed p f none = none
changed p f (some m) = some (if p m then f m else m)

abbrev pub assigned_to :
    (DownloadTaskModel → DownloadTaskModel) → Option DownloadTaskModel → Option DownloadTaskModel
assigned_to f none = none
assigned_to f (some m) = some (f m)

-- A statement that raises has changed no row. An UPDATE changes the rows with its condition, and
-- returns only such rows. A key is inserted only where there is no row with it.
pub record Table (d : Session) (row : d.State → String → Option DownloadTaskModel) : Type 0 where
  pub now_keeps : (s : d.State) (k : String) → row (d.now s).1 k ≡ row s k
  pub get_keeps : (id : String) (s : d.State) (k : String) → row (d.get id s).1 k ≡ row s k
  pub where_changes :
      (p : DownloadTaskModel → Bool) (f : DownloadTaskModel → DownloadTaskModel)
      (same : (m : DownloadTaskModel) → (f m).id ≡ m.id) (s t : d.State)
      (rows : List DownloadTaskModel)
      → d.update_where p f s ≡ (ok rows, t)
      → (k : String) → row t k ≡ changed p f (row s k)
  pub where_hits :
      (p : DownloadTaskModel → Bool) (f : DownloadTaskModel → DownloadTaskModel) (s : d.State)
      (m : DownloadTaskModel) (ms : List DownloadTaskModel)
      → (d.update_where p f s).0 ≡ ok (m ∷ ms)
      → (old : DownloadTaskModel) × (row s old.id ≡ some old) × (p old ≡ true)
  pub where_fails :
      (p : DownloadTaskModel → Bool) (f : DownloadTaskModel → DownloadTaskModel) (s t : d.State)
      (e : Error)
      → d.update_where p f s ≡ (raised e, t)
      → (k : String) → row t k ≡ row s k
  pub assigns :
      (id : String) (f : DownloadTaskModel → DownloadTaskModel)
      (same : (m : DownloadTaskModel) → (f m).id ≡ m.id) (s : d.State) (k : String)
      → row (d.assign id f s) k ≡ (if str_eq id k then assigned_to f (row s k) else row s k)
  pub adds :
      (m : DownloadTaskModel) (s : d.State) (k : String) (old : DownloadTaskModel)
      → row s k ≡ some old
      → row (d.add m s).1 k ≡ some old
