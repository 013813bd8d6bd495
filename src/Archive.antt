-- ===== src/Archive.antt =====
-- app/infrastructure/processors/zip_processor.py: the files of an archive that comes in chunks. The
-- library `zipfile` is a parameter.
pub mod Entries
pub mod Examples
use file_extractor.Base.{ℕ, String, Bool, none, some, List, [], ◌∷◌, concat, if◌then◌else◌}
use file_extractor.Base.Errors.{Error}
use file_extractor.Base.Exec.{Result, ok, raised}
use file_extractor.Download.Ports.{ExtractedFile, Extraction}

-- `zipfile.ZipInfo`, as far as it is read; `is_dir` is what its method returns.
pub record ZipInfo : Type 0 where
  pub filename : String
  pub file_size : ℕ
  pub is_dir : Bool

-- `zipfile.ZipFile(buffer, mode="r")`, `infolist` and `read`, which takes the name of an entry.
pub record Zip : Type 1 where
  pub Archive : Type 0
  pub open_zip : List ℕ → Result Archive
  pub infolist : Archive → List ZipInfo
  pub read : Archive → String → Result (List ℕ)

abbrev pub ended : Error → Extraction
ended e = record { files = []; failure = some e }

-- A file is yielded before what follows.
abbrev pub yielded : ExtractedFile → Extraction → Extraction
yielded f rest = record rest { files = f ∷ rest.files }

module _ (z : Zip) where
  -- The content of an entry is read, or the iteration ends by an exception.
  unfoldable pub yield_entry : ZipInfo → Result (List ℕ) → Extraction → Extraction
  yield_entry info (raised e) rest = ended e
  yield_entry info (ok content) rest =
      yielded (record { filename = info.filename; content = content; size = info.file_size }) rest

  -- `for info in archive.infolist():`
  unfoldable pub extract_entries : z.Archive → List ZipInfo → Extraction
  extract_entries archive [] = record { files = []; failure = none }
  extract_entries archive (info ∷ infos) =
      let rest = extract_entries archive infos in
      if info.is_dir then rest else yield_entry info (z.read archive info.filename) rest

  unfoldable pub extract_archive : Result z.Archive → Extraction
  extract_archive (raised e) = ended e
  extract_archive (ok archive) = extract_entries archive (z.infolist archive)

  -- `ZipProcessor.extract_stream`, on the chunks of the stream or the exception that ends it.
  unfoldable pub extract_stream : Result (List (List ℕ)) → Extraction
  extract_stream (raised e) = ended e
  extract_stream (ok chunks) = extract_archive (z.open_zip (concat chunks))
