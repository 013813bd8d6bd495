-- ===== src/Archive/Entries.antt =====
-- Which files of an archive are yielded, and why an extraction ends.
use file_extractor.Base.{
  All, ℕ, ◌<◌, String, ◌≡◌, refl, ap, not, Bool-cases, inl, inr, Option, none, some, List, [], ◌∷◌,
  map, length, take, drop, filter,
}
use file_extractor.Base.Errors.{Error}
use file_extractor.Base.Exec.{Result, ok, raised}
use file_extractor.Download.Ports.{ExtractedFile, Extraction}
use file_extractor.Client.Stream.{read_chunks}
use file_extractor.Client.Temporary.{concat-read_chunks}
use file_extractor.Archive.{
  Zip, ZipInfo, yield_entry, extract_entries, extract_archive, extract_stream,
}

-- What an entry and a file have in common: the name and the size.
abbrev pub entry_label : ZipInfo → String × ℕ
entry_label i = (i.filename, i.file_size)

abbrev pub file_label : ExtractedFile → String × ℕ
file_label f = (f.filename, f.size)

-- The entries that are no directories, in order.
abbrev pub file_entries : List ZipInfo → List ZipInfo
file_entries = filter (λ i. not i.is_dir)

module _ (z : Zip) (archive : z.Archive) where
  -- Why the iteration ended, with the entries that are left: there are none, or the first of them
  -- cannot be read.
  abbrev pub EndsAt : Option Error → List ZipInfo → Type 0
  EndsAt none left = left ≡ []
  EndsAt (some e) left =
      (i : ZipInfo) × (rest : List ZipInfo) × (left ≡ i ∷ rest)
      × (z.read archive i.filename ≡ raised e)

  -- The files are the first of the entries that are no directories, each with what its name reads
  -- as, and the extraction ends where it must.
  pub record IsExtracted (infos : List ZipInfo) (x : Extraction) : Type 0 where
    pub labels :
        map file_label x.files ≡ map entry_label (take (length x.files) (file_entries infos))
    pub contents : All (λ f. z.read archive f.filename ≡ ok f.content) x.files
    pub ends : EndsAt x.failure (drop (length x.files) (file_entries infos))

  yielded-IsExtracted :
      (info : ZipInfo) (infos : List ZipInfo) (r : Result (List ℕ)) (x : Extraction)
      → file_entries (info ∷ infos) ≡ info ∷ file_entries infos
      → z.read archive info.filename ≡ r
      → IsExtracted infos x
      → IsExtracted (info ∷ infos) (yield_entry z info r x)
  unfolding yield_entry
  yielded-IsExtracted info infos (raised e) x kept read h = record {
    labels = refl;
    contents = tt;
    ends = (info, file_entries infos, kept, read);
  }
  yielded-IsExtracted info infos (ok content) x kept read h = record {
    labels = rw kept (ap (λ l. (info.filename, info.file_size) ∷ l) h.labels);
    contents = (read, h.contents);
    ends = rw kept h.ends;
  }

  skipped-IsExtracted :
      (info : ZipInfo) (infos : List ZipInfo) (x : Extraction)
      → file_entries (info ∷ infos) ≡ file_entries infos
      → IsExtracted infos x
      → IsExtracted (info ∷ infos) x
  skipped-IsExtracted info infos x skipped h = record {
    labels = rw skipped h.labels;
    contents = h.contents;
    ends = rw skipped h.ends;
  }

  entries-IsExtracted : (infos : List ZipInfo) → IsExtracted infos (extract_entries z archive infos)
  unfolding extract_entries
  entries-IsExtracted [] = record { labels = refl; contents = tt; ends = refl }
  entries-IsExtracted (info ∷ infos) = elim (Bool-cases info.is_dir) [
    | inl dir ↦ simp dir (
        skipped-IsExtracted info infos (extract_entries z archive infos) (simp dir refl)
          (entries-IsExtracted infos))
    | inr file ↦ simp file (
        yielded-IsExtracted info infos (z.read archive info.filename)
          (extract_entries z archive infos) (simp file refl) refl (entries-IsExtracted infos))
  ]

-- If the bytes of a stream are an archive, then, however they are cut into chunks by reads of one
-- size, the files that `extract_stream` yields are the first of the archive's entries that are no
-- directories, in order, with their names and sizes, each with the content that its name reads as;
-- and it ends without an exception only when there are no more of them, and else with the exception
-- of the next one.
pub extract_stream-IsExtracted :
    (z : Zip) (archive : z.Archive) (bytes : List ℕ) (size fuel : ℕ)
    → z.open_zip bytes ≡ ok archive
    → 0 < size
    → length bytes < fuel
    → IsExtracted z archive
        (z.infolist archive)
        (extract_stream z (ok (read_chunks fuel size bytes)))
unfolding extract_stream extract_archive
extract_stream-IsExtracted z archive bytes size fuel opened cut enough =
    rw (concat-read_chunks fuel size bytes cut enough, opened)
      (entries-IsExtracted z archive (z.infolist archive))
