-- ===== src/Archive/Examples.antt =====
-- The theorem about archives at one with a directory and an entry that cannot be read.
use file_extractor.Base.{
  ℕ, String, Bool, true, false, some, List, [], ◌∷◌, map, ◌≡◌, refl, arith, if◌then◌else◌,
}
use text.Mathlib.Text.{◌==◌ as str_eq}
use file_extractor.Base.Errors.{other}
use file_extractor.Base.Exec.{Result, ok, raised}
use file_extractor.Client.Stream.{read_chunks}
use file_extractor.Archive.{
  Zip, ZipInfo, extract_stream, extract_archive, extract_entries, yield_entry,
}
use file_extractor.Archive.Entries.{IsExtracted, extract_stream-IsExtracted}

abbrev pub entry : String → Bool → ZipInfo
entry name dir = record { filename = name; file_size = 2; is_dir = dir }

abbrev pub entries : List ZipInfo
entries = entry "d/" true ∷ entry "d/a" false ∷ entry "d/b" false ∷ entry "d/c" false ∷ []

abbrev pub two_good : String → Result (List ℕ)
two_good name = if str_eq name "d/c" then raised (other "Bad CRC-32") else ok (1 ∷ 2 ∷ [])

abbrev pub zip : Zip
zip = record {
  Archive = List ℕ;
  open_zip = λ bytes. ok bytes;
  infolist = λ a. entries;
  read = λ a. two_good;
}

extracted :
    let x = extract_stream zip (ok ((1 ∷ 2 ∷ []) ∷ (3 ∷ []) ∷ [])) in
    (map (λ f. f.filename) x.files ≡ "d/a" ∷ "d/b" ∷ []) × (x.failure ≡ some (other "Bad CRC-32"))
unfolding extract_stream extract_archive extract_entries yield_entry
extracted = (refl, refl)

extract_stream-IsExtracted_example :
    IsExtracted zip
      (1 ∷ 2 ∷ 3 ∷ [])
      entries
      (extract_stream zip (ok (read_chunks 4 2 (1 ∷ 2 ∷ 3 ∷ []))))
extract_stream-IsExtracted_example =
    extract_stream-IsExtracted zip (1 ∷ 2 ∷ 3 ∷ []) (1 ∷ 2 ∷ 3 ∷ []) 2 4 refl (omega arith)
      (omega arith)
