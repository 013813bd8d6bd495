-- ===== src/Statistics/Digits.antt =====
-- app/application/handlers/calculate_stats.py: `CalculateStatsHandler`. A character is kept as its
-- code point, so the key "0" of a dict is 48.
use file_extractor.Uow.{with_uow}
use file_extractor.Base.{
  ℕ, ◌+◌, String, Bool, ◌&&◌, Option, none, some, List, [], ◌∷◌, ◌++◌, map, leb, if◌then◌else◌,
}
use text.Mathlib.Text.{◌==◌ as str_eq}
use file_extractor.Base.Dict.{Dict, lookup, insert, get, nat_key, string_key}
use file_extractor.Base.Exec.{Exec, pure, lift, ◌>>=◌}
use file_extractor.Domain.Hash.{codes}
use file_extractor.Domain.File.{File}
use file_extractor.Download.Ports.{World}

-- The digits and how often each was met.
abbrev pub Counts : Type 0
Counts = Dict ℕ ℕ

-- `CalculateStatsResult`
pub record CalculateStatsResult : Type 0 where
  pub total : Counts
  pub by_file : Dict String Counts

-- `"0" <= char <= "9"`
abbrev pub is_digit : ℕ → Bool
is_digit c = leb 48 c && leb c 57

-- `counts[char] = counts.get(char, 0) + 1`
unfoldable pub bump : ℕ → Counts → Counts
bump c m = insert c (get c 0 m + 1) m

-- The body of `for char in content`.
unfoldable pub count_char : String → ℕ → CalculateStatsResult → CalculateStatsResult
count_char filename c r =
    if is_digit c
    then record {
      total = bump c r.total;
      by_file = insert filename (bump c (get filename [] r.by_file)) r.by_file;
    }
    else r

unfoldable pub count_chars : String → List ℕ → CalculateStatsResult → CalculateStatsResult
count_chars filename [] r = r
count_chars filename (c ∷ cs) r = count_chars filename cs (count_char filename c r)

-- What is done with the content of a file that is not empty.
unfoldable pub count_content : String → String → CalculateStatsResult → CalculateStatsResult
count_content filename content r =
    count_chars filename (codes content)
      (record { total = r.total; by_file = insert filename [] r.by_file })

-- `if d not in counts: counts[d] = 0`
unfoldable pub ensure : ℕ → Counts → Counts
ensure d m = elim (lookup d m) [ none ↦ insert d 0 m | some n ↦ m ]

abbrev pub ensure_in : ℕ → String × Counts → String × Counts
ensure_in d (name, m) = (name, ensure d m)

-- `for i in range(10):`, over the digits that are left.
unfoldable pub fill : List ℕ → CalculateStatsResult → CalculateStatsResult
fill [] r = r
fill (d ∷ ds) r =
    fill ds (record { total = ensure d r.total; by_file = map (ensure_in d) r.by_file })

abbrev pub all_digits : List ℕ
all_digits = 48 ∷ 49 ∷ 50 ∷ 51 ∷ 52 ∷ 53 ∷ 54 ∷ 55 ∷ 56 ∷ 57 ∷ []

abbrev pub nothing_counted : CalculateStatsResult
nothing_counted = record { total = []; by_file = [] }

module _ (w : World) where
  -- The file name and the storage key of a file that has a hash and a key.
  abbrev stored : Option File → List (String × String)
  stored none = []
  stored (some f) = elim f.hash [
    | none ↦ []
    | some h ↦ elim f.storage_key [ none ↦ [] | some key ↦ (f.filename, key.value) ∷ [] ]
  ]

  -- `for file_id in query.file_ids:`
  unfoldable pub find_files : List String → Exec w.State (List (String × String))
  find_files [] = pure []
  find_files (file_id ∷ rest) = do
    id ← lift (w.uuid_of file_id)
    found ← w.file_by_id (record { value = id })
    others ← find_files rest
    pure (stored found ++ others)

  -- The content of a download, if it is neither missing nor empty.
  unfoldable pub counted : String → Option String → CalculateStatsResult → CalculateStatsResult
  counted filename none r = r
  counted filename (some content) r =
      if str_eq content "" then r else count_content filename content r

  -- `for _file_id, filename, storage_key in files:`
  unfoldable pub count_files :
      List (String × String) → CalculateStatsResult → Exec w.State CalculateStatsResult
  count_files [] r = pure r
  count_files ((filename, key) ∷ rest) r =
      if str_eq key ""
      then count_files rest r
      else do content ← w.download key; count_files rest (counted filename content r)

  -- `CalculateStatsHandler.execute`
  unfoldable pub calculate_stats : List String → Exec w.State CalculateStatsResult
  calculate_stats file_ids = do
    files ← with_uow w.rollback (find_files file_ids)
    r ← count_files files nothing_counted
    pure (fill all_digits r)
