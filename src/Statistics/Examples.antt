-- ===== src/Statistics/Examples.antt =====
-- The statistics over two files of the same name.
use file_extractor.Uow.{with_uow, left_uow}
use file_extractor.Base.{ℕ, String, ◌≡◌, refl, Option, some, List, [], ◌∷◌, if◌then◌else◌}
use text.Mathlib.Text.{◌==◌ as str_eq}
use file_extractor.Base.Dict.{lookup, nat_key}
use file_extractor.Base.Int.{pos}
use file_extractor.Base.Exec.{ok, ◌>>=◌}
use file_extractor.Domain.Status.{FileStatus}
use file_extractor.Domain.File.{File}
use file_extractor.Download.Ports.{World}
use file_extractor.Download.Examples.{desk, full}
use file_extractor.Statistics.Digits.{CalculateStatsResult, find_files, calculate_stats}
use file_extractor.Statistics.Totals.{occurrences, in_files}
use mathlib.Mathlib.Data.Multiset.Defs.{of_list}
use file_extractor.Statistics.Unordered.{in_multiset, calculate_stats_multiset}
use file_extractor.Statistics.Files.{StatisticsResult, statistics, statistics_counts_twice}

abbrev held : String → Option String
held key = some "a1b21"

abbrev stored_file : File
stored_file = record {
  id = record { value = 7 };
  filename = "a.txt";
  size = record { value = pos 5 };
  hash =
      some (record { value = "0123456789abcdef0123456789abcdef0123456789abcdef0123456789abcdef" });
  storage_key = some (record { value = "files/a.txt" });
  status = FileStatus.uploaded;
  created_at = 10;
  uploaded_at = some 20;
}

abbrev number : String → ℕ
number status =
    if str_eq status ""
    then 6
    else if str_eq status "UPLOADED"
    then 3
    else if str_eq status "UPLOADING"
    then 0
    else if str_eq status "FAILED"
    then 2
    else 1

abbrev archive : World
archive = record desk {
  download = λ key s. (ok (held key), s);
  file_by_id = λ id s. (ok (some stored_file), s);
  count_by_status = λ status s. (ok (number status), s);
}

abbrev both : List (String × String)
both = ("a.txt", "files/a.txt") ∷ ("a.txt", "files/a.txt") ∷ []

found : with_uow archive.rollback (find_files archive ("x" ∷ "y" ∷ [])) full ≡ (ok both, full)
unfolding with_uow left_uow find_files ◌>>=◌
found = refl

calculate_stats_multiset_example :
    (r : CalculateStatsResult) × (calculate_stats archive ("x" ∷ "y" ∷ []) full ≡ (ok r, full))
    × (lookup 49 r.total ≡ some (in_multiset 49 held (of_list both)))
calculate_stats_multiset_example =
    calculate_stats_multiset archive held (λ key s. refl) ("x" ∷ "y" ∷ []) both full full found
      (of_list both) refl 49 refl

-- The digit 1 is in each of the two files twice.
ones : in_files 49 held both ≡ 4
unfolding in_files occurrences
ones = refl

statistics_counts_twice_example :
    (r : StatisticsResult) × (statistics archive full ≡ (ok r, full))
    × (r.uploaded_files ≡ 3)
    × (r.failed_files ≡ 2)
    × (r.total_files ≡ 11)
    × (r.total_files ≡ 11)
    × (r.average_file_size.0 ≡ 0)
statistics_counts_twice_example =
    statistics_counts_twice archive number (λ status s. refl) refl full
