-- ===== src/Statistics/Unordered.antt =====
-- What `CalculateStatsHandler` counts does not depend on the order of the files: a multiset of files
-- in place of the list.
use mathlib.Mathlib.Data.Multiset.Defs.{Multiset, of_list}
use mathlib.Mathlib.Data.Multiset.Fold as Multiset
use native.Mathlib.Nat.{ℕ_set}
use text.Mathlib.Text.{◌==◌ as str_eq}
use file_extractor.Uow.{with_uow}
use file_extractor.Base.{
  ℕ, ◌+◌, String, ◌≡◌, refl, ap, ◌∙◌, true, Option, some, List, [], ◌∷◌, arith, if◌then◌else◌,
}
use file_extractor.Base.Dict.{lookup, nat_key}
use file_extractor.Base.Exec.{ok}
use file_extractor.Download.Ports.{World}
use file_extractor.Statistics.Digits.{CalculateStatsResult, is_digit, find_files, calculate_stats}
use file_extractor.Statistics.Totals.{in_content, in_files, calculate_stats_total}

module _ (d : ℕ) (fetch : String → Option String) where
  abbrev pub in_file : String × String → ℕ
  in_file (filename, key) = if str_eq key "" then 0 else in_content d (fetch key)

  abbrev pub add_file : String × String → ℕ → ℕ
  add_file x n = in_file x + n

  pub add_file-swap :
      (x y : String × String) (n : ℕ) → add_file x (add_file y n) ≡ add_file y (add_file x n)
  add_file-swap x y n = omega arith

  -- How often the digit is in what is fetched for the files of a multiset.
  pub in_multiset : Multiset (String × String) → ℕ
  in_multiset = Multiset.foldr ℕ_set add_file add_file-swap 0

  in_files-in_multiset :
      (xs : List (String × String)) → in_files d fetch xs ≡ in_multiset (of_list xs)
  unfolding in_files in_multiset Multiset.foldr
  in_files-in_multiset [] = refl
  in_files-in_multiset (x ∷ xs) = ap (add_file x) (in_files-in_multiset xs)

-- If the files are found, and the store answers each download by `fetch` without a change, then
-- the handler returns; for each digit its total has a key, whose value depends only on the multiset
-- of the files, not on their order, and is the number of times the digit occurs in all the texts
-- fetched, those of files of the same name included.
pub calculate_stats_multiset :
    (w : World) (fetch : String → Option String)
    (reads : (key : String) (s : w.State) → w.download key s ≡ (ok (fetch key), s))
    (file_ids : List String) (files : List (String × String)) (s t : w.State)
    → with_uow w.rollback (find_files w file_ids) s ≡ (ok files, t)
    → (found : Multiset (String × String)) → of_list files ≡ found
    → (d : ℕ) → is_digit d ≡ true
    → (r : CalculateStatsResult) × (calculate_stats w file_ids s ≡ (ok r, t))
      × (lookup d r.total ≡ some (in_multiset d fetch found))
calculate_stats_multiset w fetch reads file_ids files s t run found same d h =
    let (r, ends, sum) = calculate_stats_total w fetch reads file_ids files s t run d h in
    (r, ends, sum ∙ ap some (in_files-in_multiset d fetch files ∙ ap (in_multiset d fetch) same))
