-- ===== src/Statistics/Files.antt =====
-- app/application/handlers/statistics_handler.py: `StatisticsHandler`, with the `StatisticsResult`
-- of app/application/queries/get_statistics.py. The quotient of the average is kept as a fraction.
use file_extractor.Uow.{with_uow, left_uow}
use file_extractor.Base.{
  ℕ, ◌+◌, ◌*◌, String, ◌≡◌, refl, Bool-cases, inl, inr, ltb, arith, if◌then◌else◌,
}
use file_extractor.Base.Exec.{Exec, ok, pure, ◌>>=◌}
use file_extractor.Domain.Status.{FileStatus, file_status_name}
use file_extractor.Download.Ports.{World}

pub record StatisticsResult : Type 0 where
  pub total_files : ℕ
  pub total_size : ℕ
  pub uploaded_files : ℕ
  pub failed_files : ℕ
  -- numerator and denominator
  pub average_file_size : ℕ × ℕ

-- `StatisticsResult(total_files=..., uploaded_files=..., failed_files=...)`
abbrev pub new_result : ℕ → ℕ → ℕ → StatisticsResult
new_result total_files uploaded_files failed_files = record {
  total_files = total_files;
  total_size = 0;
  uploaded_files = uploaded_files;
  failed_files = failed_files;
  average_file_size = (0, 1);
}

-- `if result.total_files > 0:`
unfoldable pub set_average : StatisticsResult → StatisticsResult
set_average r =
    if ltb 0 r.total_files
    then record r { average_file_size = (r.total_size, r.total_files) }
    else r

module _ (w : World) where
  -- The three counts, in one block of the unit of work.
  unfoldable pub count_files_by_status : Exec w.State (ℕ × ℕ × ℕ)
  count_files_by_status = do
    total ← w.count_by_status ""
    uploaded ← w.count_by_status (file_status_name FileStatus.uploaded)
    failed ← w.count_by_status (file_status_name FileStatus.failed)
    pure (total, uploaded, failed)

  -- `StatisticsHandler.execute`
  unfoldable pub statistics : Exec w.State StatisticsResult
  statistics = do
    counts ← with_uow w.rollback count_files_by_status
    let (total, uploaded, failed) = counts
    pure (set_average (new_result (total + uploaded + failed) uploaded failed))

-- If the repository counts the rows with a status, and all rows for the empty text, then the
-- handler returns; the total it gives counts each uploaded and each failed file twice, and its
-- average is zero.
pub statistics_counts_twice :
    (w : World) (count : String → ℕ)
    (reads : (status : String) (s : w.State) → w.count_by_status status s ≡ (ok (count status), s))
    (every : count "" ≡ count "CREATED" + count "UPLOADING" + count "UPLOADED" + count "FAILED")
    (s : w.State)
    → (r : StatisticsResult) × (statistics w s ≡ (ok r, s))
      × (r.uploaded_files ≡ count "UPLOADED")
      × (r.failed_files ≡ count "FAILED")
      × (r.total_files ≡ count "" + count "UPLOADED" + count "FAILED")
      × (r.total_files
          ≡ count "CREATED" + count "UPLOADING" + 2 * count "UPLOADED" + 2 * count "FAILED")
      × (r.average_file_size.0 ≡ 0)
unfolding statistics count_files_by_status with_uow left_uow set_average ◌>>=◌
statistics_counts_twice w count reads every s =
    let n = count "" + count "UPLOADED" + count "FAILED" in
    let r = new_result n (count "UPLOADED") (count "FAILED") in
    elim (Bool-cases (ltb 0 n)) [
      | inl e ↦ (
        record r { average_file_size = (0, n) },
        rw (reads "" s, reads "UPLOADED" s, reads "FAILED" s, e) refl,
        refl,
        refl,
        refl,
        omega (arith, every),
        refl,
      )
      | inr e ↦ (
        r,
        rw (reads "" s, reads "UPLOADED" s, reads "FAILED" s, e) refl,
        refl,
        refl,
        refl,
        omega (arith, every),
        refl,
      )
    ]
