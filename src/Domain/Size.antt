-- ===== src/Domain/Size.antt =====
-- app/domain/value_objects/file_size.py
use file_extractor.Base.{ℕ, ◌≡◌, arith, if◌then◌else◌}
use file_extractor.Base.Int.{ℤ, pos, negsuc, ltb_ℤ}
use file_extractor.Base.Errors.{domain, negative_file_size}
use file_extractor.Base.Exec.{Result, ok, raised}

pub record FileSize : Type 0 where
  pub value : ℤ

-- `FileSize(value)`
unfoldable pub file_size : ℤ → Result FileSize
file_size value =
    if ltb_ℤ value (pos 0)
    then raised (domain (negative_file_size value))
    else ok (record { value = value })

-- A size that was accepted is a natural number, and every natural number is accepted.
file_size_nonneg :
    (value : ℤ) (s : FileSize)
    → file_size value ≡ ok s
    → (n : ℕ) × (value ≡ pos n) × (s.value ≡ pos n)
unfolding file_size
file_size_nonneg (pos n) s h = (n, ground arith, ground arith)
file_size_nonneg (negsuc n) s h = absurd (ground arith)
