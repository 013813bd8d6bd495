-- ===== src/Domain/Time.antt =====
-- Python's `datetime` in UTC, as microseconds since the year 1, and `datetime + timedelta`.
use file_extractor.Base.{ℕ, ◌-◌, ◌*◌, ltb, if◌then◌else◌, ◌||◌}
use file_extractor.Base.Int.{ℤ, pos, pos_part, ◌+ℤ◌, ◌*ℕ◌, ltb_ℤ}
use file_extractor.Base.Errors.{overflow_error}
use file_extractor.Base.Exec.{Result, ok, raised}

abbrev pub DateTime : Type 0
DateTime = ℕ

-- The last microsecond of the year 9999.
abbrev pub max_datetime : DateTime
max_datetime = 3652059 * 86400 * 1000000 - 1

-- `t + timedelta(seconds=s)`: an `OverflowError` where the sum is no `datetime`. A `timedelta`
-- that is itself out of range is out of this range too; the text of its exception, which is another
-- in Python, is the same here.
unfoldable pub add_seconds : DateTime → ℤ → Result DateTime
unfolding ◌+ℤ◌ ◌*ℕ◌
add_seconds t s =
    let sum = pos t +ℤ (s *ℕ 1000000) in
    if ltb_ℤ sum (pos 0) || ltb max_datetime (pos_part sum)
    then raised (overflow_error "date value out of range")
    else ok (pos_part sum)
