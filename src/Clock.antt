-- ===== src/Clock.antt =====
-- Naive UTC datetimes as microseconds since 1970-01-01, and the calendar that
-- services/domain/service.py reads from them: a month is `12 * year + (month - 1)`.
use nektron_moments.Base.{ℕ, ◌+◌, ◌-◌, ◌*◌, ◌/◌, ◌%◌}

abbrev pub DateTime : Type 0
DateTime = ℕ

abbrev pub Month : Type 0
Month = ℕ

abbrev pub second : ℕ
second = 1000000

-- `timedelta(seconds=n)`
abbrev pub seconds : ℕ → ℕ
seconds n = n * second

abbrev pub day : ℕ
day = 86400000000

-- Days from 0000-03-01 to 1970-01-01 in the proleptic Gregorian calendar.
abbrev epoch : ℕ
epoch = 719468

year_of_era : ℕ → ℕ
year_of_era e = (e + e / 36524 - (e / 1460 + e / 146096)) / 365

-- The year, counted from March, and the days into it.
march_year : ℕ → ℕ
unfolding year_of_era
march_year d = 400 * (d / 146097) + year_of_era (d % 146097)

days_before : ℕ → ℕ
days_before y = 365 * y + y / 4 + y / 400 - y / 100

-- Months since March of year 0.
march_month : ℕ → ℕ
unfolding march_year days_before
march_month d =
    let y = march_year d in let into = d - days_before y in 12 * y + (5 * into + 2) / 153

-- `date(value.year, value.month, 1)`
unfoldable pub month_of : DateTime → Month
unfolding march_month
month_of t = march_month (t / day + epoch) + 2

-- `datetime(year, month, 1)` for a month that is not before March of year 0.
unfoldable pub month_start : Month → DateTime
unfolding days_before
month_start m = let k = m - 2 in (days_before (k / 12) + (153 * (k % 12) + 2) / 5 - epoch) * day

-- `_first_of_next_month`
unfoldable pub first_of_next_month : DateTime → DateTime
unfolding month_of month_start
first_of_next_month now = month_start (month_of now + 1)
