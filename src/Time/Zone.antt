-- ===== src/Time/Zone.antt =====
-- master/base/TimeZone.cc: the conversion between a `time_t` and the fields of a time in UTC, for the
-- years of `Date`, from 0 on.
pub mod RoundTrip
pub mod Local
pub mod File
mod Examples
use pp_d_scache.Base.{
  ℕ, suc, ◌+◌, ◌-◌, ◌*◌, ◌/◌, ◌%◌, Bool, true, false, leb, ◌==◌, if◌then◌else◌, Result, ok, err,
  ◌>>=◌,
}
use pp_d_scache.Base.Int.{ℤ, pos, negsuc}
use pp_d_scache.Time.Date.{YearMonthDay, Date, fits, make_date, year_month_day, week_day}

abbrev pub seconds_per_day : ℕ
seconds_per_day = 24 * 60 * 60

-- Date::kJulianDayOf1970_01_01
abbrev pub julian_day_of_1970_01_01 : ℕ
julian_day_of_1970_01_01 = 2440588

-- The `struct tm`, with `tm_year + 1900` and `tm_mon + 1` as `year` and `month`.
pub record Tm : Type 0 where
  pub year : ℕ
  pub month : ℕ
  pub day : ℕ
  pub hour : ℕ
  pub minute : ℕ
  pub second : ℕ
  pub week_day : ℕ
  pub year_day : ℕ

-- The hour, the minute and the second of `fillHMS`.
unfoldable pub fill_hms : ℕ → ℕ × ℕ × ℕ
fill_hms seconds = (seconds / 60 / 60, seconds / 60 % 60, seconds % 60)

-- The seconds of the day and the day number: C++ divides towards 0, and a negative remainder is
-- that of the day before.
unfoldable pub split_time : ℤ → ℕ × ℕ
split_time (pos n) = (n % seconds_per_day, julian_day_of_1970_01_01 + n / seconds_per_day)
split_time (negsuc k) =
    let days = suc k / seconds_per_day in
    if suc k % seconds_per_day == 0
    then (0, julian_day_of_1970_01_01 - days)
    else (seconds_per_day - suc k % seconds_per_day, julian_day_of_1970_01_01 - days - 1)

unfoldable pub to_utc_time : ℤ → Bool → Result Tm
to_utc_time seconds_since_epoch yday = do
  let (seconds, days) = split_time seconds_since_epoch
  let (hour, minute, second) = fill_hms seconds
  date ← fits days
  ymd ← year_month_day date
  start_of_year ← make_date ymd.year 1 1
  ok (record {
    year = ymd.year;
    month = ymd.month;
    day = ymd.day;
    hour = hour;
    minute = minute;
    second = second;
    week_day = week_day date;
    year_day = if yday then date - start_of_year else 0;
  })

-- `a - b`
abbrev pub difference : ℕ → ℕ → ℤ
difference a b = if leb b a then pos (a - b) else negsuc (b - a - 1)

-- `days * kSecondsPerDay + secondsInDay`, where `days` is the difference of two day numbers.
unfoldable pub from_utc_time : ℕ → ℕ → ℕ → ℕ → ℕ → ℕ → Result ℤ
from_utc_time year month day hour minute seconds = do
  date ← make_date year month day
  ok (
      difference (date * seconds_per_day + (hour * 3600 + minute * 60 + seconds))
        (julian_day_of_1970_01_01 * seconds_per_day))

unfoldable pub from_utc_time_tm : Tm → Result ℤ
from_utc_time_tm t = from_utc_time t.year t.month t.day t.hour t.minute t.second
