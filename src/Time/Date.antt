-- ===== src/Time/Date.antt =====
-- master/base/Date.h and master/base/Date.cc: `Date`, for years from 0 on. Of the documented dates no
-- difference is negative, and `fits` stands for the `int`s that may overflow.
pub mod Calendar
pub mod RoundTrip
mod Examples
use pp_d_scache.Base.{
  ℕ, ◌+◌, ◌-◌, ◌*◌, ◌/◌, ◌%◌, ◌^◌, Bool, ltb, ◌==◌, if◌then◌else◌, Result, ok, err, ◌>>=◌,
  undefined,
}

-- `Date::YearMonthDay`
pub record YearMonthDay : Type 0 where
  pub year : ℕ
  pub month : ℕ
  pub day : ℕ

-- An `int` that does not overflow.
abbrev pub fits : ℕ → Result ℕ
fits x = if ltb x (2 ^ 31) then ok x else err undefined

unfoldable pub get_julian_day_number : ℕ → ℕ → ℕ → Result ℕ
get_julian_day_number year month day = do
  let a = (14 - month) / 12
  shifted ← fits (year + 4800)
  let y = shifted - a
  let m = month + 12 * a - 3
  days ← fits (153 * m + 2)
  sum ← fits (day + days / 5 + y * 365 + y / 4)
  ok (sum - y / 100 + y / 400 - 32045)

unfoldable pub get_year_month_day : ℕ → Result YearMonthDay
get_year_month_day julian_day_number = do
  let a = julian_day_number + 32044
  quarters ← fits (4 * a + 3)
  let b = quarters / 146097
  let c = a - b * 146097 / 4
  let d = (4 * c + 3) / 1461
  let e = c - 1461 * d / 4
  let m = (5 * e + 2) / 153
  ok (record {
    year = b * 100 + d + m / 10 - 4800;
    month = m + 3 - 12 * (m / 10);
    day = e - (153 * m + 2) / 5 + 1;
  })

-- The fields of `Date` and its functions: a date is its `julianDayNumber_`.
abbrev pub Date : Type 0
Date = ℕ

abbrev pub days_per_week : ℕ
days_per_week = 7

unfoldable pub make_date : ℕ → ℕ → ℕ → Result Date
unfolding get_julian_day_number
make_date year month day = get_julian_day_number year month day

-- The `tm_year`, `tm_mon` and `tm_mday` of a `struct tm`.
unfoldable pub make_date_tm : ℕ → ℕ → ℕ → Result Date
unfolding get_julian_day_number
make_date_tm tm_year tm_mon tm_mday = get_julian_day_number (tm_year + 1900) (tm_mon + 1) tm_mday

unfoldable pub year_month_day : Date → Result YearMonthDay
unfolding get_year_month_day
year_month_day date = get_year_month_day date

unfoldable pub is_valid : Date → Bool
is_valid date = ltb 0 date

-- 0 is Sunday.
unfoldable pub week_day : Date → ℕ
week_day date = (date + 1) % days_per_week

unfoldable pub year : Date → Result ℕ
unfolding year_month_day
year date = do ymd ← year_month_day date; ok ymd.year

unfoldable pub month : Date → Result ℕ
unfolding year_month_day
month date = do ymd ← year_month_day date; ok ymd.month

unfoldable pub day : Date → Result ℕ
unfolding year_month_day
day date = do ymd ← year_month_day date; ok ymd.day

-- `operator<` and `operator==`
abbrev pub is_before : Date → Date → Bool
is_before x y = ltb x y

abbrev pub is_same : Date → Date → Bool
is_same x y = x == y
