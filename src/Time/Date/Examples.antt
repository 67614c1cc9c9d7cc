-- ===== src/Time/Date/Examples.antt =====
-- The theorems on dates at the end of a February and of a year.
use pp_d_scache.Base.{ℕ, suc, ◌+◌, ◌%◌, ◌≡◌, refl, arith, ok}
use pp_d_scache.Time.Date.{YearMonthDay, get_julian_day_number, get_year_month_day, week_day}
use pp_d_scache.Time.Date.Calendar.{IsDate}
use pp_d_scache.Time.Date.RoundTrip.{
  get_year_month_day-get_julian_day_number, get_julian_day_number-next_day,
}

abbrev leap_day : YearMonthDay
leap_day = record { year = 2000; month = 2; day = 29 }

leap_day-IsDate : IsDate leap_day
leap_day-IsDate = record {
  month_low = omega arith;
  month_high = omega arith;
  day_low = omega arith;
  day_high = omega arith;
}

abbrev last_day : YearMonthDay
last_day = record { year = 2023; month = 12; day = 31 }

last_day-IsDate : IsDate last_day
last_day-IsDate = record {
  month_low = omega arith;
  month_high = omega arith;
  day_low = omega arith;
  day_high = omega arith;
}

-- The documented number of the first of January 1970.
epoch : get_julian_day_number 1970 1 1 ≡ ok 2440588
unfolding get_julian_day_number
epoch = refl

get_year_month_day-get_julian_day_number_example :
    (n : ℕ) × (get_julian_day_number 2000 2 29 ≡ ok n) × (get_year_month_day n ≡ ok leap_day)
get_year_month_day-get_julian_day_number_example =
    get_year_month_day-get_julian_day_number leap_day leap_day-IsDate (omega arith)

get_julian_day_number-next_day_example :
    (n : ℕ) × (get_julian_day_number 2023 12 31 ≡ ok n)
    × (get_julian_day_number 2024 1 1 ≡ ok (suc n))
    × (week_day (suc n) ≡ (week_day n + 1) % 7)
get_julian_day_number-next_day_example =
    get_julian_day_number-next_day last_day last_day-IsDate (omega arith)
