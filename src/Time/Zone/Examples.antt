-- ===== src/Time/Zone/Examples.antt =====
-- The theorem on UTC at a time before 1970.
use pp_d_scache.Base.{ℕ, ◌-◌, ◌≡◌, refl, true, if◌then◌else◌, ok, arith}
use pp_d_scache.Base.Int.{ℤ, negsuc}
use pp_d_scache.Time.Date.{YearMonthDay, make_date, week_day, get_julian_day_number}
use pp_d_scache.Time.Date.Calendar.{IsDate}
use pp_d_scache.Time.Zone.{from_utc_time, to_utc_time}
use pp_d_scache.Time.Zone.RoundTrip.{to_utc_time-from_utc_time}

last_second : from_utc_time 1969 12 31 23 59 59 ≡ ok (negsuc 0)
unfolding from_utc_time make_date get_julian_day_number
last_second = refl

abbrev moon : YearMonthDay
moon = record { year = 1969; month = 7; day = 20 }

moon-IsDate : IsDate moon
moon-IsDate = record {
  month_low = omega arith;
  month_high = omega arith;
  day_low = omega arith;
  day_high = omega arith;
}

to_utc_time-from_utc_time_example :
    (z : ℤ) × (date start : ℕ) × (from_utc_time 1969 7 20 20 17 40 ≡ ok z)
    × (make_date 1969 7 20 ≡ ok date)
    × (make_date 1969 1 1 ≡ ok start)
    × (to_utc_time z true
        ≡ ok (record {
          year = 1969;
          month = 7;
          day = 20;
          hour = 20;
          minute = 17;
          second = 40;
          week_day = week_day date;
          year_day = if true then date - start else 0;
        }))
to_utc_time-from_utc_time_example =
    to_utc_time-from_utc_time moon 20 17 40 true moon-IsDate (omega arith) (omega arith)
      (omega arith) (omega arith)
