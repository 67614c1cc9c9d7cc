-- ===== src/Time/Zone/RoundTrip.antt =====
-- The time of a date and a time of the day is read back from it.
use pp_d_scache.Base.{
  ℕ, ◌+◌, ◌-◌, ◌*◌, ◌/◌, ◌%◌, ◌^◌, ◌≡◌, ◌<◌, refl, Bool, true, ltb, if◌then◌else◌, ok, arith,
}
use pp_d_scache.Base.Int.{ℤ}
use pp_d_scache.Time.Date.{YearMonthDay, make_date, year_month_day, week_day, get_year_month_day}
use pp_d_scache.Time.Date.Calendar.{IsDate}
use pp_d_scache.Time.Date.RoundTrip.{get_year_month_day-get_julian_day_number}
use pp_d_scache.Time.Zone.{
  fill_hms, split_time, to_utc_time, from_utc_time, difference, seconds_per_day,
  julian_day_of_1970_01_01,
}

-- The seconds of the day and the day number come back.
split_time-difference :
    (date s : ℕ)
    → s < seconds_per_day
    → split_time
        (difference (date * seconds_per_day + s) (julian_day_of_1970_01_01 * seconds_per_day))
      ≡ (s, date)
unfolding split_time
split_time-difference date s h =
    let e : (split_time
          (difference (date * seconds_per_day + s) (julian_day_of_1970_01_01 * seconds_per_day))).0
        ≡ s =
      ground arith in
    let f : (split_time
          (difference (date * seconds_per_day + s) (julian_day_of_1970_01_01 * seconds_per_day))).1
        ≡ date =
      ground arith in
    λ i. (e i, f i)

fill_hms_lem : (h m s : ℕ) → h < 24 → m < 60 → s < 60 → fill_hms (h * 3600 + m * 60 + s) ≡ (h, m, s)
unfolding fill_hms
fill_hms_lem h m s a b c =
    let e : (h * 3600 + m * 60 + s) / 60 / 60 ≡ h = omega arith in
    let f : (h * 3600 + m * 60 + s) / 60 % 60 ≡ m = omega arith in
    let g : (h * 3600 + m * 60 + s) % 60 ≡ s = omega arith in λ i. (e i, f i, g i)

to_utc_time-split :
    (z : ℤ) (seconds date start : ℕ) (t : YearMonthDay) (yday : Bool)
    → split_time z ≡ (seconds, date)
    → ltb date (2 ^ 31) ≡ true
    → year_month_day date ≡ ok t
    → make_date t.year 1 1 ≡ ok start
    → (hms : ℕ × ℕ × ℕ) → fill_hms seconds ≡ hms
    → to_utc_time z yday
      ≡ ok (record {
        year = t.year;
        month = t.month;
        day = t.day;
        hour = hms.0;
        minute = hms.1;
        second = hms.2;
        week_day = week_day date;
        year_day = if yday then date - start else 0;
      })
unfolding to_utc_time
to_utc_time-split z seconds date start t yday e f g k hms l = rw (e, f, g, k, l) refl

small_date : (n : ℕ) (t : YearMonthDay) → year_month_day n ≡ ok t → ltb n (2 ^ 31) ≡ true
unfolding year_month_day get_year_month_day
small_date n t h = ground (arith, h)

-- A date of the calendar, of a year before 1400000, and a time of the day have a time, of which
-- `toUtcTime` gives the same date and time of the day, before 1970 too, with the day of the week of
-- the date.
pub to_utc_time-from_utc_time :
    (t : YearMonthDay) (h m s : ℕ) (yday : Bool)
    → IsDate t
    → t.year < 1400000
    → h < 24
    → m < 60
    → s < 60
    → (z : ℤ) × (date start : ℕ) × (from_utc_time t.year t.month t.day h m s ≡ ok z)
      × (make_date t.year t.month t.day ≡ ok date)
      × (make_date t.year 1 1 ≡ ok start)
      × (to_utc_time z yday
          ≡ ok (record {
            year = t.year;
            month = t.month;
            day = t.day;
            hour = h;
            minute = m;
            second = s;
            week_day = week_day date;
            year_day = if yday then date - start else 0;
          }))
unfolding from_utc_time make_date year_month_day
to_utc_time-from_utc_time t h m s yday v y a b c =
    let (date, e, f) = get_year_month_day-get_julian_day_number t v y in
    let (start, e', f') =
      get_year_month_day-get_julian_day_number (record { year = t.year; month = 1; day = 1 })
        (record {
          month_low = omega arith;
          month_high = omega arith;
          day_low = omega arith;
          day_high = omega arith;
        })
        y in
    let z =
      difference (date * seconds_per_day + (h * 3600 + m * 60 + s))
        (julian_day_of_1970_01_01 * seconds_per_day) in
    (
      z,
      date,
      start,
      rw e refl,
      e,
      e',
      to_utc_time-split z (h * 3600 + m * 60 + s) date start t yday
          (split_time-difference date (h * 3600 + m * 60 + s) (omega (arith, a, b, c)))
          (small_date date t f) f e' (h, m, s) (fill_hms_lem h m s a b c),
    )
