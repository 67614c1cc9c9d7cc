-- ===== src/Time/Date/Calendar.antt =====
-- The Gregorian calendar, by its own rules: the lengths of the months, and the day after a day.
use pp_d_scache.Base.{ℕ, suc, ◌%◌, ◌≤◌, Bool, not, ◌&&◌, ◌||◌, ltb, ◌==◌, if◌then◌else◌}
use pp_d_scache.Time.Date.{YearMonthDay}

abbrev pub is_leap : ℕ → Bool
is_leap year = (year % 4 == 0 && not (year % 100 == 0)) || year % 400 == 0

abbrev pub month_length : ℕ → ℕ → ℕ
month_length year month =
    if month == 2
    then (if is_leap year then 29 else 28)
    else if month == 4 || month == 6 || month == 9 || month == 11
    then 30
    else 31

pub record IsDate (t : YearMonthDay) : Type 0 where
  pub month_low : 1 ≤ t.month
  pub month_high : t.month ≤ 12
  pub day_low : 1 ≤ t.day
  pub day_high : t.day ≤ month_length t.year t.month

abbrev pub next_day : YearMonthDay → YearMonthDay
next_day t =
    if ltb t.day (month_length t.year t.month)
    then record t { day = suc t.day }
    else if ltb t.month 12
    then record t { month = suc t.month; day = 1 }
    else record { year = suc t.year; month = 1; day = 1 }
