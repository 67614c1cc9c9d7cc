-- ===== src/Time/Date/RoundTrip.antt =====
-- Julian day numbers count the days of the calendar.
use pp_d_scache.Base.{
  ℕ, suc, ◌+◌, ◌-◌, ◌*◌, ◌/◌, ◌%◌, ◌^◌, ◌≤◌, ◌<◌, ◌≡◌, ◌≢◌, ◌⊎◌, inl, inr, ap, ◌∙◌, true,
  Bool-cases, arith, ltb, ltb→lt, ◌==◌, ==_iff, ok,
}
use pp_d_scache.Time.Date.{YearMonthDay, get_julian_day_number, get_year_month_day, week_day}
use pp_d_scache.Time.Date.Calendar.{is_leap, month_length, IsDate, next_day}

-- The years that end with February: the days before the year `y`, and the day `e` of it.
abbrev days_before : ℕ → ℕ
days_before y = y * 365 + y / 4 - y / 100 + y / 400

-- The day 365 is there in the years before a leap year only.
abbrev InYear : ℕ → ℕ → Type 0
InYear y e = (e < 365) ⊎ ((e ≡ 365) × (is_leap (suc y) ≡ true))

century : (y e : ℕ) → InYear y e → (4 * (days_before y + e) + 3) / 146097 ≡ y / 100
century y e (inl h) = omega arith
century y e (inr (h, l)) = ground arith

year_of_century :
    (y e : ℕ) → InYear y e → (4 * (days_before y + e - y / 100 * 146097 / 4) + 3) / 1461 ≡ y % 100
year_of_century y e (inl h) = omega arith
year_of_century y e (inr (h, l)) = ground arith

day_of_year : (y e : ℕ) → days_before y + e - y / 100 * 146097 / 4 - 1461 * (y % 100) / 4 ≡ e
day_of_year y e = omega arith

-- A date's year and month, counted from March, and its day in that year.
abbrev before_march : YearMonthDay → ℕ
before_march t = (14 - t.month) / 12

abbrev march_year : YearMonthDay → ℕ
march_year t = t.year + 4800 - before_march t

abbrev march_month : YearMonthDay → ℕ
march_month t = t.month + 12 * before_march t - 3

abbrev march_day : YearMonthDay → ℕ
march_day t = t.day - 1 + (153 * march_month t + 2) / 5

march_day-InYear : (t : YearMonthDay) → IsDate t → InYear (march_year t) (march_day t)
march_day-InYear t v = ground (arith, v.month_low, v.month_high, v.day_low, v.day_high)

march_month_lem : (t : YearMonthDay) → IsDate t → (5 * march_day t + 2) / 153 ≡ march_month t
march_month_lem t v = ground (arith, v.month_low, v.month_high, v.day_low, v.day_high)

julian_lem :
    (t : YearMonthDay)
    → IsDate t
    → t.year < 1400000
    → get_julian_day_number t.year t.month t.day
      ≡ ok (days_before (march_year t) + march_day t - 32044)
unfolding get_julian_day_number
julian_lem t v h = ground (arith, v.month_low, v.month_high, v.day_low, v.day_high)

-- A date of the calendar, of a year before 1400000, has a day number, and is read back from it.
pub get_year_month_day-get_julian_day_number :
    (t : YearMonthDay)
    → IsDate t
    → t.year < 1400000
    → (n : ℕ) × (get_julian_day_number t.year t.month t.day ≡ ok n) × (get_year_month_day n ≡ ok t)
unfolding get_year_month_day
get_year_month_day-get_julian_day_number t v h =
    let y = march_year t in
    let e = march_day t in
    let i = march_day-InYear t v in
    let n = days_before y + e - 32044 in
    let a : n + 32044 ≡ days_before y + e = omega (arith, v.month_low, v.month_high) in
    let small : ltb (4 * (days_before y + e) + 3) (2 ^ 31) ≡ true =
      ground (arith, v.month_low, v.month_high, march_month_lem t v, i) in
    (
      n,
      julian_lem t v h,
      rw (a, small, century y e i, year_of_century y e i, day_of_year y e, march_month_lem t v)
          (λ j. ok (record {
            year =
                let p : y / 100 * 100 + y % 100 + march_month t / 10 - 4800 ≡ t.year =
                  omega (arith, v.month_low, v.month_high) in
                p j;
            month =
                let p : march_month t + 3 - 12 * (march_month t / 10) ≡ t.month =
                  omega (arith, v.month_low, v.month_high) in
                p j;
            day =
                let p : e - (153 * march_month t + 2) / 5 + 1 ≡ t.day = omega (arith, v.day_low) in
                p j;
          })),
    )

next_day-IsDate : (t : YearMonthDay) → IsDate t → IsDate (next_day t)
next_day-IsDate t v = record {
  month_low = ground (arith, v.month_low);
  month_high = ground (arith, v.month_high);
  day_low = ground arith;
  day_high = ground (arith, v.month_high, v.day_high);
}

abbrev number : YearMonthDay → ℕ
number t = days_before (march_year t) + march_day t - 32044

number-same_month :
    (t : YearMonthDay) → IsDate t → number (record t { day = suc t.day }) ≡ suc (number t)
number-same_month t v = omega (arith, v.day_low, v.month_low, v.month_high)

same_year : (month : ℕ) → month ≢ 2 → month < 12 → (14 - suc month) / 12 ≡ (14 - month) / 12
same_year month other h = omega arith

-- The days before a month and its length are the days before the next month.
months_add :
    (year month : ℕ)
    → 1 ≤ month
    → month < 12
    → month ≢ 2
    → let a = (14 - month) / 12 in
      (153 * (suc month + 12 * a - 3) + 2) / 5
      ≡ month_length year month + (153 * (month + 12 * a - 3) + 2) / 5
months_add year month low h other = ground arith

number-next_month :
    (t : YearMonthDay)
    → IsDate t
    → t.month < 12
    → t.day ≡ month_length t.year t.month
    → number (record t { month = suc t.month; day = 1 }) ≡ suc (number t)
number-next_month t v h e = elim (Bool-cases (t.month == 2)) [
  | inl february ↦
      let two : t.month ≡ 2 = (==_iff t.month 2).0 february in ground (arith, two, v.day_low)
  | inr other ↦
      let ne : t.month ≢ 2 = λ p. ground (arith, ==_iff t.month 2) in
      rw (same_year t.month ne h)
        (omega (arith, months_add t.year t.month v.month_low h ne, v.day_low, v.month_low, e))
]

number-next_year :
    (t : YearMonthDay)
    → t.month ≡ 12
    → t.day ≡ 31
    → number (record { year = suc t.year; month = 1; day = 1 }) ≡ suc (number t)
number-next_year t h e = rw (h, e) (omega arith)

number-next_day : (t : YearMonthDay) → IsDate t → number (next_day t) ≡ suc (number t)
number-next_day t v = elim (Bool-cases (ltb t.day (month_length t.year t.month))) [
  | inl inside ↦ rw inside (number-same_month t v)
  | inr last ↦
      let e : t.day ≡ month_length t.year t.month = ground (arith, v.day_high) in
      elim (Bool-cases (ltb t.month 12)) [
        | inl more ↦ rw (last, more) (number-next_month t v (ltb→lt t.month 12 more) e)
        | inr december ↦
            let twelve : t.month ≡ 12 = ground (arith, v.month_high) in
            rw (last, december) (number-next_year t twelve (e ∙ rw twelve))
      ]
]

-- Day numbers follow the calendar: the day after a date, of a year before 1399999, has the next
-- number, and the next day of the week.
pub get_julian_day_number-next_day :
    (t : YearMonthDay)
    → IsDate t
    → t.year < 1399999
    → let u = next_day t in
      (n : ℕ) × (get_julian_day_number t.year t.month t.day ≡ ok n)
      × (get_julian_day_number u.year u.month u.day ≡ ok (suc n))
      × (week_day (suc n) ≡ (week_day n + 1) % 7)
unfolding week_day
get_julian_day_number-next_day t v h = (
  number t,
  julian_lem t v (omega arith),
  julian_lem (next_day t) (next_day-IsDate t v) (ground arith) ∙ ap ok (number-next_day t v),
  omega arith,
)
