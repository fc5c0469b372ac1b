-- ===== src/Clock/Civil.antt =====
-- src/clock.rs: the day count of `parse_http_date` against the calendar.
use newppp.Prelude.{
  ℕ, zero, suc, ◌+◌, ◌-◌, ◌*◌, ◌/◌, ◌%◌, ◌≤◌, ◌<◌, ◌≡◌, refl, Bool, true, false, not, leb, ◌==◌,
  ◌&&◌, ◌||◌, if◌then◌else◌, arith, all_below, all_below_sound, ==→eq, ==→ne, Bool-cases, inl, inr,
}
use newppp.Clock.{civil_days}

-- The Gregorian calendar, from its rules.
abbrev pub is_leap : ℕ → Bool
is_leap year = (year % 4 == 0) && (not (year % 100 == 0) || (year % 400 == 0))

abbrev pub year_length : ℕ → ℕ
year_length year = if is_leap year then 366 else 365

abbrev pub month_length : Bool → ℕ → ℕ
month_length leap month =
    if month == 2
    then (if leap then 29 else 28)
    else if (month == 4) || (month == 6) || (month == 9) || (month == 11)
    then 30
    else 31

-- Days from 1 January of the year 0 to that of the year, and from there to the first of the month.
unfoldable pub days_before_year : ℕ → ℕ
days_before_year zero = 0
days_before_year (suc year) = days_before_year year + year_length year

unfoldable pub days_before_month : Bool → ℕ → ℕ
days_before_month leap zero = 0
days_before_month leap (suc zero) = 0
days_before_month leap (suc (suc m)) = days_before_month leap (suc m) + month_length leap (suc m)

abbrev pub calendar_days : ℕ → ℕ → ℕ → ℕ
calendar_days year month day =
    days_before_year year + days_before_month (is_leap year) month + (day - 1)

year_step :
    (y : ℕ)
    → year_length (suc y) + suc y / 100 + y / 4 + y / 400 ≡ 365 + y / 100 + suc y / 4 + suc y / 400
year_step y = elim (Bool-cases (suc y % 4 == 0)) [
  | inr no4 ↦ rw no4 (omega (arith, ==→ne _ _ no4))
  | inl by4 ↦ elim (Bool-cases (suc y % 100 == 0)) [
    | inr no100 ↦ rw (by4, no100) (omega (arith, ==→eq _ _ by4, ==→ne _ _ no100))
    | inl by100 ↦ elim (Bool-cases (suc y % 400 == 0)) [
      | inr no400 ↦ rw (by4, by100, no400) (omega (arith, ==→eq _ _ by100, ==→ne _ _ no400))
      | inl by400 ↦ rw (by4, by100, by400) (omega (arith, ==→eq _ _ by400))
    ]
  ]
]

days_before_year-closed :
    (y : ℕ) → days_before_year (suc y) + y / 100 ≡ 365 * y + 366 + y / 4 + y / 400
unfolding days_before_year
days_before_year-closed zero = refl
days_before_year-closed (suc y) = omega (arith, days_before_year-closed y, year_step y)

abbrev leap_day : Bool → ℕ
leap_day true = 1
leap_day false = 0

month_fits : Bool → ℕ → Bool
unfolding days_before_month
month_fits leap m =
    if leb 3 m
    then days_before_month leap m == (153 * ((m + 9) % 12) + 2) / 5 + 59 + leap_day leap
    else if leb 1 m
    then days_before_month leap m + 306 == (153 * ((m + 9) % 12) + 2) / 5
    else true

months_fit : (leap : Bool) → all_below 13 (month_fits leap) ≡ true
unfolding all_below month_fits
months_fit true = refl
months_fit false = refl

month_lem : (leap : Bool) (m : ℕ) → m < 13 → month_fits leap m ≡ true
month_lem leap m h = all_below_sound 13 (month_fits leap) m (months_fit leap) h

months_late :
    (leap : Bool) (m : ℕ)
    → 3 ≤ m
    → m < 13
    → days_before_month leap m ≡ (153 * ((m + 9) % 12) + 2) / 5 + 59 + leap_day leap
unfolding month_fits
months_late leap m h k = ground (arith, month_lem leap m k)

months_early :
    (leap : Bool) (m : ℕ)
    → 1 ≤ m
    → m < 3
    → days_before_month leap m + 306 ≡ (153 * ((m + 9) % 12) + 2) / 5
unfolding month_fits
months_early leap m h k = ground (arith, month_lem leap m (omega arith))

-- The count of whole eras and of the years of the last one, in days.
era_days :
    (y x : ℕ)
    → y / 400 * 146097
        + ((y - y / 400 * 400) * 365 + (y - y / 400 * 400) / 4 - (y - y / 400 * 400) / 100 + x)
        + y / 100
      ≡ 365 * y + y / 4 + y / 400 + x
era_days y x = omega arith

year_length-leap_day : (year : ℕ) → year_length year ≡ 365 + leap_day (is_leap year)
year_length-leap_day year = elim (Bool-cases (is_leap year)) [
  | inl leap ↦ rw leap refl
  | inr common ↦ rw common refl
]

civil_late :
    (y month day : ℕ)
    → 3 ≤ month
    → month < 13
    → 1 ≤ day
    → civil_days (suc y) month day + 60 ≡ calendar_days (suc y) month day
unfolding civil_days
civil_late y month day h k l =
    let late : leb month 2 ≡ false = ground arith in
    rw late (
      omega (
        arith,
        era_days (suc y) ((153 * ((month + 9) % 12) + 2) / 5 + day - 1),
        months_late (is_leap (suc y)) month h k,
        year_length-leap_day (suc y),
        year_step y,
        days_before_year-closed y,
      ))

civil_early :
    (y month day : ℕ)
    → 1 ≤ month
    → month < 3
    → 1 ≤ day
    → civil_days (suc y) month day + 60 ≡ calendar_days (suc y) month day
unfolding civil_days
civil_early y month day h k l =
    let early : leb month 2 ≡ true = ground arith in
    rw early (
      omega (
        arith,
        era_days y ((153 * ((month + 9) % 12) + 2) / 5 + day - 1),
        months_early (is_leap (suc y)) month h k,
        days_before_year-closed y,
      ))

-- From the year 1 on, the day number that the code computes, which counts from 1 March of the year 0,
-- is that of the calendar, which counts from 1 January and adds up the lengths of the years and months.
pub civil_days-calendar_days :
    (year month day : ℕ)
    → 1 ≤ year
    → 1 ≤ month
    → month ≤ 12
    → 1 ≤ day
    → civil_days year month day + 60 ≡ calendar_days year month day
civil_days-calendar_days zero month day h m n d = absurd (omega arith)
civil_days-calendar_days (suc y) month day h m n d = elim (Bool-cases (leb month 2)) [
  | inl early ↦ civil_early y month day m (ground arith) d
  | inr late ↦ civil_late y month day (ground arith) (omega arith) d
]
