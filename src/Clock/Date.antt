-- ===== src/Clock/Date.antt =====
-- src/clock.rs: what `parse_http_date` answers, and the clock after a calibration.
use newppp.Prelude.{
  ◌↔◌, ap, ◌∙◌, ℕ, ◌+◌, ◌*◌, ◌≤◌, ◌≡◌, refl, sym, true, leb, ◌&&◌, List, [], ◌∷◌, Option, none,
  some, arith, Bool-cases, inl, inr,
}
use newppp.Prelude.Int.{ℤ, pos, negsuc, ◌⊖◌, minus, plus-⊖, scale_days-⊖, ⊖-cancel, plus-minus}
use newppp.Prelude.Options.{>>=-eq-some}
use newppp.Prelude.Text.{split_words, split_all, ends_with}
use newppp.Clock.{
  now_unix, parse_i64, in_range, months, find_month, civil_days, seconds, time_of, date_of,
  parse_http_date, offset_of,
}
use newppp.Clock.Months.{names, IsNth, find_month-names, names-find_month, names-bounds}
use newppp.Clock.Civil.{calendar_days, civil_days-calendar_days}

in_range-read :
    (lo hi n : ℕ) (z : Option ℤ)
    → in_range lo hi z ≡ some n
    → (z ≡ some (pos n)) × (lo ≤ n) × (n ≤ hi)
unfolding in_range
in_range-read lo hi n none e = absurd (cc e)
in_range-read lo hi n (some (negsuc k)) e = absurd (cc e)
in_range-read lo hi n (some (pos k)) e = elim (Bool-cases (leb lo k && leb k hi)) [
  | inl good ↦
      let same : some k ≡ some n = rw good at e in
      let number : k ≡ n = cc same in
      (ap (λ x. some (pos x)) number, ground (arith, good), ground (arith, good))
  | inr bad ↦ absurd (cc (rw bad at e))
]

in_range-within :
    (lo hi n : ℕ) (z : Option ℤ) → z ≡ some (pos n) → lo ≤ n → n ≤ hi → in_range lo hi z ≡ some n
unfolding in_range
in_range-within lo hi n z e low high = rw e (ground arith)

-- The date that the text writes out, field by field, with its time stamp: by the calendar, the seconds
-- from the start of 1970 to it.
pub record IsDate (s : List ℕ) (ts : ℤ) : Type 0 where
  pub weekday : List ℕ
  pub day_word : List ℕ
  pub month_word : List ℕ
  pub year_word : List ℕ
  pub time_word : List ℕ
  pub zone : List ℕ
  pub more : List (List ℕ)
  pub words : split_words s ≡ weekday ∷ day_word ∷ month_word ∷ year_word ∷ time_word ∷ zone ∷ more
  pub comma : ends_with b',' weekday ≡ true
  pub h_word : List ℕ
  pub mi_word : List ℕ
  pub sec_word : List ℕ
  pub times : split_all b':' time_word ≡ h_word ∷ mi_word ∷ sec_word ∷ []
  pub year : ℕ
  pub month : ℕ
  pub day : ℕ
  pub h : ℕ
  pub mi : ℕ
  pub sec : ℕ
  pub year_read : (parse_i64 year_word ≡ some (pos year)) × (1 ≤ year) × (year ≤ 9999)
  pub month_read : IsNth month_word month 1 names
  pub day_read : (parse_i64 day_word ≡ some (pos day)) × (1 ≤ day) × (day ≤ 31)
  pub h_read : (parse_i64 h_word ≡ some (pos h)) × (0 ≤ h) × (h ≤ 23)
  pub mi_read : (parse_i64 mi_word ≡ some (pos mi)) × (0 ≤ mi) × (mi ≤ 59)
  pub sec_read : (parse_i64 sec_word ≡ some (pos sec)) × (0 ≤ sec) × (sec ≤ 60)
  pub counted :
      ts
      ≡ (calendar_days year month day * 86400 + h * 3600 + mi * 60 + sec)
        ⊖ (calendar_days 1970 1 1 * 86400)

seconds-calendar :
    (year month day h mi sec : ℕ)
    → 1 ≤ year
    → 1 ≤ month
    → month ≤ 12
    → 1 ≤ day
    → seconds year month day h mi sec
      ≡ (calendar_days year month day * 86400 + h * 3600 + mi * 60 + sec) ⊖ (719528 * 86400)
unfolding seconds
seconds-calendar year month day h mi sec y m n d =
    let c = civil_days year month day in
    let moved : calendar_days year month day * 86400 + h * 3600 + mi * 60 + sec
        ≡ c * 86400 + h * 3600 + mi * 60 + sec + 60 * 86400 =
      omega (arith, civil_days-calendar_days year month day y m n d) in
    rw
      (
        scale_days-⊖ c 719468,
        plus-⊖ (c * 86400) (719468 * 86400) (h * 3600),
        plus-⊖ (c * 86400 + h * 3600) (719468 * 86400) (mi * 60),
        plus-⊖ (c * 86400 + h * 3600 + mi * 60) (719468 * 86400) sec,
        moved,
      )
      (sym (⊖-cancel (c * 86400 + h * 3600 + mi * 60 + sec) (719468 * 86400) (60 * 86400)))

epoch : calendar_days 1970 1 1 ≡ 719528
unfolding newppp.Clock.Civil.days_before_year newppp.Clock.Civil.days_before_month
epoch = refl

seconds_since :
    (year month day h mi sec : ℕ)
    → 1 ≤ year
    → 1 ≤ month
    → month ≤ 12
    → 1 ≤ day
    → seconds year month day h mi sec
      ≡ (calendar_days year month day * 86400 + h * 3600 + mi * 60 + sec)
        ⊖ (calendar_days 1970 1 1 * 86400)
seconds_since year month day h mi sec y m n d =
    rw epoch (seconds-calendar year month day h mi sec y m n d)

-- The time of day, read from its three words.
record IsTime (year month day : ℕ) (hms : List (List ℕ)) (ts : ℤ) : Type 0 where
  a : List ℕ
  b : List ℕ
  c : List ℕ
  split : hms ≡ a ∷ b ∷ c ∷ []
  h : ℕ
  mi : ℕ
  sec : ℕ
  h_read : (parse_i64 a ≡ some (pos h)) × (0 ≤ h) × (h ≤ 23)
  mi_read : (parse_i64 b ≡ some (pos mi)) × (0 ≤ mi) × (mi ≤ 59)
  sec_read : (parse_i64 c ≡ some (pos sec)) × (0 ≤ sec) × (sec ≤ 60)
  computed : seconds year month day h mi sec ≡ ts

time_of-IsTime :
    (year month day : ℕ) (hms : List (List ℕ)) (ts : ℤ)
    → time_of year month day hms ≡ some ts
    → IsTime year month day hms ts
time_of-IsTime year month day [] ts e = absurd (cc e)
time_of-IsTime year month day (a ∷ []) ts e = absurd (cc e)
time_of-IsTime year month day (a ∷ b ∷ []) ts e = absurd (cc e)
time_of-IsTime year month day (a ∷ b ∷ c ∷ x ∷ more) ts e = absurd (cc e)
time_of-IsTime year month day (a ∷ b ∷ c ∷ []) ts e =
    let (h, has_h, e1) = >>=-eq-some (in_range 0 23 (parse_i64 a)) _ e in
    let (mi, has_mi, e2) = >>=-eq-some (in_range 0 59 (parse_i64 b)) _ e1 in
    let (sec, has_sec, e3) = >>=-eq-some (in_range 0 60 (parse_i64 c)) _ e2 in
    record {
      a = a;
      b = b;
      c = c;
      split = refl;
      h = h;
      mi = mi;
      sec = sec;
      h_read = in_range-read 0 23 h (parse_i64 a) has_h;
      mi_read = in_range-read 0 59 mi (parse_i64 b) has_mi;
      sec_read = in_range-read 0 60 sec (parse_i64 c) has_sec;
      computed = cc e3;
    }

date_of-IsDate :
    (s : List ℕ) (t : List (List ℕ)) (ts : ℤ)
    → split_words s ≡ t
    → date_of t ≡ some ts
    → IsDate s ts
unfolding date_of
date_of-IsDate s [] ts w e = absurd (cc e)
date_of-IsDate s (t0 ∷ []) ts w e = absurd (cc e)
date_of-IsDate s (t0 ∷ t1 ∷ []) ts w e = absurd (cc e)
date_of-IsDate s (t0 ∷ t1 ∷ t2 ∷ []) ts w e = absurd (cc e)
date_of-IsDate s (t0 ∷ t1 ∷ t2 ∷ t3 ∷ []) ts w e = absurd (cc e)
date_of-IsDate s (t0 ∷ t1 ∷ t2 ∷ t3 ∷ t4 ∷ []) ts w e = absurd (cc e)
date_of-IsDate s (t0 ∷ t1 ∷ t2 ∷ t3 ∷ t4 ∷ t5 ∷ more) ts w e =
    elim (Bool-cases (ends_with b',' t0)) [
      | inr no_comma ↦ absurd (cc (rw no_comma at e))
      | inl comma ↦
          let (day, has_day, e1) = >>=-eq-some (in_range 1 31 (parse_i64 t1)) _ (rw comma at e) in
          let (month, has_month, e2) = >>=-eq-some (find_month t2 months) _ e1 in
          let (year, has_year, e3) = >>=-eq-some (in_range 1 9999 (parse_i64 t3)) _ e2 in
          let t = time_of-IsTime year month day (split_all b':' t4) ts e3 in
          let named = find_month-names t2 month has_month in
          let (low, high) = names-bounds t2 month named in
          let day_read = in_range-read 1 31 day (parse_i64 t1) has_day in
          let year_read = in_range-read 1 9999 year (parse_i64 t3) has_year in
          record {
            weekday = t0;
            day_word = t1;
            month_word = t2;
            year_word = t3;
            time_word = t4;
            zone = t5;
            more = more;
            words = w;
            comma = comma;
            h_word = t.a;
            mi_word = t.b;
            sec_word = t.c;
            times = t.split;
            year = year;
            month = month;
            day = day;
            h = t.h;
            mi = t.mi;
            sec = t.sec;
            year_read = year_read;
            month_read = named;
            day_read = day_read;
            h_read = t.h_read;
            mi_read = t.mi_read;
            sec_read = t.sec_read;
            counted =
                sym t.computed
                ∙ seconds_since year month day t.h t.mi t.sec year_read.1 low high day_read.1;
          }
    ]

IsDate-date_of : (s : List ℕ) (ts : ℤ) → IsDate s ts → parse_http_date s ≡ some ts
unfolding parse_http_date date_of
IsDate-date_of s ts d =
    let (low, high) = names-bounds d.month_word d.month d.month_read in
    let stamp : seconds d.year d.month d.day d.h d.mi d.sec ≡ ts =
      seconds_since d.year d.month d.day d.h d.mi d.sec d.year_read.1 low high d.day_read.1
      ∙ sym d.counted in
    rw
      (
        d.words,
        d.comma,
        in_range-within 1 31 d.day (parse_i64 d.day_word) d.day_read.0 d.day_read.1 d.day_read.2,
        names-find_month d.month_word d.month d.month_read,
        in_range-within 1 9999 d.year (parse_i64 d.year_word) d.year_read.0 d.year_read.1
            d.year_read.2,
        d.times,
        in_range-within 0 23 d.h (parse_i64 d.h_word) d.h_read.0 d.h_read.1 d.h_read.2,
        in_range-within 0 59 d.mi (parse_i64 d.mi_word) d.mi_read.0 d.mi_read.1 d.mi_read.2,
        in_range-within 0 60 d.sec (parse_i64 d.sec_word) d.sec_read.0 d.sec_read.1 d.sec_read.2,
      )
      (ap some stamp)

-- `parse_http_date` answers a time stamp exactly if the text writes a date out: six words or more, of
-- which the first ends in a comma and the next four are a day of 1 to 31, the name of a month, a year of
-- 1 to 9999, and a time of day in three numbers; and the time stamp is then, by the calendar, the number of seconds
-- from the start of 1970 to the date and time with these fields.
pub parse_http_date-IsDate : (s : List ℕ) (ts : ℤ) → (parse_http_date s ≡ some ts) ↔ IsDate s ts
unfolding parse_http_date
parse_http_date-IsDate s ts =
    (λ e. date_of-IsDate s (split_words s) ts refl e, λ d. IsDate-date_of s ts d)

-- After a calibration against a date from 1970 on, the clock shows this date, and goes on from there as
-- the system's clock does.
pub now_unix-offset_of :
    (date : List ℕ) (sys n k : ℕ) (off : ℤ)
    → parse_http_date date ≡ some (pos n)
    → offset_of date sys ≡ some off
    → now_unix (sys + k) off ≡ n + k
unfolding now_unix offset_of
now_unix-offset_of date sys n k off is_date e =
    let (server, found, e1) = >>=-eq-some (parse_http_date date) _ e in
    let same : server ≡ pos n = cc (found, is_date) in
    let offset : minus (pos n) sys ≡ off = cc (e1, same) in rw (← offset, plus-minus n sys k) refl
