-- ===== src/Clock.antt =====
-- src/clock.rs: the clock that is calibrated from the `Date` header of an HTTP answer. The system's
-- clock is an argument, in seconds; the offset is the state. The query itself is input and output.
use newppp.Prelude.{
  ℕ, zero, suc, ◌+◌, ◌-◌, ◌*◌, ◌/◌, ◌%◌, ◌^◌, ◌≡◌, Bool, true, false, not, leb, ltb, ◌==◌, ◌&&◌,
  ◌||◌, if◌then◌else◌, List, [], ◌∷◌, Option, none, some, bytes_eq,
}
use newppp.Prelude.Int.{ℤ, pos, negsuc, ◌⊖◌, plus, minus, scale}
use newppp.Prelude.Text.{
  text, split_words, split_all, strip_prefix, split_once, parse_digits, ends_with,
}
use newppp.Prelude.Options.{◌>>=◌}
pub mod Civil
pub mod Months
pub mod Date
pub mod Url
mod Examples

-- `now_unix`: the system's clock and the offset, but not below 0.
abbrev at_least_zero : ℤ → ℕ
at_least_zero (pos n) = n
at_least_zero (negsuc n) = 0

unfoldable pub now_unix : ℕ → ℤ → ℕ
now_unix sys off = at_least_zero (plus off sys)

-- `str::parse::<i64>`: a sign or none, and digits.
signed : Bool → Option ℕ → Option ℤ
signed minus_sign none = none
signed true (some n) = if leb n (2 ^ 63) then some (0 ⊖ n) else none
signed false (some n) = if ltb n (2 ^ 63) then some (pos n) else none

unfoldable pub parse_i64 : List ℕ → Option ℤ
unfolding signed
parse_i64 [] = none
parse_i64 (c ∷ s) =
    if c == b'-'
    then signed true (parse_digits s)
    else if c == b'+'
    then signed false (parse_digits s)
    else signed false (parse_digits (c ∷ s))

-- `(lo..=hi).contains(&n)`, and then the number.
unfoldable pub in_range : ℕ → ℕ → Option ℤ → Option ℕ
in_range lo hi none = none
in_range lo hi (some (negsuc n)) = none
in_range lo hi (some (pos n)) = if leb lo n && leb n hi then some n else none

abbrev pub months : List (List ℕ × ℕ)
months =
    (text "Jan", 1)
    ∷ (text "Feb", 2)
    ∷ (text "Mar", 3)
    ∷ (text "Apr", 4)
    ∷ (text "May", 5)
    ∷ (text "Jun", 6)
    ∷ (text "Jul", 7)
    ∷ (text "Aug", 8)
    ∷ (text "Sep", 9)
    ∷ (text "Oct", 10)
    ∷ (text "Nov", 11)
    ∷ (text "Dec", 12)
    ∷ []

unfoldable pub find_month : List ℕ → List (List ℕ × ℕ) → Option ℕ
find_month t [] = none
find_month t ((m, n) ∷ ms) = if bytes_eq m t then some n else find_month t ms

-- Days since 1 March of the year 0. The year is at least 1 and the day too, so nothing stops at 0, and
-- the case `y < 0` does not arise.
unfoldable pub civil_days : ℕ → ℕ → ℕ → ℕ
civil_days year month day =
    let y = if leb month 2 then year - 1 else year in
    let era = y / 400 in
    let yoe = y - era * 400 in
    let mp = (month + 9) % 12 in
    let doy = (153 * mp + 2) / 5 + day - 1 in
    let doe = yoe * 365 + yoe / 4 - yoe / 100 + doy in era * 146097 + doe

unfoldable pub seconds : ℕ → ℕ → ℕ → ℕ → ℕ → ℕ → ℤ
seconds year month day h mi sec =
    plus (plus (plus (scale (civil_days year month day ⊖ 719468) 86400) (h * 3600)) (mi * 60)) sec

abbrev pub time_of : ℕ → ℕ → ℕ → List (List ℕ) → Option ℤ
time_of year month day (a ∷ b ∷ c ∷ []) = do
  h ← in_range 0 23 (parse_i64 a)
  mi ← in_range 0 59 (parse_i64 b)
  sec ← in_range 0 60 (parse_i64 c)
  some (seconds year month day h mi sec)
time_of year month day _ = none

unfoldable pub date_of : List (List ℕ) → Option ℤ
date_of (t0 ∷ t1 ∷ t2 ∷ t3 ∷ t4 ∷ t5 ∷ more) = if not (ends_with b',' t0) then none else (do
  day ← in_range 1 31 (parse_i64 t1)
  month ← find_month t2 months
  year ← in_range 1 9999 (parse_i64 t3)
  time_of year month day (split_all b':' t4))
date_of _ = none

unfoldable pub parse_http_date : List ℕ → Option ℤ
parse_http_date s = date_of (split_words s)

-- The end of `http_date_query`: the server's time against the system's.
unfoldable pub offset_of : List ℕ → ℕ → Option ℤ
offset_of date sys = do server ← parse_http_date date; some (minus server sys)
