-- ===== src/Clock/Examples.antt =====
-- Dates and URLs, as in the tests of src/clock.rs.
use newppp.Prelude.{◌↔◌, ℕ, ◌+◌, ◌≡◌, refl, false, List, none, some, arith}
use newppp.Prelude.Int.{pos, ◌⊖◌, plus, minus, scale}
use newppp.Prelude.Text.{text, split_words, split_all, ends_with, parse_digits}
use newppp.Proto.Error.{ok, err, bad_scheme}
use newppp.Clock.{
  parse_i64, in_range, find_month, civil_days, seconds, date_of, parse_http_date, offset_of,
}
use newppp.Clock.Civil.{calendar_days, civil_days-calendar_days}
use newppp.Clock.Date.{IsDate, parse_http_date-IsDate}
use newppp.Clock.Url.{split_path, rsplit_once, parse_url}

abbrev september : List ℕ
september = text "Sat, 12 Sep 2026 03:51:12 GMT"

september_is_read : parse_http_date september ≡ some (pos 1789185072)
unfolding parse_http_date date_of split_words split_all ends_with parse_digits parse_i64 in_range
    find_month civil_days seconds ◌⊖◌ plus scale
september_is_read = refl

parse_http_date-IsDate_example :
    (parse_http_date september ≡ some (pos 1789185072)) ↔ IsDate september (pos 1789185072)
parse_http_date-IsDate_example = parse_http_date-IsDate september (pos 1789185072)

september-IsDate : IsDate september (pos 1789185072)
september-IsDate = (parse_http_date-IsDate september (pos 1789185072)).0 september_is_read

civil_days-calendar_days_example : civil_days 2024 2 29 + 60 ≡ calendar_days 2024 2 29
civil_days-calendar_days_example =
    civil_days-calendar_days 2024 2 29 (omega arith) (omega arith) (omega arith) (omega arith)

the_offset : offset_of september 1789185000 ≡ some (pos 72)
unfolding offset_of parse_http_date date_of split_words split_all ends_with parse_digits parse_i64
    in_range find_month civil_days seconds ◌⊖◌ plus minus scale
the_offset = refl

too_late : parse_http_date (text "Thu, 01 Jan 10000 00:00:00 GMT") ≡ none
unfolding parse_http_date date_of split_words split_all ends_with parse_digits parse_i64 in_range
    find_month civil_days seconds ◌⊖◌ plus scale
too_late = refl

leap_second : parse_http_date (text "Thu, 01 Jan 1970 00:00:60 GMT") ≡ some (pos 60)
unfolding parse_http_date date_of split_words split_all ends_with parse_digits parse_i64 in_range
    find_month civil_days seconds ◌⊖◌ plus scale
leap_second = refl

with_a_port : parse_url (text "http://host:8080") ≡ ok (text "host", 8080, text "/", false)
unfolding parse_url split_path rsplit_once parse_digits
with_a_port = refl

another_scheme : parse_url (text "ftp://host") ≡ err bad_scheme
unfolding parse_url
another_scheme = refl
