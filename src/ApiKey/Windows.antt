-- ===== src/ApiKey/Windows.antt =====
-- internal/apikey/middleware.go: the keys and lifetimes of the windows in which the requests and
-- tokens of a client key are counted. Months follow Go's calendar, which is the Gregorian one
-- without end, counted from 1 January of the year 1, the zero time.
pub mod Calendar
use Prim.Native.String.{◌++◌}
use grok_go.Base.{
  ℕ, zero, suc, ◌+◌, ◌-◌, ◌*◌, ◌/◌, ◌%◌, String, Bool, List, [], ◌∷◌, ◌&&◌, ◌||◌, not, ltb, eqb,
  if◌then◌else◌,
}
use grok_go.Base.Int.{ℤ, pos, negsuc, ◌+ℤ◌, wrap64}
use grok_go.Domain.{Duration, Time, hour, minute, second, sub_time}
use grok_go.Accounts.Message.{itoa}

-- An integer in decimal, as fmt prints an int64.
unfoldable pub format_int : ℤ → String
unfolding itoa
format_int (pos n) = itoa n
format_int (negsuc n) = "-" ++ itoa (suc n)

abbrev pub day : ℕ
day = 86_400_000_000_000

-- t.Truncate(d), which counts from the zero time.
abbrev pub truncate : Time → ℕ → Time
truncate t d = t - t % d

-- t.Unix(), rounded down.
abbrev pub unix : Time → ℤ
unix t =
    if ltb (t / second) 62_135_596_800
    then negsuc (62_135_596_800 - t / second - 1)
    else pos (t / second - 62_135_596_800)

-- t.Second()
abbrev pub second_of : Time → ℕ
second_of t = t / second % 60

-- A year in which a day falls: the number of its first day, and whether it has a leap day.
pub record Year : Type 0 where
  pub first : ℕ
  pub leap : Bool

abbrev at_most : ℕ → ℕ → ℕ
at_most m n = if ltb m n then m else n

-- The year of a day, both counted from the zero time: cycles of 400, 100, 4 and 1 years.
unfoldable pub year_of : ℕ → Year
year_of d =
    let n400 = d / 146_097 in
    let d400 = d % 146_097 in
    let n100 = at_most 3 (d400 / 36_524) in
    let d100 = d400 - n100 * 36_524 in
    let n4 = d100 / 1_461 in
    let d4 = d100 % 1_461 in
    let n1 = at_most 3 (d4 / 365) in
    record {
      first = n400 * 146_097 + n100 * 36_524 + n4 * 1_461 + n1 * 365;
      leap = eqb n1 3 && (not (eqb n4 24) || eqb n100 3);
    }

abbrev pub month_lengths : Bool → List ℕ
month_lengths leap =
    31 ∷ (if leap then 29 else 28) ∷ 31 ∷ 30 ∷ 31 ∷ 30 ∷ 31 ∷ 31 ∷ 30 ∷ 31 ∷ 30 ∷ 31 ∷ []

-- The first day of the month of day `d`, and that of the next month, from the first day of a month
-- not after it and the lengths of the months that are left.
pub month_from : ℕ → List ℕ → ℕ → ℕ × ℕ
month_from first [] d = (first, first)
month_from first (size ∷ sizes) d =
    let later = month_from (first + size) sizes d in
    if ltb d (first + size) then (first, first + size) else later

-- time.Date(now.Year(), now.Month(), 1, ...) and that time with AddDate(0, 1, 0), as days.
unfoldable pub month_of : ℕ → ℕ × ℕ
unfolding year_of month_from
month_of d = let year = year_of d in month_from year.first (month_lengths year.leap) d

unfoldable pub month_start : Time → Time
unfolding month_of
month_start now = (month_of (now / day)).0 * day

unfoldable pub next_month : Time → Time
unfolding month_of
next_month now = (month_of (now / day)).1 * day

unfoldable pub rpm_key : String → Time → String
unfolding format_int
rpm_key id now = "key:" ++ (id ++ (":rpm:" ++ format_int (unix (truncate now minute))))

unfoldable pub day_key : String → Time → String
unfolding format_int
day_key id now = "key:" ++ (id ++ (":day:" ++ format_int (unix (truncate now day))))

unfoldable pub month_key : String → Time → String
unfolding format_int month_start
month_key id now = "key:" ++ (id ++ (":tokens:month:" ++ format_int (unix (month_start now))))

unfoldable pub month_ttl : Time → Duration
unfolding next_month
month_ttl now = wrap64 (sub_time (next_month now) now +ℤ pos hour)

-- monthlyTokenWindow
abbrev pub monthly_token_window : String → Time → String × Duration
monthly_token_window id now = (month_key id now, month_ttl now)

unfoldable pub slot_key : String → String
slot_key id = "key:" ++ (id ++ ":concurrency")
