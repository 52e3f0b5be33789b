-- ===== src/ApiKey/Windows/Calendar.antt =====
-- The windows of a client key: the month around an instant, the lifetime of its counter, and the
-- keys of the counters, which differ.
use Prim.Native.String.{◌++◌}
use Prim.Native.Char.{Char, code}
use text.Mathlib.TextLemmas.{append_cancel_left, cons-append}
use grok_go.Base.{
  ℕ, ◌+◌, ◌-◌, ◌*◌, ◌/◌, ◌≤◌, ◌<◌, Bool, true, false, List, [], ◌∷◌, arith, ltb, if_cases, ◌≡◌, ◌≢◌,
  ap, ◌∙◌, String,
}
use grok_go.Base.Int.{pos, ◌+ℤ◌, wrap64}
use grok_go.Domain.{Time, hour, sub_time}
use grok_go.ApiKey.Windows.{
  year_of, month_from, month_lengths, month_of, month_start, next_month, month_ttl, rpm_key,
  month_key, day_key, day,
}

abbrev sum : List ℕ → ℕ
sum [] = 0
sum (n ∷ ns) = n + sum ns

-- A month around day `d`, of at most 31 days.
pub record IsAround (d : ℕ) (m : ℕ × ℕ) : Type 0 where
  pub begins : m.0 ≤ d
  pub ends : d < m.1
  pub short : m.1 ≤ m.0 + 31

abbrev IsShort : List ℕ → Type 0
IsShort [] = Unit
IsShort (n ∷ ns) = (n ≤ 31) × IsShort ns

month_from-IsAround :
    (first d : ℕ) (sizes : List ℕ)
    → IsShort sizes
    → first ≤ d
    → d < first + sum sizes
    → IsAround d (month_from first sizes d)
unfolding month_from
month_from-IsAround first d [] short le lt = absurd (omega (arith, le, lt))
month_from-IsAround first d (size ∷ sizes) short le lt =
    if_cases (IsAround d) (ltb d (first + size)) _ _
      (λ here. record { begins = le; ends = ground (arith, here); short = omega (arith, short.0) })
      (λ later.
        month_from-IsAround (first + size) d sizes short.1 (ground (arith, later))
          (omega (arith, lt)))

year_of-begins : (d : ℕ) → (year_of d).first ≤ d
unfolding year_of
year_of-begins d = ground arith

year_of-ends : (d : ℕ) → d < (year_of d).first + sum (month_lengths (year_of d).leap)
unfolding year_of
year_of-ends d = ground arith

month_lengths-IsShort : (leap : Bool) → IsShort (month_lengths leap)
month_lengths-IsShort true = ground arith
month_lengths-IsShort false = ground arith

pub month_of-IsAround : (d : ℕ) → IsAround d (month_of d)
unfolding month_of
month_of-IsAround d =
    month_from-IsAround (year_of d).first d (month_lengths (year_of d).leap)
      (month_lengths-IsShort (year_of d).leap) (year_of-begins d) (year_of-ends d)

month_ttl_lem :
    (now next : Time)
    → now < next
    → next ≤ now + 31 * day
    → wrap64 (sub_time next now +ℤ pos hour) ≡ pos (next - now + hour)
unfolding sub_time wrap64 ◌+ℤ◌
month_ttl_lem now next lt short = ground (arith, lt, short)

-- The month of an instant begins no later than it and ends after it, and the counter of its tokens
-- lives past its end by an hour, which is at most 31 days and an hour away.
pub month_window :
    (now : Time)
    → (month_start now ≤ now)
      × (now < next_month now)
      × (month_ttl now ≡ pos (next_month now - now + hour))
      × (next_month now ≤ now + 31 * day)
unfolding month_start next_month month_ttl
month_window now =
    let around = month_of-IsAround (now / day) in
    let lt : now < (month_of (now / day)).1 * day = omega (arith, around.ends) in
    let short : (month_of (now / day)).1 * day ≤ now + 31 * day =
      omega (arith, around.begins, around.short) in
    (omega (arith, around.begins), lt, month_ttl_lem now _ lt short, short)

year_of_unique :
    (d e : ℕ)
    → (year_of d).first ≤ e
    → e < (year_of d).first + sum (month_lengths (year_of d).leap)
    → year_of e ≡ year_of d
unfolding year_of
year_of_unique d e le lt = ground arith

month_from_after : (first d : ℕ) (sizes : List ℕ) → first ≤ (month_from first sizes d).0
unfolding month_from
month_from_after first d [] = omega arith
month_from_after first d (size ∷ sizes) = ground (arith, month_from_after (first + size) d sizes)

month_from_before :
    (first d : ℕ) (sizes : List ℕ)
    → first ≤ d
    → d < first + sum sizes
    → (month_from first sizes d).1 ≤ first + sum sizes
unfolding month_from
month_from_before first d [] le lt = omega arith
month_from_before first d (size ∷ sizes) le lt =
    ground (arith, month_from_before (first + size) d sizes)

month_from_unique :
    (first d e : ℕ) (sizes : List ℕ)
    → first ≤ d
    → (month_from first sizes d).0 ≤ e
    → e < (month_from first sizes d).1
    → month_from first sizes e ≡ month_from first sizes d
unfolding month_from
month_from_unique first d e [] start le lt = absurd (omega (arith, le, lt))
month_from_unique first d e (size ∷ sizes) start le lt =
    ground
      (arith, month_from_after (first + size) d sizes, month_from_unique (first + size) d e sizes)

month_of_unique : (d e : ℕ) → (month_of d).0 ≤ e → e < (month_of d).1 → month_of e ≡ month_of d
unfolding month_of
month_of_unique d e le lt =
    let first = (year_of d).first in
    let sizes = month_lengths (year_of d).leap in
    let same =
      year_of_unique d e (omega (arith, month_from_after first d sizes, le))
        (omega (arith, month_from_before first d sizes (year_of-begins d) (year_of-ends d), lt)) in
    ap (λ year. month_from year.first (month_lengths year.leap) e) same
    ∙ month_from_unique first d e sizes (year_of-begins d) le lt

-- Every instant of a month has the window of that month.
pub month_unique :
    (now later : Time)
    → month_start now ≤ later
    → later < next_month now
    → (month_start later ≡ month_start now) × (next_month later ≡ next_month now)
unfolding month_start next_month
month_unique now later le lt =
    let same = month_of_unique (now / day) (later / day) (omega (arith, le)) (omega (arith, lt)) in
    (ground (arith, same), ground (arith, same))

second_letter : String → ℕ
second_letter (String.◌∷◌ _ (String.◌∷◌ letter _)) = code letter
second_letter _ = 0

second_letter-append :
    (a b : Char) (t x : String) → second_letter (String.◌∷◌ a (String.◌∷◌ b t) ++ x) ≡ code b
unfolding second_letter
second_letter-append a b t x =
    ap second_letter
      (cons-append a (String.◌∷◌ b t) x ∙ ap (λ rest. String.◌∷◌ a rest) (cons-append b t x))

second_letters :
    (x : String)
    → (second_letter (":rpm:" ++ x) ≡ b'r')
      × (second_letter (":day:" ++ x) ≡ b'd')
      × (second_letter (":tokens:month:" ++ x) ≡ b't')
second_letters x = (
  second_letter-append ":" "r" "pm:" x,
  second_letter-append ":" "d" "ay:" x,
  second_letter-append ":" "t" "okens:month:" x,
)

tags_apart :
    (x y : String)
    → (":rpm:" ++ x ≢ ":tokens:month:" ++ y)
      × (":day:" ++ x ≢ ":tokens:month:" ++ y)
      × (":rpm:" ++ x ≢ ":day:" ++ y)
tags_apart x y =
    let of_x = second_letters x in
    let of_y = second_letters y in
    (
      λ e. absurd (omega (arith, of_x, of_y, ap second_letter e)),
      λ e. absurd (omega (arith, of_x, of_y, ap second_letter e)),
      λ e. absurd (omega (arith, of_x, of_y, ap second_letter e)),
    )

after_id : (id x y : String) → "key:" ++ (id ++ x) ≡ "key:" ++ (id ++ y) → x ≡ y
after_id id x y e = append_cancel_left id x y (append_cancel_left "key:" (id ++ x) (id ++ y) e)

-- The three counters of a key are counted apart.
pub window_keys_apart :
    (id : String) (now then : Time)
    → (rpm_key id now ≢ month_key id then)
      × (day_key id now ≢ month_key id then)
      × (rpm_key id now ≢ day_key id then)
unfolding rpm_key month_key day_key
window_keys_apart id now then = (
  λ e. (tags_apart _ _).0 (after_id id _ _ e),
  λ e. (tags_apart _ _).1 (after_id id _ _ e),
  λ e. (tags_apart _ _).2 (after_id id _ _ e),
)
