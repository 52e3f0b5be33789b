-- ===== src/Accounts/HttpFeedback/Quota.antt =====
-- The quota that is read from the headers: its amounts are not negative, and its reset is the
-- latest.
use grok_go.Base.{
  Holds, ◌&&◌, ◌≤◌, String, Bool, true, false, ◌==◌, not, ◌||◌, Option, none, some, List, [], ◌∷◌,
  arith, if_cases, All, if◌then◌else◌, option_cases,
}
use grok_go.Base.Int.{pos, ◌≤ℤ◌}
use grok_go.Base.Text.{parse_int, trim_space}
use grok_go.Domain.{QuotaSnapshot, Time}
use grok_go.Accounts.HttpFeedback.{
  is_seen, quota_of, Header, Metric, TimeParsers, amount_of, is_unlimited_word, later_reset,
  parse_reset, quota_from_http_headers, read_metric, read_resets, reset_headers,
}

-- The amounts of a quota, none of them below zero.
pub record IsNonNegative (q : QuotaSnapshot) : Type 0 where
  pub limit : pos 0 ≤ℤ q.requests_limit
  pub remaining : pos 0 ≤ℤ q.requests_remaining
  pub token_limit : pos 0 ≤ℤ q.tokens_limit
  pub token_remaining : pos 0 ≤ℤ q.tokens_remaining

record IsCounted (m : Metric) : Type 0 where
  counted : pos 0 ≤ℤ amount_of m

read_metric-IsCounted :
    (header : Header) (may : Bool) (names : List String) → IsCounted (read_metric header may names)
unfolding read_metric
read_metric-IsCounted header may [] = record { counted = omega arith }
read_metric-IsCounted header may (name ∷ names) =
    let value = trim_space (header name) in
    if_cases IsCounted (value == "") _ _ (λ _. read_metric-IsCounted header may names)
      (λ _.
        if_cases IsCounted (may && is_unlimited_word value) _ _
          (λ _. record { counted = omega arith })
          (λ _.
            option_cases IsCounted (parse_int value) _ _ (λ _. record { counted = omega arith })
              (λ n _. record { counted = ground arith })))

quota_of-IsNonNegative :
    (limit remaining token_limit token_remaining : Metric) (reset : Option Time)
    (observed_at : Time)
    → IsCounted limit
    → IsCounted remaining
    → IsCounted token_limit
    → IsCounted token_remaining
    → IsNonNegative (quota_of limit remaining token_limit token_remaining reset observed_at)
quota_of-IsNonNegative limit remaining token_limit token_remaining reset observed_at a b c d =
    record {
      limit = a.counted;
      remaining = b.counted;
      token_limit = c.counted;
      token_remaining = d.counted;
    }

Holds-guarded :
    (absent_all : Bool) (q : QuotaSnapshot)
    → IsNonNegative q
    → Holds IsNonNegative (if absent_all then none else some q)
Holds-guarded true q h = tt
Holds-guarded false q h = h

-- However the headers read, no amount of a quota taken from them is negative.
pub quota_from_http_headers-IsNonNegative :
    (parsers : TimeParsers) (header : Header) (observed_at : Time)
    → Holds IsNonNegative (quota_from_http_headers parsers header observed_at)
unfolding quota_from_http_headers
quota_from_http_headers-IsNonNegative parsers header observed_at =
    let requests = "X-RateLimit-Limit-Requests" ∷ "RateLimit-Limit" ∷ [] in
    let left = "X-RateLimit-Remaining-Requests" ∷ "RateLimit-Remaining" ∷ [] in
    let tokens = "X-RateLimit-Limit-Tokens" ∷ [] in
    let tokens_left = "X-RateLimit-Remaining-Tokens" ∷ [] in
    let limit = read_metric header true requests in
    let remaining = read_metric header false left in
    let token_limit = read_metric header true tokens in
    let token_remaining = read_metric header false tokens_left in
    let found =
      read_resets parsers header observed_at reset_headers
        (is_seen limit || is_seen remaining || is_seen token_limit || is_seen token_remaining)
        none in
    Holds-guarded (not found.0)
      (quota_of limit remaining token_limit token_remaining found.1 observed_at)
      (quota_of-IsNonNegative limit remaining token_limit token_remaining found.1 observed_at
        (read_metric-IsCounted header true requests) (read_metric-IsCounted header false left)
        (read_metric-IsCounted header true tokens) (read_metric-IsCounted header false tokens_left))

-- A reset that is known bounds another one.
abbrev pub IsReached : Option Time → Option Time → Type 0
IsReached none kept = Unit
IsReached (some t) none = ⊥
IsReached (some t) (some kept) = t ≤ kept

-- What one header says.
abbrev pub reset_of : TimeParsers → Header → Time → String → Option Time
reset_of parsers header now name =
    if trim_space (header name) == ""
    then none
    else parse_reset parsers (trim_space (header name)) now

IsReached-trans : (o p q : Option Time) → IsReached o p → IsReached p q → IsReached o q
IsReached-trans none p q h k = tt
IsReached-trans (some a) none q h k = absurd h
IsReached-trans (some a) (some b) none h k = absurd k
IsReached-trans (some a) (some b) (some c) h k = omega (arith, h, k)

later_reset_reaches :
    (known o : Option Time)
    → IsReached known (later_reset known o) × IsReached o (later_reset known o)
later_reset_reaches none none = (tt, tt)
later_reset_reaches (some s) none = (omega arith, tt)
later_reset_reaches none (some t) = (tt, omega arith)
later_reset_reaches (some s) (some t) = (ground arith, ground arith)

IsReached-refl : (o : Option Time) → IsReached o o
IsReached-refl none = tt
IsReached-refl (some t) = omega arith

next_reaches :
    (empty : Bool) (known given : Option Time)
    → let next = if empty then known else later_reset known given in
      IsReached known next × IsReached (if empty then none else given) next
next_reaches true known given = (IsReached-refl known, tt)
next_reaches false known given = later_reset_reaches known given

read_resets_reaches :
    (parsers : TimeParsers) (header : Header) (now : Time) (names : List String) (seen : Bool)
    (known : Option Time)
    → let kept = (read_resets parsers header now names seen known).1 in
      IsReached known kept × All (λ name. IsReached (reset_of parsers header now name) kept) names
unfolding read_resets
read_resets_reaches parsers header now [] seen none = (tt, tt)
read_resets_reaches parsers header now [] seen (some t) = (omega arith, tt)
read_resets_reaches parsers header now (name ∷ names) seen known =
    let value = trim_space (header name) in
    let o = reset_of parsers header now name in
    let next = if value == "" then known else later_reset known (parse_reset parsers value now) in
    let kept = read_resets parsers header now names (seen || not (value == "")) next in
    let both : IsReached known next × IsReached o next =
      next_reaches (value == "") known (parse_reset parsers value now) in
    let ih = read_resets_reaches parsers header now names (seen || not (value == "")) next in
    (
      IsReached-trans known next kept.1 both.0 ih.0,
      (IsReached-trans o next kept.1 both.1 ih.0, ih.1),
    )

-- No reset that one of the headers gives is later than the one that is kept.
pub read_resets_latest :
    (parsers : TimeParsers) (header : Header) (now : Time) (seen : Bool)
    → All
        (λ name.
          IsReached
            (reset_of parsers header now name)
            (read_resets parsers header now reset_headers seen none).1)
        reset_headers
read_resets_latest parsers header now seen =
    (read_resets_reaches parsers header now reset_headers seen none).1
