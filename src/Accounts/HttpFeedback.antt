-- ===== src/Accounts/HttpFeedback.antt =====
-- internal/accounts/http_feedback.go: what the headers of a response say of the account's quota.
-- `Get` of http.Header is a function of the name, and the parsers of instants are parameters.
pub mod Quota
use grok_go.Base.{
  ℕ, ◌+◌, ◌*◌, ◌||◌, ◌&&◌, not, ◌==◌, String, Bool, true, false, Option, none, some, List, [], ◌∷◌,
  if◌then◌else◌, is_some,
}
use grok_go.Base.Int.{ℤ, pos, ltb_ℤ, ◌*ℤ◌, wrap64}
use grok_go.Base.Text.{lowers_to, parse_int, trim_space}
use grok_go.Domain.{Duration, QuotaSnapshot, Time, add_time, after, is_zero, second, sub_time}
use grok_go.Accounts.Pool.{Feedback, RequestError}

abbrev pub Header : Type 0
Header = String → String

-- time.ParseDuration, http.ParseTime, and time.Parse for RFC 3339.
pub record TimeParsers : Type 0 where
  pub parse_duration : String → Option Duration
  pub parse_http_time : String → Option Time
  pub parse_rfc3339 : String → Option Time

-- time.Duration(seconds) * time.Second, and time.Unix(seconds, 0).
abbrev pub of_seconds : ℤ → Duration
of_seconds n = wrap64 (n *ℤ pos second)

abbrev pub of_unix : ℤ → Time
of_unix n = add_time (62_135_596_800 * second) (n *ℤ pos second)

unfoldable pub positive_number : String → Option ℤ
positive_number value = elim (parse_int value) [
  | none ↦ none
  | some n ↦ if ltb_ℤ (pos 0) n then some n else none
]

unfoldable pub retry_after_header : TimeParsers → Header → Time → Duration
unfolding positive_number
retry_after_header parsers header now =
    let value = trim_space (header "Retry-After") in
    if value == "" then pos 0 else elim (positive_number value) [
      | some seconds ↦ of_seconds seconds
      | none ↦ elim (parsers.parse_http_time value) [
        | some deadline ↦ if after deadline now then sub_time deadline now else pos 0
        | none ↦ pos 0
      ]
    ]

-- What the first header of a list that is not empty says; an unreadable number counts as seen.
pub data Metric : Type 0 where
  absent unlimited unreadable : Metric
  amount : ℤ → Metric

abbrev pub is_unlimited_word : String → Bool
is_unlimited_word value =
    lowers_to value "unlimited" || lowers_to value "infinite" || lowers_to value "inf"

abbrev pub non_negative : ℤ → ℤ
non_negative n = if ltb_ℤ n (pos 0) then pos 0 else n

-- readHTTPQuotaMetric; `may` says that the caller has a place for the word.
unfoldable pub read_metric : Header → Bool → List String → Metric
read_metric header may [] = absent
read_metric header may (name ∷ names) =
    let value = trim_space (header name) in
    let rest = read_metric header may names in
    if value == ""
    then rest
    else if may && is_unlimited_word value
    then unlimited
    else elim (parse_int value) [ none ↦ unreadable | some n ↦ amount (non_negative n) ]

abbrev pub is_seen : Metric → Bool
is_seen absent = false
is_seen _ = true

-- The variable that a reading leaves, from its zero value.
abbrev pub amount_of : Metric → ℤ
amount_of (amount n) = n
amount_of _ = pos 0

abbrev pub says_unlimited : Metric → Bool
says_unlimited unlimited = true
says_unlimited _ = false

unfoldable pub parse_reset : TimeParsers → String → Time → Option Time
parse_reset parsers value now = elim (parsers.parse_duration value) [
  | some d ↦ some (add_time now d)
  | none ↦ elim (parse_int value) [
    | some n ↦ some (if ltb_ℤ (pos 1_000_000_000) n then of_unix n else add_time now (of_seconds n))
    | none ↦ elim (parsers.parse_http_time value) [
      | some t ↦ some t
      | none ↦ parsers.parse_rfc3339 value
    ]
  ]
]

-- The later of the resets that are known.
abbrev pub later_reset : Option Time → Option Time → Option Time
later_reset known none = known
later_reset none (some t) = some t
later_reset (some s) (some t) = some (if after t s then t else s)

-- The loop over the headers of resets: whether one was seen, and the latest one.
unfoldable pub read_resets :
    TimeParsers → Header → Time → List String → Bool → Option Time → Bool × Option Time
unfolding parse_reset
read_resets parsers header now [] seen known = (seen, known)
read_resets parsers header now (name ∷ names) seen known =
    let value = trim_space (header name) in
    let empty = value == "" in
    read_resets parsers header now names (seen || not empty)
      (if empty then known else later_reset known (parse_reset parsers value now))

abbrev pub reset_headers : List String
reset_headers =
    "X-RateLimit-Reset-Requests" ∷ "X-RateLimit-Reset-Tokens" ∷ "X-RateLimit-Reset"
    ∷ "RateLimit-Reset" ∷ []

abbrev pub quota_of : Metric → Metric → Metric → Metric → Option Time → Time → QuotaSnapshot
quota_of limit remaining token_limit token_remaining reset observed_at = record {
  requests_limit = amount_of limit;
  requests_remaining = amount_of remaining;
  requests_unlimited = says_unlimited limit;
  tokens_limit = amount_of token_limit;
  tokens_remaining = amount_of token_remaining;
  tokens_unlimited = says_unlimited token_limit;
  reset_at = reset;
  observed_at = observed_at;
}

unfoldable pub quota_from_http_headers : TimeParsers → Header → Time → Option QuotaSnapshot
unfolding read_metric read_resets
quota_from_http_headers parsers header observed_at =
    let limit = read_metric header true ("X-RateLimit-Limit-Requests" ∷ "RateLimit-Limit" ∷ []) in
    let remaining =
      read_metric header false ("X-RateLimit-Remaining-Requests" ∷ "RateLimit-Remaining" ∷ []) in
    let token_limit = read_metric header true ("X-RateLimit-Limit-Tokens" ∷ []) in
    let token_remaining = read_metric header false ("X-RateLimit-Remaining-Tokens" ∷ []) in
    let metrics =
      is_seen limit || is_seen remaining || is_seen token_limit || is_seen token_remaining in
    let (seen, reset) = read_resets parsers header observed_at reset_headers metrics none in
    if not seen
    then none
    else some (quota_of limit remaining token_limit token_remaining reset observed_at)

-- HTTPFeedback; `now` is what time.Now answers.
unfoldable pub http_feedback :
    TimeParsers → ℕ → Header → Option RequestError → Time → Time → Feedback
unfolding retry_after_header quota_from_http_headers
http_feedback parsers status header failed observed_at now =
    let at = if is_zero observed_at then now else observed_at in
    record {
      status_code = status;
      retry_after = retry_after_header parsers header at;
      quota = quota_from_http_headers parsers header at;
      request_error = failed;
    }
