-- ===== src/Gateway/Response.antt =====
-- internal/gateway/handler.go: what a response of the upstream says of its account, as a report for
-- the pool. readQuotaMetric, parseQuotaReset and the loop of quotaResetFromHeaders are, line by
-- line, the functions of internal/accounts/http_feedback.go, whose model is used here.
pub mod Challenge
use Prim.Native.String.{◌++◌}
use grok_go.Base.{
  ℕ, String, Bool, true, false, Option, none, some, List, [], ◌∷◌, ◌==◌, ◌||◌, ◌&&◌, not, eqb,
  if◌then◌else◌,
}
use grok_go.Base.Int.{ℤ, pos, ltb_ℤ, leb_ℤ}
use grok_go.Base.Text.{codes, to_lower, trim_space, lowers_to}
use grok_go.Base.Result.{Error, external, wrap}
use grok_go.Domain.{Duration, QuotaSnapshot, Time, after, sub_time}
use grok_go.Accounts.Pool.{Feedback, RequestError, deadline_exceeded, canceled, transport}
use grok_go.Accounts.HttpFeedback.{
  Header, TimeParsers, read_metric, read_resets, amount_of, says_unlimited, is_seen,
}
use grok_go.ApiKey.Windows.{format_int}

-- upstream.Response without its events, which only the forwarding of streams reads.
pub record Response : Type 0 where
  pub status_code : ℕ
  pub header : Header
  pub body : String

-- Whether a list of code points begins with another, and whether it holds it.
abbrev pub has_prefix : List ℕ → List ℕ → Bool
has_prefix text [] = true
has_prefix [] (c ∷ start) = false
has_prefix (d ∷ text) (c ∷ start) = eqb d c && has_prefix text start

abbrev pub holds : List ℕ → List ℕ → Bool
holds [] part = has_prefix [] part
holds (d ∷ text) part = has_prefix (d ∷ text) part || holds text part

abbrev lower_holds : String → String → Bool
lower_holds text part = holds (to_lower text) (codes part)

-- isUpstreamProtectionChallenge; no letter of "challenge" has cases outside ASCII.
unfoldable pub is_upstream_protection_challenge : Response → Bool
unfolding to_lower trim_space
is_upstream_protection_challenge response =
    if not (eqb response.status_code 403)
    then false
    else if lowers_to (trim_space (response.header "CF-Mitigated")) "challenge"
    then true
    else if lower_holds response.body "challenges.cloudflare.com"
        || lower_holds response.body "cf-chl-"
        || lower_holds response.body "<title>just a moment...</title>"
    then true
    else if not (lower_holds (response.header "Server") "cloudflare")
    then false
    else (let trimmed = to_lower (trim_space response.body) in
        lower_holds (response.header "Content-Type") "text/html"
        || has_prefix trimmed (codes "<!doctype html")
        || has_prefix trimmed (codes "<html"))

-- What json.Unmarshal finds in a body that it reads as an object: the text under "message", empty
-- if there is none, and that of the object under "error", if there is one.
pub record JsonBody : Type 0 where
  pub message : String
  pub nested_message : Option String

abbrev first_text : String → Option String → String → String
first_text direct nested fallback =
    if not (direct == "")
    then direct
    else elim nested [ none ↦ fallback | some text ↦ if not (text == "") then text else fallback ]

-- upstreamErrorMessage on a response that is there.
unfoldable pub upstream_error_message : (String → Option JsonBody) → Response → String
unfolding is_upstream_protection_challenge format_int trim_space
upstream_error_message read_json response =
    if is_upstream_protection_challenge response
    then "upstream protection challenge returned HTTP "
      ++ (format_int (pos response.status_code) ++ "; check the account proxy and retry")
    else if not (response.body == "")
    then elim (read_json response.body) [
      | none ↦ trim_space response.body
      | some found ↦ first_text found.message found.nested_message (trim_space response.body)
    ]
    else "upstream returned status " ++ format_int (pos response.status_code)

-- retryAfter
unfoldable pub retry_after : TimeParsers → Header → Time → Duration
unfolding trim_space
retry_after parsers header now =
    let value = trim_space (header "Retry-After") in
    if value == "" then pos 0 else elim (parsers.parse_duration (value ++ "s")) [
      | some seconds ↦ seconds
      | none ↦ elim (parsers.parse_http_time value) [
        | some deadline ↦ sub_time deadline now
        | none ↦ pos 0
      ]
    ]

abbrev first_reset : Option Time → Option Time → Option Time
first_reset none fallback = fallback
first_reset (some t) fallback = some t

-- laterReset: the left one only where it is strictly later.
abbrev later_of_resets : Option Time → Option Time → Option Time
later_of_resets none right = right
later_of_resets (some s) none = some s
later_of_resets (some s) (some t) = some (if after s t then s else t)

abbrev is_exhausted : Bool → ℤ → ℤ → Bool
is_exhausted unlimited limit remaining =
    not unlimited && ltb_ℤ (pos 0) limit && leb_ℤ remaining (pos 0)

-- The reset of the amounts that are used up, or the latest of all.
abbrev reset_of_exhausted : Bool → Bool → Option Time → Option Time → Option Time → Option Time
reset_of_exhausted true true requests tokens common =
    later_of_resets (first_reset requests common) (first_reset tokens common)
reset_of_exhausted true false requests tokens common = first_reset requests common
reset_of_exhausted false true requests tokens common = first_reset tokens common
reset_of_exhausted false false requests tokens common =
    later_of_resets (later_of_resets requests tokens) common

-- quotaFromHeaders
unfoldable pub quota_from_headers : TimeParsers → Header → Time → Option QuotaSnapshot
unfolding read_metric read_resets
quota_from_headers parsers header observed_at =
    let limit = read_metric header true ("X-RateLimit-Limit-Requests" ∷ "RateLimit-Limit" ∷ []) in
    let remaining =
      read_metric header false ("X-RateLimit-Remaining-Requests" ∷ "RateLimit-Remaining" ∷ []) in
    let token_limit = read_metric header true ("X-RateLimit-Limit-Tokens" ∷ []) in
    let token_remaining = read_metric header false ("X-RateLimit-Remaining-Tokens" ∷ []) in
    let (request_seen, request_reset) =
      read_resets parsers header observed_at ("X-RateLimit-Reset-Requests" ∷ []) false none in
    let (token_seen, token_reset) =
      read_resets parsers header observed_at ("X-RateLimit-Reset-Tokens" ∷ []) false none in
    let (common_seen, common_reset) =
      read_resets parsers header observed_at ("X-RateLimit-Reset" ∷ "RateLimit-Reset" ∷ []) false
        none in
    let seen =
      is_seen limit
      || is_seen remaining
      || is_seen token_limit
      || is_seen token_remaining
      || request_seen
      || token_seen
      || common_seen in
    let requests_out =
      is_exhausted (says_unlimited limit) (amount_of limit) (amount_of remaining) in
    let tokens_out =
      is_exhausted (says_unlimited token_limit) (amount_of token_limit)
        (amount_of token_remaining) in
    if not seen
    then none
    else some (record {
      requests_limit = amount_of limit;
      requests_remaining = amount_of remaining;
      requests_unlimited = says_unlimited limit;
      tokens_limit = amount_of token_limit;
      tokens_remaining = amount_of token_remaining;
      tokens_unlimited = says_unlimited token_limit;
      reset_at = reset_of_exhausted requests_out tokens_out request_reset token_reset common_reset;
      observed_at = observed_at;
    })

-- How the pool sees an error: errors.Is with the two errors of a context.
abbrev pub request_error_of : Error → RequestError
request_error_of (external text) =
    if text == "context deadline exceeded"
    then deadline_exceeded
    else if text == "context canceled"
    then canceled
    else transport
request_error_of (wrap text e) = request_error_of e
request_error_of _ = transport

-- feedbackFromResponse on a response that is there; `now` and `second` are what time.Now
-- answers the two calls of it.
unfoldable pub feedback_from_response : TimeParsers → Response → Error → Time → Time → Feedback
unfolding is_upstream_protection_challenge retry_after quota_from_headers
feedback_from_response parsers response e now second =
    let challenge = is_upstream_protection_challenge response in
    record {
      status_code = if challenge then 0 else response.status_code;
      retry_after = retry_after parsers response.header now;
      quota = quota_from_headers parsers response.header second;
      request_error = some (if challenge then transport else request_error_of e);
    }
