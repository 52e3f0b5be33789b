-- ===== src/ApiKey/Handler.antt =====
-- internal/apikey/middleware.go: the handler that authenticates a client key, applies its limits,
-- serves the request and settles its tokens. The counter store, the authenticator and the handler
-- behind it act on a world; the context's values reach the latter as arguments.
pub mod Log
pub mod Limits
pub mod Orderly
pub mod Authorised
use grok_go.Base.{
  ℕ, ◌-◌, ◌*◌, String, Bool, true, false, Option, none, some, List, [], ◌∷◌, ◌++◌, ◌==◌,
  if◌then◌else◌,
}
use grok_go.Base.Int.{ℤ, pos, ltb_ℤ, leb_ℤ, ◌+ℤ◌, ◌-ℤ◌, wrap64}
use grok_go.Base.Result.{Error, Result, ok, err, external, wrap, join}
use grok_go.Domain.{ClientKey, Duration, Time, hour, minute}
use grok_go.ApiKey.{Completion, no_completion, at_least_zero, record_all, concurrency_slot_ttl}
use grok_go.ApiKey.Windows.{format_int, second_of, rpm_key, day_key, month_key, month_ttl, slot_key}
use grok_go.ApiKey.Credential.{credential}

-- CounterStore
pub record Counters (W : Type 0) : Type 0 where
  pub add_window : String → ℤ → Duration → W → Result ℤ × W
  pub acquire_slot : String → ℤ → Duration → W → Result Bool × W
  pub release_slot : String → W → Option Error × W

abbrev pub Headers : Type 0
Headers = List (String × String)

-- What httpx.WriteErrorForRequest is given, and the headers set before it.
pub record Refusal : Type 0 where
  pub status : ℕ
  pub code : String
  pub headers : Headers

-- What the handler behind does: it returns, or it panics; both after reports of completions.
pub record Served : Type 0 where
  pub reports : List Completion
  pub panics : Bool

-- How a request ends: refused, or served with the headers set before.
pub data Ending : Type 0 where
  refused : Refusal → Ending
  served panicked : Headers → Ending

-- A limit refuses a request, or lets it pass with the headers so far.
pub data LimitResult : Type 0 where
  refuse : Refusal → LimitResult
  pass : Headers → LimitResult

-- errors.Is(err, admin.ErrInvalidCredentials)
abbrev pub is_invalid_credentials : Error → Bool
is_invalid_credentials (external text) = text == "invalid administrator credentials"
is_invalid_credentials (wrap text e) = is_invalid_credentials e
is_invalid_credentials (join d e) =
    let first = is_invalid_credentials d in
    let second = is_invalid_credentials e in if first then true else second
is_invalid_credentials _ = false

abbrev pub refusal : ℕ → String → Headers → Refusal
refusal status code headers = record { status = status; code = code; headers = headers }

abbrev pub unavailable : Headers → LimitResult
unavailable headers = refuse (refusal 503 "rate_limit_unavailable" headers)

module _ {W : Type 0} where
  -- The request is let on to `k` unless the limit refuses it.
  unfoldable pub and_then : LimitResult × W → (Headers → W → Ending × W) → Ending × W
  and_then (refuse r, w) k = (refused r, w)
  and_then (pass headers, w) k = k headers w

module _ {W : Type 0} (counters : Counters W) where
  -- The limit of requests per minute.
  unfoldable pub rpm_limit : ClientKey → Time → Headers → W → LimitResult × W
  unfolding rpm_key format_int
  rpm_limit key now headers w =
      if ltb_ℤ (pos 0) key.rpm
      then (let (counted, w') =
            counters.add_window (rpm_key key.id now) (pos 1) (pos (2 * minute)) w in
          elim counted [
            | err e ↦ (unavailable headers, w')
            | ok count ↦
                let limited =
                  headers
                  ++ (("X-RateLimit-Limit-Requests", format_int key.rpm)
                      ∷ (
                        "X-RateLimit-Remaining-Requests",
                        format_int (at_least_zero (wrap64 (key.rpm -ℤ count))),
                      )
                      ∷ []) in
                (
                  if ltb_ℤ key.rpm count
                      then refuse (
                          refusal 429 "rate_limit_exceeded" (
                            limited ++ ("Retry-After", format_int (pos (60 - second_of now))) ∷ []))
                      else pass limited,
                  w',
                )
          ])
      else (pass headers, w)

  -- The limit of requests per day.
  unfoldable pub daily_limit : ClientKey → Time → Headers → W → LimitResult × W
  unfolding day_key
  daily_limit key now headers w =
      if ltb_ℤ (pos 0) key.daily_request_limit
      then (let (counted, w') =
            counters.add_window (day_key key.id now) (pos 1) (pos (26 * hour)) w in
          elim counted [
            | err e ↦ (unavailable headers, w')
            | ok count ↦ (
              if ltb_ℤ key.daily_request_limit count
                  then refuse (refusal 429 "daily_limit_exceeded" headers)
                  else pass headers,
              w',
            )
          ])
      else (pass headers, w)

  -- The limit of tokens per month, which is read and not counted here.
  unfoldable pub monthly_limit : ClientKey → Time → Headers → W → LimitResult × W
  unfolding month_key month_ttl format_int
  monthly_limit key now headers w =
      if ltb_ℤ (pos 0) key.monthly_token_limit
      then (let (counted, w') =
            counters.add_window (month_key key.id now) (pos 0) (month_ttl now) w in
          elim counted [
            | err e ↦ (unavailable headers, w')
            | ok used ↦
                let limited =
                  headers
                  ++ (("X-RateLimit-Limit-Tokens", format_int key.monthly_token_limit)
                      ∷ (
                        "X-RateLimit-Remaining-Tokens",
                        format_int (at_least_zero (wrap64 (key.monthly_token_limit -ℤ used))),
                      )
                      ∷ []) in
                (
                  if leb_ℤ key.monthly_token_limit used
                      then refuse (refusal 429 "monthly_token_limit_exceeded" limited)
                      else pass limited,
                  w',
                )
          ])
      else (pass headers, w)

  module _ (next : ClientKey → W → Served × W) where
    -- The call of `next` with the tracker in its context, and the settlement of the tokens, which a
    -- panic leaves out.
    unfoldable pub serve : ClientKey → Time → Headers → W → Ending × W
    unfolding record_all month_key month_ttl
    serve key now headers w =
        let (result, w1) = next key w in
        let completion = record_all result.reports no_completion in
        if result.panics
        then (panicked headers, w1)
        else if completion.usage_parsed
        then (
          served headers,
          (counters.add_window (month_key key.id now)
              (wrap64 (completion.input_tokens +ℤ completion.output_tokens)) (month_ttl now) w1).1,
        )
        else (served headers, w1)

    module _ (timeout : W → Option Duration) where
      -- The limit of concurrent requests; the deferred call gives the slot back after the request,
      -- and after its panic.
      unfoldable pub with_slot : ClientKey → Time → Headers → W → Ending × W
      unfolding slot_key concurrency_slot_ttl serve
      with_slot key now headers w =
          if ltb_ℤ (pos 0) key.concurrency_limit
          then (let (taken, w1) =
                counters.acquire_slot (slot_key key.id) key.concurrency_limit
                  (concurrency_slot_ttl (timeout w)) w in
              elim taken [
                | err e ↦ (refused (refusal 503 "rate_limit_unavailable" headers), w1)
                | ok false ↦ (refused (refusal 429 "concurrency_limit_exceeded" headers), w1)
                | ok true ↦
                    let (ending, w2) = serve key now headers w1 in
                    (ending, (counters.release_slot (slot_key key.id) w2).1)
              ])
          else serve key now headers w

      -- The part of Handler past the authentication.
      unfoldable pub limited : ClientKey → Time → W → Ending × W
      unfolding rpm_limit daily_limit monthly_limit and_then with_slot
      limited key now w = and_then (rpm_limit key now [] w) (λ headers w1.
          and_then (daily_limit key now headers w1)
            (λ headers w2. and_then (monthly_limit key now headers w2) (with_slot key now)))

-- The two headers that carry a credential, as Header.Get answers them.
pub record RequestHeaders : Type 0 where
  pub api_key : String
  pub authorization : String

-- Middleware, with the clock that Now or time.Now is, and what RequestTimeoutFunc answers, if it is
-- set. Without counters every request of a known key is refused.
pub record Middleware (W : Type 0) : Type 0 where
  pub authenticate : String → W → Result ClientKey × W
  pub counters : Option (Counters W)
  pub now : W → Time × W
  pub timeout : W → Option Duration

module _ {W : Type 0} (m : Middleware W) (next : ClientKey → W → Served × W) where
  -- Middleware.Handler
  unfoldable pub handler : RequestHeaders → W → Ending × W
  unfolding credential limited
  handler request w =
      let plaintext = credential request.api_key request.authorization in
      if plaintext == ""
      then (refused (refusal 401 "invalid_api_key" []), w)
      else (let (found, w1) = m.authenticate plaintext w in
          elim found [
            | err e ↦ (
              refused
                  (refusal (if is_invalid_credentials e then 401 else 503) "invalid_api_key" []),
              w1,
            )
            | ok key ↦ elim m.counters [
              | none ↦ (refused (refusal 503 "rate_limit_unavailable" []), w1)
              | some counters ↦
                  let (now, w2) = m.now w1 in limited counters next m.timeout key now w2
            ]
          ])
