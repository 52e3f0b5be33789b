-- ===== src/ApiKey.antt =====
-- internal/apikey/middleware.go: what a request reports of its completion, and the lifetime of its
-- concurrency slot.
pub mod Reports
pub mod Windows
pub mod Credential
pub mod Handler
use grok_go.Base.{
  ℕ, ◌+◌, ◌*◌, ◌^◌, not, ◌==◌, String, Bool, true, false, Option, none, some, List, [], ◌∷◌,
  if◌then◌else◌,
}
use grok_go.Base.Int.{ℤ, pos, ltb_ℤ, ◌+ℤ◌, ◌-ℤ◌, wrap64}
use grok_go.Domain.{Duration, hour, max_duration, minute}

pub record Completion : Type 0 where
  pub account_id : String
  pub input_tokens : ℤ
  pub output_tokens : ℤ
  pub cached_tokens : ℤ
  pub usage_parsed : Bool
  pub cache_identity_applied : Bool
  pub cache_affinity_reused : Bool
  pub cache_affinity_established : Bool

abbrev pub no_completion : Completion
no_completion = record {
  account_id = "";
  input_tokens = pos 0;
  output_tokens = pos 0;
  cached_tokens = pos 0;
  usage_parsed = false;
  cache_identity_applied = false;
  cache_affinity_reused = false;
  cache_affinity_established = false;
}

-- max(0, n)
abbrev pub at_least_zero : ℤ → ℤ
at_least_zero n = if ltb_ℤ n (pos 0) then pos 0 else n

-- The three parts of completionTracker.record, from the value `v` and the completion `c` so far.
unfoldable pub record_account : Completion → Completion → Completion
record_account v c = record c {
  account_id = if not (v.account_id == "") then v.account_id else c.account_id;
}

unfoldable pub record_identity : Completion → Completion → Completion
record_identity v c =
    if v.cache_identity_applied
    then record c {
      cache_identity_applied = true;
      cache_affinity_reused = v.cache_affinity_reused;
      cache_affinity_established = v.cache_affinity_established;
    }
    else c

unfoldable pub record_usage : Completion → Completion → Completion
record_usage v c =
    if v.usage_parsed
    then record c {
      input_tokens = at_least_zero v.input_tokens;
      output_tokens = at_least_zero v.output_tokens;
      cached_tokens = at_least_zero v.cached_tokens;
      usage_parsed = true;
    }
    else c

-- completionTracker.record, which ReportCompletion calls.
unfoldable pub record_completion : Completion → Completion → Completion
unfolding record_account record_identity record_usage
record_completion v c = record_usage v (record_identity v (record_account v c))

-- The completion of a request that made the reports, the first of them first.
unfoldable pub record_all : List Completion → Completion → Completion
unfolding record_completion
record_all [] c = c
record_all (v ∷ vs) c = record_all vs (record_completion v c)

abbrev pub slot_grace : ℕ
slot_grace = 5 * minute

abbrev pub request_duration : Option Duration → Duration
request_duration none = pos hour
request_duration (some configured) = if ltb_ℤ (pos hour) configured then configured else pos hour

-- Middleware.concurrencySlotTTL; the argument is what RequestTimeoutFunc answers, if it is set.
unfoldable pub concurrency_slot_ttl : Option Duration → Duration
concurrency_slot_ttl configured =
    let duration = request_duration configured in
    if ltb_ℤ (pos max_duration -ℤ pos slot_grace) duration
    then duration
    else wrap64 (duration +ℤ pos slot_grace)
