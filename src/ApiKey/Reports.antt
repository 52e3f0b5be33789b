-- ===== src/ApiKey/Reports.antt =====
-- What a request has reported is not taken back by its later reports.
use grok_go.Domain.{hour, max_duration}
use grok_go.Base.{ℕ, ◌≤◌, some, ◌≡◌, true, false, List, [], ◌∷◌, arith, ◌==◌}
use grok_go.Base.Int.{wrap64, ◌+ℤ◌, ◌-ℤ◌, pos, ◌≤ℤ◌}
use grok_go.ApiKey.{
  concurrency_slot_ttl, Completion, no_completion, record_account, record_all, record_completion,
  record_identity, record_usage,
}

-- A completion with no count below zero.
pub record IsUsage (c : Completion) : Type 0 where
  pub input : pos 0 ≤ℤ c.input_tokens
  pub output : pos 0 ≤ℤ c.output_tokens
  pub cached : pos 0 ≤ℤ c.cached_tokens

-- What `d` keeps of `c`: usage that was parsed, an identity that was applied, and an account that
-- is known.
pub record IsLater (c d : Completion) : Type 0 where
  pub usage : c.usage_parsed ≡ true → d.usage_parsed ≡ true
  pub identity : c.cache_identity_applied ≡ true → d.cache_identity_applied ≡ true
  pub account : (c.account_id == "") ≡ false → (d.account_id == "") ≡ false

record_completion-IsUsage : (v c : Completion) → IsUsage c → IsUsage (record_completion v c)
unfolding record_completion record_account record_identity record_usage
record_completion-IsUsage v c h = record {
  input = ground (arith, h.input);
  output = ground (arith, h.output);
  cached = ground (arith, h.cached);
}

record_completion-IsLater : (v c : Completion) → IsLater c (record_completion v c)
unfolding record_completion record_account record_identity record_usage
record_completion-IsLater v c = record {
  usage = λ h. ground (arith, h);
  identity = λ h. ground (arith, h);
  account = λ h. ground (arith, h);
}

-- However a request reports, its token counts, which are charged to its key, are not negative.
pub record_all-IsUsage : (vs : List Completion) → IsUsage (record_all vs no_completion)
unfolding record_all
record_all-IsUsage vs =
    go vs no_completion (record { input = omega arith; output = omega arith; cached = omega arith })
  where
    go : (vs : List Completion) (c : Completion) → IsUsage c → IsUsage (record_all vs c)
    go [] c h = h
    go (v ∷ vs) c h = go vs (record_completion v c) (record_completion-IsUsage v c h)

-- Later reports do not take back usage that was parsed, an identity that was applied, or an account
-- that is known.
pub record_all-IsLater : (vs : List Completion) (c : Completion) → IsLater c (record_all vs c)
unfolding record_all
record_all-IsLater [] c = record { usage = λ h. h; identity = λ h. h; account = λ h. h }
record_all-IsLater (v ∷ vs) c =
    let first = record_completion-IsLater v c in
    let rest = record_all-IsLater vs (record_completion v c) in
    record {
      usage = λ h. rest.usage (first.usage h);
      identity = λ h. rest.identity (first.identity h);
      account = λ h. rest.account (first.account h);
    }

-- Where the settings answer a duration that fits an int64, a concurrency slot lives at least as
-- long, and at least the default of an hour, and its lifetime does not overflow.
concurrency_slot_ttl_covers :
    (configured : ℕ)
    → configured ≤ max_duration
    → (pos hour ≤ℤ concurrency_slot_ttl (some (pos configured)))
      × (pos configured ≤ℤ concurrency_slot_ttl (some (pos configured)))
      × (concurrency_slot_ttl (some (pos configured)) ≤ℤ pos max_duration)
unfolding concurrency_slot_ttl wrap64 ◌+ℤ◌ ◌-ℤ◌
concurrency_slot_ttl_covers configured h = (ground (arith, h), ground (arith, h), ground (arith, h))
