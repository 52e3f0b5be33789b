-- ===== src/Accounts/Quota.antt =====
-- internal/accounts/pool.go: when the quota of an account blocks it.
pub mod Window
use grok_go.Base.{ℕ, ◌*◌, ◌&&◌, ◌||◌, not, Bool, true, false, Option, none, some, if◌then◌else◌}
use grok_go.Base.Int.{ℤ, pos, ltb_ℤ, leb_ℤ}
use grok_go.Domain.{
  Time, Duration, QuotaSnapshot, CredentialKind, zero_time, is_zero, after, add_time, minute,
}
use grok_go.Accounts.Policy.{Policy, cooldown_of, default_cooldowns}

unfoldable pub quota_exhausted : QuotaSnapshot → Bool
quota_exhausted q =
    (not q.requests_unlimited
      && ltb_ℤ (pos 0) q.requests_limit
      && leb_ℤ q.requests_remaining (pos 0))
    || (not q.tokens_unlimited && ltb_ℤ (pos 0) q.tokens_limit && leb_ℤ q.tokens_remaining (pos 0))

-- The branch of quotaUnavailableUntil that looks at when the quota was observed.
observed_window : QuotaSnapshot → Time → Duration → Time
observed_window q now fallback =
    let until = add_time q.observed_at fallback in
    if ltb_ℤ (pos 0) fallback && not (is_zero q.observed_at)
    then (if after until now then until else zero_time)
    else zero_time

unfoldable pub quota_unavailable_until : QuotaSnapshot → Time → Duration → Time
unfolding quota_exhausted observed_window
quota_unavailable_until q now fallback =
    if not (quota_exhausted q) then zero_time else elim q.reset_at [
      | some reset ↦ if after reset now then reset else zero_time
      | none ↦ observed_window q now fallback
    ]

-- QuotaUnavailableUntil, which the administrative API calls.
unfoldable pub default_quota_unavailable_until : QuotaSnapshot → CredentialKind → Time → Time
unfolding quota_unavailable_until
default_quota_unavailable_until q kind now = quota_unavailable_until q now (default_cooldowns kind)

-- The fallback of exhaustedQuotaReset, and of a 429 with no Retry-After.
abbrev pub fallback_cooldown : Policy → CredentialKind → Duration
fallback_cooldown p kind =
    let configured = cooldown_of p kind in
    if leb_ℤ configured (pos 0) then pos (15 * minute) else configured

-- `none` stands for the answer `(time.Time{}, false)`.
unfoldable pub exhausted_quota_reset :
    QuotaSnapshot → CredentialKind → Policy → Time → Bool → Option Time
exhausted_quota_reset q kind policy now freshly_observed =
    let fallback = fallback_cooldown policy kind in
    let until = quota_unavailable_until q now fallback in
    if not (quota_exhausted q)
    then none
    else if not (after until now)
    then (if not freshly_observed then none else some (add_time now fallback))
    else some until
