-- ===== src/Accounts/Quota/Window.antt =====
-- The block window of a quota lies in the future, and it is there exactly when the quota is used
-- up.
use grok_go.Base.{◌<◌, ◌≡◌, ◌⊎◌, Bool, true, some, arith, is_some}
use grok_go.Domain.{Time, Duration, QuotaSnapshot, CredentialKind, zero_time}
use grok_go.Accounts.Policy.{Policy}
use grok_go.Accounts.Quota.{quota_exhausted, quota_unavailable_until, exhausted_quota_reset}

-- A window is never in the past: it is the zero time or lies after `now`, and there is one only for
-- an exhausted quota.
pub quota_unavailable_until_window :
    (q : QuotaSnapshot) (now : Time) (fallback : Duration)
    → (quota_unavailable_until q now fallback ≡ zero_time)
      ⊎ ((now < quota_unavailable_until q now fallback) × (quota_exhausted q ≡ true))
unfolding quota_unavailable_until
quota_unavailable_until_window q now fallback = ground arith

-- A freshly observed quota gives a reset exactly when it is used up, so the account rests even
-- where upstream sent no usable reset time.
pub exhausted_quota_reset_fresh :
    (q : QuotaSnapshot) (kind : CredentialKind) (policy : Policy) (now : Time)
    → is_some (exhausted_quota_reset q kind policy now true) ≡ quota_exhausted q
unfolding exhausted_quota_reset
exhausted_quota_reset_fresh q kind policy now = ground arith

-- Any reset that it reports lies in the future.
pub exhausted_quota_reset-after :
    (q : QuotaSnapshot) (kind : CredentialKind) (policy : Policy) (now : Time) (fresh : Bool)
    (t : Time)
    → exhausted_quota_reset q kind policy now fresh ≡ some t
    → now < t
unfolding exhausted_quota_reset
exhausted_quota_reset-after q kind policy now fresh t h = ground arith
