-- ===== src/Accounts/Backoff.antt =====
-- internal/accounts/pool.go: the delay after a transient failure.
pub mod Exponential
use grok_go.Base.{ℕ, zero, suc, ◌-◌, if◌then◌else◌}
use grok_go.Base.Int.{ℤ, pos_part, ◌+ℤ◌, wrap64, ltb_ℤ, leb_ℤ}
use grok_go.Domain.{Duration}
use grok_go.Accounts.Policy.{Policy}

-- The loop of transientBackoff with the rounds that are left, `failures - attempt`.
backoff_loop : Duration → ℕ → Duration → Duration
backoff_loop max zero delay = delay
backoff_loop max (suc rounds) delay =
    let doubled = wrap64 (delay +ℤ delay) in
    let rest = backoff_loop max rounds doubled in
    if ltb_ℤ delay max then (if leb_ℤ max doubled then max else rest) else delay

unfoldable pub transient_backoff : Policy → ℤ → Duration
unfolding backoff_loop
transient_backoff policy failures =
    backoff_loop policy.transient_max_delay (pos_part failures - 1) policy.transient_base_delay
