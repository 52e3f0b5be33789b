-- ===== src/Tests/Releasing.antt =====
-- The theorems on the end of a request, at a lease on one account of the pool.
use grok_go.Base.{◌≡◌, ◌≤◌, ◌+◌, ◌-◌, ◌==◌, ℕ, refl, none, if◌then◌else◌, ◌*◌}
use grok_go.Domain.{Account, active, cooldown, disabled, minute, zero_time}
use grok_go.Accounts.Policy.{default_policy}
use grok_go.Accounts.Pool.{RuntimeState}
use grok_go.Accounts.Feedback.{concurrent_cooldown, is_success, is_terminal_account_status}
use grok_go.Accounts.Settle.{outcome_of, pool_after, settle, settled_account}
use grok_go.Accounts.Settle.Bounds.{IsHealth, outcome_of-IsHealth}
use grok_go.Accounts.Settle.Recovery.{late_success_keeps_cooldown}
use grok_go.Accounts.Release.{Handle, release}
use grok_go.Accounts.Release.Returns.{ReturnsSlot, release-ReturnsSlot}
use grok_go.Accounts.Reserve.Steady.{Steady}
use grok_go.Accounts.Settle.Steady.{settle-Steady}
use grok_go.Tests.Values.{
  counters, states-Steady, system, account_of, feedback_of, lease, noon, pool, state_of,
}
use grok_go.Tests.Scores.{scores, scores-IsScaled}

abbrev healthy : RuntimeState ℕ
healthy = state_of (account_of "a" active) 1 zero_time

abbrev resting : RuntimeState ℕ
resting = state_of (account_of "a" cooldown) 1 (noon + 60 * minute)

abbrev switched_off : RuntimeState ℕ
switched_off = state_of (account_of "a" disabled) 1 zero_time

settle-Steady_example :
    Steady
      (λ j. if "a" == j then counters j - 1 else counters j)
      (pool_after (settle scores pool noon lease (feedback_of 200))).states
settle-Steady_example =
    settle-Steady scores pool noon lease (feedback_of 200) counters states-Steady

late_success_keeps_cooldown_example :
    (noon + 60 * minute
      ≤ (outcome_of scores default_policy noon resting lease (feedback_of 200)).cooldown_till)
    × ((outcome_of scores default_policy noon resting lease (feedback_of 200)).account.status
        ≡ cooldown)
unfolding is_success concurrent_cooldown is_terminal_account_status
late_success_keeps_cooldown_example =
    late_success_keeps_cooldown scores default_policy noon resting lease (feedback_of 200) refl refl
      refl

outcome_of-IsHealth_example :
    IsHealth scores scores-IsScaled
      (outcome_of scores default_policy noon healthy lease (feedback_of 500)).health
outcome_of-IsHealth_example =
    outcome_of-IsHealth scores scores-IsScaled default_policy noon healthy lease (feedback_of 500)
      (record { floor = refl; ceiling = refl })

-- The account that a 429 leaves behind.
abbrev rate_limited_response : Account ℕ
rate_limited_response =
    settled_account (outcome_of scores default_policy noon healthy lease (feedback_of 429))

release-ReturnsSlot_example :
    ReturnsSlot lease pool.coordinator (release scores none lease (feedback_of 429) system).1
release-ReturnsSlot_example = release-ReturnsSlot scores none lease (feedback_of 429) system

abbrev handle : Handle ℕ
handle = record { lease = lease; released = none }
