-- ===== src/Accounts/Policy/Defaults.antt =====
-- What NewPool guarantees of the policy that a pool runs with.
use grok_go.Base.{◌≡◌, ◌⊎◌, String, arith}
use grok_go.Base.Int.{pos, ◌<ℤ◌, ◌≤ℤ◌}
use grok_go.Base.Result.{ok}
use grok_go.Accounts.Policy.{
  Policy, complete_policy, parse_strategy, default_policy, strategy_affinity, strategy_priority,
  strategy_round_robin,
}

-- The strategies that the scheduler distinguishes.
abbrev pub IsStrategy : String → Type 0
IsStrategy s = (s ≡ strategy_affinity) ⊎ (s ≡ strategy_priority) ⊎ (s ≡ strategy_round_robin)

-- A strategy that ParseStrategy accepts comes back as one of the three names.
pub parse_strategy-IsStrategy :
    (value strategy : String) → parse_strategy value ≡ ok strategy → IsStrategy strategy
unfolding parse_strategy
parse_strategy-IsStrategy value strategy h = ground arith

pub record IsUsable (p : Policy) : Type 0 where
  pub concurrency : pos 0 <ℤ p.default_concurrency
  pub forbidden : pos 0 <ℤ p.forbidden_cooldown
  pub base : pos 0 <ℤ p.transient_base_delay
  pub affinity : pos 0 <ℤ p.affinity_ttl
  pub lease : pos 0 <ℤ p.lease_ttl
  pub affinities : pos 0 <ℤ p.max_affinities

-- Whatever policy NewPool is given, the pool's limits, delays and lifetimes are positive.
pub complete_policy-IsUsable : (p : Policy) → IsUsable (complete_policy p)
unfolding complete_policy
complete_policy-IsUsable p = record {
  concurrency = ground arith;
  forbidden = ground arith;
  base = ground arith;
  affinity = ground arith;
  lease = ground arith;
  affinities = ground arith;
}

-- The transient delays are ordered, where the base delay is at most the five minutes that replace a
-- maximum below it.
pub complete_policy-delays :
    (p : Policy)
    → p.transient_base_delay ≤ℤ default_policy.transient_max_delay
    → (complete_policy p).transient_base_delay ≤ℤ (complete_policy p).transient_max_delay
unfolding complete_policy
complete_policy-delays p h = ground arith
