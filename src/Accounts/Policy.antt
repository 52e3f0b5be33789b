-- ===== src/Accounts/Policy.antt =====
-- internal/accounts/pool.go: scheduling strategies, the policy and how NewPool completes it.
pub mod Defaults
use grok_go.Base.{◌*◌, ◌||◌, String, Bool, Option, none, some, ◌==◌, if◌then◌else◌, is_some}
use grok_go.Base.Int.{ℤ, pos, leb_ℤ, ltb_ℤ}
use grok_go.Base.Result.{Result, ok, err, unsupported_strategy}
use grok_go.Base.Text.{trim_space, lowers_to}
use grok_go.Domain.{
  Duration, CredentialKind, cli_oauth, console_sso, grok_sso, second, minute, hour,
}

-- A strategy is a text in the source, which need not be one of the three.
abbrev pub strategy_affinity : String
strategy_affinity = "affinity"

abbrev pub strategy_priority : String
strategy_priority = "priority"

abbrev pub strategy_round_robin : String
strategy_round_robin = "round_robin"

unfoldable pub parse_strategy : String → Result String
parse_strategy value =
    let strategy = trim_space value in
    if lowers_to strategy strategy_affinity
    then ok strategy_affinity
    else if lowers_to strategy strategy_priority
    then ok strategy_priority
    else if lowers_to strategy strategy_round_robin
    then ok strategy_round_robin
    else err unsupported_strategy

abbrev pub succeeds {ℓ} : {A : Type ℓ} → Result A → Bool
succeeds (ok a) = Bool.true
succeeds (err e) = Bool.false

-- `rate_limit_cooldown` is `none` for a nil map, and otherwise answers 0 at a missing key.
pub record Policy : Type 0 where
  pub strategy : String
  pub default_concurrency : ℤ
  pub forbidden_cooldown : Duration
  pub rate_limit_cooldown : Option (CredentialKind → Duration)
  pub transient_base_delay : Duration
  pub transient_max_delay : Duration
  pub affinity_ttl : Duration
  pub lease_ttl : Duration
  pub max_affinities : ℤ

-- policy.RateLimitCooldown[kind]
unfoldable pub cooldown_of : Policy → CredentialKind → Duration
cooldown_of p kind = elim p.rate_limit_cooldown [ none ↦ pos 0 | some f ↦ f kind ]

abbrev pub default_cooldowns : CredentialKind → Duration
default_cooldowns cli_oauth = pos hour
default_cooldowns console_sso = pos (4 * hour)
default_cooldowns grok_sso = pos (15 * minute)

abbrev pub default_policy : Policy
default_policy = record {
  strategy = strategy_affinity;
  default_concurrency = pos 2;
  forbidden_cooldown = pos (30 * minute);
  rate_limit_cooldown = some default_cooldowns;
  transient_base_delay = pos (5 * second);
  transient_max_delay = pos (5 * minute);
  affinity_ttl = pos (24 * hour);
  lease_ttl = pos (30 * minute);
  max_affinities = pos 10000;
}

abbrev pub positive_or : ℤ → ℤ → ℤ
positive_or x default = if leb_ℤ x (pos 0) then default else x

-- The defaults that NewPoolWithCoordinator fills in.
unfoldable pub complete_policy : Policy → Policy
complete_policy p = record {
  strategy = if succeeds (parse_strategy p.strategy) then p.strategy else default_policy.strategy;
  default_concurrency = positive_or p.default_concurrency default_policy.default_concurrency;
  forbidden_cooldown = positive_or p.forbidden_cooldown default_policy.forbidden_cooldown;
  rate_limit_cooldown =
      if is_some p.rate_limit_cooldown
      then p.rate_limit_cooldown
      else default_policy.rate_limit_cooldown;
  transient_base_delay = base;
  transient_max_delay =
      if ltb_ℤ p.transient_max_delay base
      then default_policy.transient_max_delay
      else p.transient_max_delay;
  affinity_ttl = positive_or p.affinity_ttl default_policy.affinity_ttl;
  lease_ttl = positive_or p.lease_ttl default_policy.lease_ttl;
  max_affinities = positive_or p.max_affinities default_policy.max_affinities;
}
  where
    base : Duration
    base = positive_or p.transient_base_delay default_policy.transient_base_delay
