-- ===== src/Accounts/Feedback.antt =====
-- internal/accounts/pool.go: what the end of a request does to the health of its account, the part
-- of `release` that holds the lock.
pub mod Verdicts
use grok_go.Base.{
  ℕ, ◌||◌, ◌&&◌, not, String, Bool, true, false, none, some, ◌==◌, leb, ltb, eqb, is_some,
  if◌then◌else◌,
}
use grok_go.Base.Int.{ℤ, pos, ◌+ℤ◌, wrap64, leb_ℤ, eqb_ℤ}
use grok_go.Base.Float.{Float}
use grok_go.Domain.{
  Time, Account, AccountStatus, active, cooldown, expired, disabled, error, status_eq, after,
  zero_time, add_time,
}
use grok_go.Accounts.Policy.{Policy}
use grok_go.Accounts.Quota.{exhausted_quota_reset, fallback_cooldown}
use grok_go.Accounts.Backoff.{transient_backoff}
use grok_go.Accounts.Message.{feedback_message}
use grok_go.Accounts.Pool.{RuntimeState, Feedback}

unfoldable pub is_permanent_credential_failure : ℕ → Bool
is_permanent_credential_failure status = eqb status 401 || eqb status 403 || eqb status 423

unfoldable pub is_terminal_account_status : AccountStatus → Bool
is_terminal_account_status disabled = true
is_terminal_account_status expired = true
is_terminal_account_status error = true
is_terminal_account_status _ = false

-- What the switch of `release` decides, from the state `s` whose account is `account`.
pub record Outcome (F : Type 0) : Type 0 where
  pub health : F
  pub failures : ℤ
  pub cooldown_till : Time
  pub account : Account F
  pub persist : Bool
  pub publish_change : Bool
  pub invalidate_affinity : Bool
  pub cooldown_until : Time

-- The kinds of feedback, in the order of the switch.
pub data Verdict : Type 0 where
  terminal_change rate_limited permanent_failure : Verdict
  quota_spent : Time → Verdict
  late_success success client_cancel transient_failure neutral : Verdict

abbrev pub later : Time → Time → Time
later t u = if after u t then u else t

unfoldable pub is_success : Feedback → Bool
is_success f = leb 200 f.status_code && ltb f.status_code 400 && not (is_some f.request_error)

module _ {F : Type 0} where
  unfoldable pub concurrent_cooldown : RuntimeState F → Account F → Time → Bool
  concurrent_cooldown s account now = after s.cooldown_till now && status_eq account.status cooldown

  -- The branches that stand below the quota's.
  judge_result : RuntimeState F → Account F → Time → Feedback → Verdict
  unfolding is_success concurrent_cooldown
  judge_result s account now f =
      if is_success f && concurrent_cooldown s account now
      then late_success
      else if is_success f
      then success
      else if eqb f.status_code 499
      then client_cancel
      else if is_some f.request_error || leb 500 f.status_code
      then transient_failure
      else neutral

  unfoldable pub judge :
      Policy → Time → AccountStatus → RuntimeState F → Account F → Feedback → Verdict
  unfolding judge_result is_permanent_credential_failure is_terminal_account_status
  judge policy now leased s account f =
      if not (status_eq account.status leased) && is_terminal_account_status account.status
      then terminal_change
      else if eqb f.status_code 429
      then rate_limited
      else if is_permanent_credential_failure f.status_code
      then permanent_failure
      else elim (exhausted_quota_reset account.quota account.kind policy now (is_some f.quota)) [
        | some reset ↦ quota_spent reset
        | none ↦ judge_result s account now f
      ]

  -- The deadline that a 429 sets.
  unfoldable pub rate_limit_deadline : Policy → Time → RuntimeState F → Account F → Feedback → Time
  rate_limit_deadline policy now s account f =
      let wait =
        if leb_ℤ f.retry_after (pos 0)
        then fallback_cooldown policy account.kind
        else f.retry_after in
      let candidate = add_time now wait in
      let with_quota : Time =
        elim (exhausted_quota_reset account.quota account.kind policy now (is_some f.quota)) [
          | none ↦ candidate
          | some reset ↦ later candidate reset
        ] in
      later with_quota s.cooldown_till

module _ {F : Type 0} (fl : Float F) where
  open fl use {hundredths, mul, add}

  -- math.Max(.05, state.health * factor), the factor in hundredths.
  abbrev pub worsen : F → ℕ → F
  worsen health factor = fl.max (hundredths 5) (mul health (hundredths factor))

  abbrev count_failure : RuntimeState F → ℤ
  count_failure s = wrap64 (s.failures +ℤ pos 1)

  abbrev resting : Account F → Time → String → Account F
  resting account until message = record account {
    status = cooldown;
    cooldown_until = some until;
    last_error = message;
  }

  unfoldable pub is_recovering : RuntimeState F → Account F → Bool
  is_recovering s account =
      fl.lt s.health (hundredths 100)
      || not (eqb_ℤ s.failures (pos 0))
      || not (status_eq account.status active)
      || is_some account.cooldown_until
      || not (account.last_error == "")

  -- The bodies of the branches. `o` is the outcome that changes nothing.
  unfoldable pub decide :
      Policy → Time → RuntimeState F → Account F → Feedback → Outcome F → Verdict → Outcome F
  unfolding rate_limit_deadline is_recovering feedback_message
  decide policy now s account f o terminal_change = record o {
    invalidate_affinity = true;
    cooldown_until = add_time now policy.forbidden_cooldown;
  }
  decide policy now s account f o rate_limited =
      let until = rate_limit_deadline policy now s account f in
      record {
        health = worsen s.health 45;
        failures = count_failure s;
        cooldown_till = until;
        account = resting account until (feedback_message f);
        persist = true;
        publish_change = true;
        invalidate_affinity = true;
        cooldown_until = until;
      }
  decide policy now s account f o permanent_failure = record {
    health = worsen s.health 25;
    failures = count_failure s;
    cooldown_till = zero_time;
    account = record account {
      status = disabled;
      cooldown_until = none;
      last_error = feedback_message f;
    };
    persist = true;
    publish_change = true;
    invalidate_affinity = true;
    cooldown_until = add_time now policy.forbidden_cooldown;
  }
  decide policy now s account f o (quota_spent reset) =
      let until = later reset s.cooldown_till in
      record {
        health = worsen s.health 90;
        failures = count_failure s;
        cooldown_till = until;
        account = resting account until "upstream quota exhausted";
        persist = true;
        publish_change = true;
        invalidate_affinity = true;
        cooldown_until = until;
      }
  decide policy now s account f o late_success = record o {
    invalidate_affinity = true;
    cooldown_until = s.cooldown_till;
  }
  decide policy now s account f o success =
      let recovering = is_recovering s account in
      record {
        health = fl.min (hundredths 100) (add s.health (hundredths 12));
        failures = pos 0;
        cooldown_till = zero_time;
        account = record account { status = active; cooldown_until = none; last_error = "" };
        persist = recovering || o.persist;
        publish_change = recovering || o.publish_change;
        invalidate_affinity = o.invalidate_affinity;
        cooldown_until = o.cooldown_until;
      }
  decide policy now s account f o client_cancel = o
  decide policy now s account f o transient_failure =
      let until = add_time now (transient_backoff policy (count_failure s)) in
      record {
        health = worsen s.health 75;
        failures = count_failure s;
        cooldown_till = until;
        account = resting account until (feedback_message f);
        persist = true;
        publish_change = true;
        invalidate_affinity = true;
        cooldown_until = until;
      }
  decide policy now s account f o neutral = o
