-- ===== src/Accounts/Settle/Health.antt =====
-- What the end of a request does to the health, the status and the cooldown of its account.
use grok_go.Base.{
  ℕ, ◌⊎◌, inl, inr, Option, Option-cases, is_some, ◌≤◌, ◌≡◌, not, ◌&&◌, Bool, true, false, some,
  arith,
}
use grok_go.Base.Float.{Float}
use grok_go.Domain.{Time, cooldown, status_eq}
use grok_go.Accounts.Policy.{Policy}
use grok_go.Accounts.Quota.{exhausted_quota_reset}
use grok_go.Accounts.Pool.{RuntimeState, Lease, Feedback}
use grok_go.Accounts.Feedback.{
  Outcome, Verdict, permanent_failure, judge, is_terminal_account_status,
  is_permanent_credential_failure,
}
use grok_go.Accounts.Settle.{observed}

-- The statuses that tell of credentials which no longer serve.
abbrev pub IsRefused : ℕ → Type 0
IsRefused code = (code ≡ 401) ⊎ (code ≡ 403) ⊎ (code ≡ 423)

module _ {F : Type 0} (fl : Float F) (policy : Policy) (now : Time) (s : RuntimeState F)
    (lease : Lease F) (f : Feedback) where
  -- The verdict on the feedback.
  abbrev pub verdict : Verdict
  verdict = judge policy now lease.account.status s (observed fl s now f).account f

  -- The account was put into a terminal state while the request ran.
  abbrev pub is_overruled : Bool
  is_overruled =
      not (status_eq s.account.status lease.account.status)
      && is_terminal_account_status s.account.status

  pub status-observed : (observed fl s now f).account.status ≡ s.account.status
  unfolding observed
  status-observed = ground arith

  -- An outcome in which the account rests until a deadline that is persisted, published, told to
  -- the peers, and not before the one that was running.
  pub record Rests (o : Outcome F) : Type 0 where
    pub no_sooner : s.cooldown_till ≤ o.cooldown_till
    pub status : o.account.status ≡ cooldown
    pub until : o.account.cooldown_until ≡ some o.cooldown_till
    pub told : o.cooldown_until ≡ o.cooldown_till
    pub persisted : o.persist ≡ true
    pub published : o.publish_change ≡ true
    pub unbound : o.invalidate_affinity ≡ true

  -- The reset of the quota as it is known once the feedback has been noted.
  abbrev pub quota_reset : Option Time
  quota_reset =
      let a = (observed fl s now f).account in
      exhausted_quota_reset a.quota a.kind policy now (is_some f.quota)

  pub judge_permanent : is_overruled ≡ false → IsRefused f.status_code → verdict ≡ permanent_failure
  unfolding judge is_permanent_credential_failure
  judge_permanent calm code = ground (arith, status-observed)

  pub judge-of_permanent :
      verdict ≡ permanent_failure → (is_overruled ≡ false) × IsRefused f.status_code
  unfolding judge is_permanent_credential_failure
  judge-of_permanent h = elim (Option-cases quota_reset) [
    | inl e ↦ (ground (arith, status-observed), ground arith)
    | inr (t, e) ↦ (ground (arith, status-observed), ground arith)
  ]
