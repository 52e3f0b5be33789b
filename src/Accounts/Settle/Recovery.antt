-- ===== src/Accounts/Settle/Recovery.antt =====
-- What a request that succeeds may clear, and what a transient failure overwrites.
use grok_go.Base.{
  ◌≢◌, ◌<◌, ◌≤◌, ◌≡◌, ◌⊎◌, inl, inr, refl, true, false, none, arith, is_some, Option-cases,
}
use grok_go.Base.Int.{pos, ◌+ℤ◌, wrap64}
use grok_go.Base.Float.{Float}
use grok_go.Domain.{Time, Account, cooldown, add_time}
use grok_go.Accounts.Policy.{Policy}
use grok_go.Accounts.Backoff.{transient_backoff}
use grok_go.Accounts.Pool.{RuntimeState, Lease, Feedback}
use grok_go.Accounts.Feedback.{
  Outcome, quota_spent, late_success, transient_failure, judge, decide, is_success,
  concurrent_cooldown, is_permanent_credential_failure, Verdict, permanent_failure,
}
use grok_go.Accounts.Settle.{outcome_of, observed}
use grok_go.Accounts.Settle.Health.{is_overruled, verdict, quota_reset, IsRefused}

module _ {F : Type 0} (fl : Float F) (policy : Policy) (now : Time) (s : RuntimeState F)
    (lease : Lease F) (f : Feedback) where
  judge_success :
      is_overruled fl policy now s lease f ≡ false
      → is_success f ≡ true
      → concurrent_cooldown s s.account now ≡ true
      → ((t : Time) × (verdict fl policy now s lease f ≡ quota_spent t))
        ⊎ (verdict fl policy now s lease f ≡ late_success)
  unfolding judge is_success concurrent_cooldown is_permanent_credential_failure observed
  judge_success calm good cooling = elim (Option-cases (quota_reset fl policy now s lease f)) [
    | inl e ↦ inr (ground (arith, e))
    | inr (t, e) ↦ inl (t, ground (arith, e))
  ]

  abbrev HoldsOn : Outcome F → Type 0
  HoldsOn o = (s.cooldown_till ≤ o.cooldown_till) × (o.account.status ≡ cooldown)

  decide_quota_spent :
      (a : Account F) (o : Outcome F) (t : Time)
      → HoldsOn (decide fl policy now s a f o (quota_spent t))
  unfolding decide
  decide_quota_spent a o t = (ground arith, refl)

  decide_late_success :
      (a : Account F) (o : Outcome F)
      → HoldsOn o
      → HoldsOn (decide fl policy now s a f o late_success)
  unfolding decide
  decide_late_success a o h = h

  observed-HoldsOn : concurrent_cooldown s s.account now ≡ true → HoldsOn (observed fl s now f)
  unfolding observed concurrent_cooldown
  observed-HoldsOn h = ground arith

  -- A request that succeeds while a cooldown of its account runs, which was not put into a terminal
  -- state meanwhile, clears neither the
  -- cooldown nor its status: the deadline is no sooner than before.
  pub late_success_keeps_cooldown :
      is_overruled fl policy now s lease f ≡ false
      → is_success f ≡ true
      → concurrent_cooldown s s.account now ≡ true
      → (s.cooldown_till ≤ (outcome_of fl policy now s lease f).cooldown_till)
        × ((outcome_of fl policy now s lease f).account.status ≡ cooldown)
  unfolding outcome_of
  late_success_keeps_cooldown calm good cooling =
      let o : Outcome F = observed fl s now f in
      elim (judge_success calm good cooling) [
        | inl (t, e) ↦ rw e (decide_quota_spent o.account o t)
        | inr e ↦ rw e (decide_late_success o.account o (observed-HoldsOn cooling))
      ]

  -- The deadline that a transient failure sets.
  abbrev pub backoff_deadline : Time
  backoff_deadline = add_time now (transient_backoff policy (wrap64 (s.failures +ℤ pos 1)))

  -- A server error, or a request that failed without one of the statuses that have a rule of their
  -- own.
  abbrev pub IsTransient : Type 0
  IsTransient =
      ((is_some f.request_error ≡ true) ⊎ (500 ≤ f.status_code))
      × (f.status_code ≢ 429)
      × (f.status_code ≢ 499)
      × ¬ IsRefused f.status_code

  -- The reports after which a running cooldown ends sooner.
  abbrev pub MayShorten : Type 0
  MayShorten =
      IsRefused f.status_code
      ⊎ (IsTransient
          × (quota_reset fl policy now s lease f ≡ none)
          × (backoff_deadline < s.cooldown_till))

  -- The cases of a verdict that may move a running cooldown back.
  Shortened : Verdict → Type 0
  Shortened v =
      (v ≡ permanent_failure) ⊎ ((v ≡ transient_failure) × (backoff_deadline < s.cooldown_till))
