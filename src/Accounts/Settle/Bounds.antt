-- ===== src/Accounts/Settle/Bounds.antt =====
-- The health scores stay between 0.05 and 1.
use grok_go.Base.{ℕ, ◌≤◌, ◌≡◌, false, arith}
use grok_go.Base.Float.{Float, IsScaled}
use grok_go.Domain.{Time, Account}
use grok_go.Accounts.Policy.{Policy}
use grok_go.Accounts.Pool.{RuntimeState, Lease, Feedback}
use grok_go.Accounts.Feedback.{
  Outcome, Verdict, terminal_change, rate_limited, permanent_failure, quota_spent, late_success,
  success, client_cancel, transient_failure, neutral, judge, decide, worsen,
}
use grok_go.Accounts.Settle.{outcome_of, observed}

module _ {F : Type 0} (fl : Float F) (laws : IsScaled fl) where
  -- 0.05 ≤ health ≤ 1.
  pub record IsHealth (h : F) : Type 0 where
    pub floor : fl.lt h (fl.hundredths 5) ≡ false
    pub ceiling : fl.lt (fl.hundredths 100) h ≡ false

  worsen-IsHealth : (h : F) (n : ℕ) → n ≤ 100 → IsHealth h → IsHealth (worsen fl h n)
  worsen-IsHealth h n small k = record {
    floor = laws.max_ge (fl.hundredths 5) (fl.mul h (fl.hundredths n));
    ceiling =
        laws.max_le (fl.hundredths 5) (fl.mul h (fl.hundredths n)) (fl.hundredths 100)
          (laws.literal_mono 5 100 (omega arith)) (laws.mul_shrinks h n small k.ceiling);
  }

  improve-IsHealth :
      (h : F) → IsHealth h → IsHealth (fl.min (fl.hundredths 100) (fl.add h (fl.hundredths 12)))
  improve-IsHealth h k = record {
    floor =
        laws.min_ge (fl.hundredths 100) (fl.add h (fl.hundredths 12)) (fl.hundredths 5)
          (laws.literal_mono 5 100 (omega arith)) (laws.add_grows h k.floor);
    ceiling = laws.min_le (fl.hundredths 100) (fl.add h (fl.hundredths 12));
  }

  decide-IsHealth :
      (policy : Policy) (now : Time) (s : RuntimeState F) (a : Account F) (f : Feedback)
      (o : Outcome F) (v : Verdict)
      → IsHealth s.health
      → IsHealth o.health
      → IsHealth (decide fl policy now s a f o v).health
  unfolding decide
  decide-IsHealth policy now s a f o terminal_change h k = k
  decide-IsHealth policy now s a f o rate_limited h k = worsen-IsHealth s.health 45 (omega arith) h
  decide-IsHealth policy now s a f o permanent_failure h k =
      worsen-IsHealth s.health 25 (omega arith) h
  decide-IsHealth policy now s a f o (quota_spent r) h k =
      worsen-IsHealth s.health 90 (omega arith) h
  decide-IsHealth policy now s a f o late_success h k = k
  decide-IsHealth policy now s a f o success h k = improve-IsHealth s.health h
  decide-IsHealth policy now s a f o client_cancel h k = k
  decide-IsHealth policy now s a f o transient_failure h k =
      worsen-IsHealth s.health 75 (omega arith) h
  decide-IsHealth policy now s a f o neutral h k = k

  -- Whatever a request reports, a health score between 0.05 and 1 stays between them, by the laws
  -- of IsScaled.
  pub outcome_of-IsHealth :
      (policy : Policy) (now : Time) (s : RuntimeState F) (lease : Lease F) (f : Feedback)
      → IsHealth s.health
      → IsHealth (outcome_of fl policy now s lease f).health
  unfolding outcome_of observed
  outcome_of-IsHealth policy now s lease f h =
      decide-IsHealth policy now s (observed fl s now f).account f (observed fl s now f)
        (judge policy now lease.account.status s (observed fl s now f).account f) h h
