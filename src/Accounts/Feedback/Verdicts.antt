-- ===== src/Accounts/Feedback/Verdicts.antt =====
-- Which statuses lead to the verdicts that disable an account or let it rest.
use grok_go.Base.{◌≡◌, ◌≢◌, false, arith, if_cases, option_cases, ◌&&◌, not, eqb, is_some}
use grok_go.Domain.{Account, AccountStatus, Time, status_eq}
use grok_go.Accounts.Policy.{Policy}
use grok_go.Accounts.Quota.{exhausted_quota_reset}
use grok_go.Accounts.Pool.{Feedback, RuntimeState}
use grok_go.Accounts.Feedback.{
  Verdict, judge, judge_result, permanent_failure, rate_limited, is_permanent_credential_failure,
  is_terminal_account_status,
}

-- A verdict other than those that a status alone leads to.
pub record IsMild (v : Verdict) : Type 0 where
  pub not_permanent : v ≢ permanent_failure
  pub not_limited : v ≢ rate_limited

module _ {F : Type 0} (policy : Policy) (now : Time) (leased : AccountStatus) (s : RuntimeState F)
    (account : Account F) (f : Feedback) where
  judge_result-IsMild : IsMild (judge_result s account now f)
  unfolding judge_result
  judge_result-IsMild = record { not_permanent = ground arith; not_limited = ground arith }

  pub judge-IsMild :
      eqb f.status_code 429 ≡ false
      → is_permanent_credential_failure f.status_code ≡ false
      → IsMild (judge policy now leased s account f)
  unfolding judge
  judge-IsMild calm kept =
      if_cases IsMild
        (not (status_eq account.status leased) && is_terminal_account_status account.status) _ _
        (λ _. record {
          not_permanent = λ e. absurd (ground (arith, e));
          not_limited = λ e. absurd (ground (arith, e));
        })
        (λ _.
          if_cases IsMild (eqb f.status_code 429) _ _
            (λ limited. absurd (ground (arith, limited, calm)))
            (λ _.
              if_cases IsMild (is_permanent_credential_failure f.status_code) _ _
                (λ lost. absurd (ground (arith, lost, kept)))
                (λ _.
                  option_cases IsMild
                    (exhausted_quota_reset account.quota account.kind policy now (is_some f.quota))
                    _ _ (λ _. judge_result-IsMild)
                    (λ reset _. record {
                      not_permanent = λ e. absurd (ground (arith, e));
                      not_limited = λ e. absurd (ground (arith, e));
                    }))))
