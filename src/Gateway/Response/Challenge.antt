-- ===== src/Gateway/Response/Challenge.antt =====
-- A challenge of the upstream's protection, which comes as a 403, is not taken for a refusal of the
-- account's credentials.
use grok_go.Base.{eqb, ℕ, ◌≡◌, true, false, arith}
use grok_go.Base.Result.{Error}
use grok_go.Domain.{Account, AccountStatus, Time}
use grok_go.Accounts.Policy.{Policy}
use grok_go.Accounts.Pool.{RuntimeState}
use grok_go.Accounts.HttpFeedback.{TimeParsers}
use grok_go.Accounts.Feedback.{judge, is_permanent_credential_failure}
use grok_go.Accounts.Feedback.Verdicts.{IsMild, judge-IsMild}
use grok_go.Gateway.Response.{Response, is_upstream_protection_challenge, feedback_from_response}

challenge_status :
    (parsers : TimeParsers) (response : Response) (e : Error) (now second : Time)
    → is_upstream_protection_challenge response ≡ true
    → (feedback_from_response parsers response e now second).status_code ≡ 0
unfolding feedback_from_response
challenge_status parsers response e now second challenged = rw challenged

mild_zero :
    (status : ℕ)
    → status ≡ 0
    → (eqb status 429 ≡ false) × (is_permanent_credential_failure status ≡ false)
unfolding is_permanent_credential_failure
mild_zero status zero = (ground (arith, zero), ground (arith, zero))

module _ {F : Type 0} where
  -- The pool neither disables an account nor lets it rest for a challenge as for a 429, whatever
  -- the state of the account.
  pub challenge_spares_account :
      (parsers : TimeParsers) (response : Response) (e : Error) (first second : Time)
      (policy : Policy) (now : Time) (leased : AccountStatus) (s : RuntimeState F)
      (account : Account F)
      → is_upstream_protection_challenge response ≡ true
      → IsMild (
          judge policy now leased s account
            (feedback_from_response parsers response e first second))
  challenge_spares_account parsers response e first second policy now leased s account challenged =
      let f = feedback_from_response parsers response e first second in
      let (calm, kept) =
        mild_zero f.status_code (challenge_status parsers response e first second challenged) in
      judge-IsMild policy now leased s account f calm kept
