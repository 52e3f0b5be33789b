-- ===== src/Tests/Forwarding.antt =====
-- The theorems on the gateway, at a pool of two accounts and an upstream that fails for the first.
use grok_go.Base.{ℕ, ◌+◌, refl, String, false, none, [], if◌then◌else◌}
use grok_go.Base.Result.{ok, no_account}
use grok_go.Domain.{active}
use grok_go.Accounts.Policy.{default_policy}
use grok_go.Accounts.Pool.{RuntimeState, Lease}
use grok_go.Accounts.HttpFeedback.{TimeParsers}
use grok_go.Accounts.Feedback.{judge}
use grok_go.Accounts.Feedback.Verdicts.{IsMild}
use grok_go.Gateway.{chats}
use grok_go.Gateway.Response.{Response, is_upstream_protection_challenge, feedback_from_response}
use grok_go.Gateway.Response.Challenge.{challenge_spares_account}
use grok_go.Gateway.Invoke.{Accounts, Config, Call, is_among, invoke}
use grok_go.Gateway.Invoke.Ledger.{logged}
use grok_go.Gateway.Invoke.Fair.{IsSettled}
use grok_go.Gateway.Invoke.Attempts.{invoke-IsSettled}
use grok_go.Gateway.Handle.{Gateway, handle_operation}
use grok_go.Gateway.Handle.Returned.{handing, IsFree, handle_operation-IsFree}
use grok_go.Tests.Values.{account_of, lease, model, noon, state_of}

abbrev lease_on : String → Lease ℕ
lease_on id = record lease { account = account_of id active }

-- The world counts the calls.
abbrev two_accounts : Accounts ℕ ℕ
two_accounts = record {
  acquire = λ selection w.
      (ok (lease_on (if is_among selection.exclude_ids "a" then "b" else "a")), w + 1);
  release = λ lease f w. w + 1;
}

abbrev plain_response : ℕ → Response
plain_response status = record { status_code = status; header = λ name. ""; body = "" }

abbrev no_parsers : TimeParsers
no_parsers = record {
  parse_duration = λ text. none;
  parse_http_time = λ text. none;
  parse_rfc3339 = λ text. none;
}

abbrev config : Config ℕ ℕ
config = record {
  accounts = two_accounts;
  upstream = λ request w. (ok (plain_response 503), w + 1);
  proxy_url = none;
  refresh_account = none;
  max_attempts = 3;
  now = λ w. (noon, w);
  parsers = no_parsers;
  read_json = λ text. none;
}

abbrev call : Call
call = record {
  operation = chats;
  model = model;
  body = "{}";
  headers = λ name. "";
  stream = false;
  affinity = "";
  prompt_cache_key = "";
}

invoke-IsSettled_example :
    IsSettled 3 (invoke (logged config) call ([], 0)).0 (invoke (logged config) call ([], 0)).1.0
invoke-IsSettled_example = invoke-IsSettled config call 0

-- The deliveries count as calls.
abbrev gateway : Gateway ℕ ℕ
gateway = record {
  read_payload = λ s. (
    ok (record {
      body = "{}";
      model = "grok-4";
      stream = false;
      issue = λ operation. none;
      affinity = λ model. "";
      prompt_cache_key = λ model. "";
    }),
    s,
  );
  resolve_model = λ name s. (ok model, s);
  report_nothing = λ lease s. s;
  stream = λ operation model response lease s. s + 1;
  non_stream = λ operation model payload response lease s. s + 1;
}

handle_operation-IsFree_example :
    IsFree (handle_operation (logged config) (handing gateway) chats (λ name. "") ([], 0)).1.0
handle_operation-IsFree_example = handle_operation-IsFree config gateway chats (λ name. "") 0

abbrev well : RuntimeState ℕ
well = state_of (account_of "a" active) 1 noon

abbrev challenge : Response
challenge = record { status_code = 403; header = λ name. "challenge"; body = "" }

challenge_spares_account_example : IsMild (
    judge default_policy noon active well
      (account_of "a" active)
      (feedback_from_response no_parsers challenge no_account noon noon))
unfolding is_upstream_protection_challenge
challenge_spares_account_example =
    challenge_spares_account no_parsers challenge no_account noon noon default_policy noon active
      well (account_of "a" active) refl
