-- ===== src/Tests/Serving.antt =====
-- The theorems on client keys and on the scripts of Redis, at concrete keys and servers.
use Prim.Native.String.{◌++◌}
use grok_go.Base.{
  ℕ, ◌+◌, ◌≡◌, refl, ap, sym, ◌==◌, if◌then◌else◌, true, false, none, some, [], ◌∷◌, arith, ◌≤◌,
  ◌<◌, ◌-◌, ◌*◌,
}
use grok_go.Base.Int.{pos}
use grok_go.Base.Result.{ok, ok_inj}
use grok_go.Base.Text.{trim_space}
use grok_go.Domain.{hour, ClientKey, second}
use grok_go.ApiKey.{Completion, no_completion}
use grok_go.ApiKey.Credential.{credential, credential_bearer}
use grok_go.ApiKey.Windows.{month_ttl, day, month_start, next_month}
use grok_go.ApiKey.Windows.Calendar.{month_window, month_unique}
use grok_go.ApiKey.Handler.{Counters, Served, Middleware, RequestHeaders, limited, handler}
use grok_go.ApiKey.Handler.Log.{logged, logged_next}
use grok_go.ApiKey.Handler.Orderly.{IsOrderly, limited-IsOrderly}
use grok_go.ApiKey.Handler.Authorised.{IsAuthorised, handler_agrees}
use grok_go.Tests.Values.{noon}

-- A key with all four limits.
abbrev limited_key : ClientKey
limited_key = record {
  id = "k";
  name = "key";
  prefix = "sk";
  digest = [];
  secret_cipher = [];
  secret_available = false;
  enabled = true;
  rpm = pos 10;
  concurrency_limit = pos 2;
  daily_request_limit = pos 100;
  monthly_token_limit = pos 1_000;
  last_used_at = none;
  expires_at = none;
  created_at = noon;
  updated_at = noon;
}

-- A store that grants everything and counts its calls.
abbrev generous : Counters ℕ
generous = record {
  add_window = λ k delta ttl w. (ok (pos 1), w + 1);
  acquire_slot = λ k limit ttl w. (ok true, w + 1);
  release_slot = λ k w. (none, w + 1);
}

abbrev usage : Completion
usage = record no_completion { input_tokens = pos 5; output_tokens = pos 7; usage_parsed = true }

abbrev answers : ClientKey → ℕ → Served × ℕ
answers key w = (record { reports = usage ∷ []; panics = false }, w + 1)

limited-IsOrderly_example :
    IsOrderly limited_key noon
      (limited (logged generous) (logged_next answers) (λ s. none) limited_key noon ([], 0)).0
      (limited (logged generous) (logged_next answers) (λ s. none) limited_key noon ([], 0)).1.0
limited-IsOrderly_example = limited-IsOrderly limited_key noon generous answers (λ w. none) 0

abbrev keyed : Middleware ℕ
keyed = record {
  authenticate = λ text w. (ok limited_key, w);
  counters = some generous;
  now = λ w. (noon, w);
  timeout = λ w. none;
}

abbrev with_key : RequestHeaders
with_key = record { api_key = "sk-1"; authorization = "" }

-- A handler that answers to one key only.
abbrev for_key : ClientKey → ℕ → Served × ℕ
for_key key w = if key.id == "k" then answers key w else (record { reports = []; panics = true }, w)

knows_key :
    (key : ClientKey) → IsAuthorised keyed with_key 0 key → (w : ℕ) → answers key w ≡ for_key key w
knows_key key h w =
    let same : limited_key ≡ key = ok_inj limited_key key h.known in
    let named : "k" ≡ key.id = ap (λ (x : ClientKey). x.id) same in rw (sym named) refl

handler_agrees_example : handler keyed answers with_key 0 ≡ handler keyed for_key with_key 0
handler_agrees_example = handler_agrees answers for_key keyed with_key 0 knows_key

credential_bearer_example : credential "" ("Bearer " ++ "sk-1") ≡ "sk-1"
unfolding trim_space
credential_bearer_example = credential_bearer "sk-1" refl refl

month_unique_example :
    (month_start (noon + second) ≡ month_start noon)
    × (next_month (noon + second) ≡ next_month noon)
unfolding month_start next_month
month_unique_example = month_unique noon (noon + second) (ground arith) (ground arith)

month_window_example :
    (month_start noon ≤ noon)
    × (noon < next_month noon)
    × (month_ttl noon ≡ pos (next_month noon - noon + hour))
    × (next_month noon ≤ noon + 31 * day)
month_window_example = month_window noon
