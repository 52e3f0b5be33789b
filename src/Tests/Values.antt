-- ===== src/Tests/Values.antt =====
-- Accounts, a pool and a coordinator to apply the theorems to. The world is a clock that each look
-- at it moves on.
use grok_go.Base.{ℕ, suc, ◌+◌, ◌==◌, refl, String, true, false, none, some, [], ◌∷◌, if◌then◌else◌}
use grok_go.Base.Int.{pos}
use grok_go.Base.Map.{Map, lookup, insert}
use grok_go.Base.Result.{ok}
use grok_go.Domain.{
  Account, AccountStatus, Credentials, ModelSpec, QuotaSnapshot, Time, active, chat, cli_oauth,
  minute, zero_time,
}
use grok_go.Accounts.Policy.{default_policy}
use grok_go.Accounts.Pool.{
  Coordinator, Feedback, Lease, Pool, RuntimeState, Selection, Store, System, AffinityEntry,
}
use grok_go.Accounts.Reserve.Steady.{Steady, insert-Steady}

abbrev pub noon : Time
noon = 12_000_000_000_000

abbrev pub open_quota : QuotaSnapshot
open_quota = record {
  requests_limit = pos 100;
  requests_remaining = pos 60;
  requests_unlimited = false;
  tokens_limit = pos 0;
  tokens_remaining = pos 0;
  tokens_unlimited = false;
  reset_at = none;
  observed_at = noon;
}

abbrev pub account_of : String → AccountStatus → Account ℕ
account_of id status = record {
  id = id;
  kind = cli_oauth;
  tier = "super";
  status = status;
  credential_cipher = 1 ∷ 2 ∷ [];
  credential_fingerprint = 3 ∷ [];
  models = [];
  priority = pos 10;
  concurrency_limit = pos 1;
  health_score = 90;
  failure_count = pos 1;
  quota = open_quota;
  cooldown_until = none;
  last_used_at = none;
  last_error = "";
  details = record {
    name = id;
    email = "";
    credential_expires_at = none;
    proxy_id = "";
    tags = [];
    created_at = zero_time;
    updated_at = zero_time;
  };
}

abbrev pub state_of : Account ℕ → ℕ → Time → RuntimeState ℕ
state_of account inflight till = record {
  account = account;
  inflight = inflight;
  health = 90;
  failures = pos 1;
  cooldown_till = till;
  last_used_persisted = zero_time;
}

-- `a` is full and `b` has a free slot.
abbrev pub states : Map (RuntimeState ℕ)
states =
    ("a", state_of (account_of "a" active) 1 zero_time)
    ∷ ("b", state_of (account_of "b" active) 0 zero_time)
    ∷ []

abbrev pub model : ModelSpec
model = record {
  id = "grok-4";
  upstream_model = "grok-4";
  display_name = "Grok 4";
  capability = chat;
  credential_kinds = cli_oauth ∷ [];
  minimum_tier = "pro";
  aliases = [];
  prefer_best = true;
  catalog_managed = false;
  enabled = true;
  created_at = zero_time;
  updated_at = zero_time;
}

abbrev pub selection : Selection
selection = record { model = model; affinity_key = "talk"; exclude_ids = [] }

abbrev pub no_credentials : Credentials
no_credentials = record {
  access_token = "token";
  refresh_token = "";
  id_token = "";
  token_type = "";
  expires_at = zero_time;
  client_id = "";
  scope = "";
  sso = "";
  sso_rw = "";
  user_id = "";
  cf_clearance = "";
  user_agent = "";
  base_url = "";
  email = "";
  subscription = "";
  entitlement = "";
}

abbrev pub store : Store ℕ ℕ
store = record {
  list_accounts = λ w. (ok (account_of "a" active ∷ []), w);
  credentials = λ id w. (ok no_credentials, w);
  update_account = λ account w. (none, w);
}

-- A coordinator that knows of a binding to an account that has gone, and grants every lease.
abbrev pub coordinator : Coordinator ℕ
coordinator = record {
  acquire_lease =
      λ id limit ttl w. (ok (some (record { account_id = id; slot = pos 1; owner = "here" })), w);
  release_lease = λ lease w. (none, w + 100);
  get_affinity = λ m key w. (ok (some "gone"), w);
  bind_affinity = λ m key id ttl w. (ok (id, true), w);
  clear_affinity = λ m key id w. (none, w);
  cooldown_until = λ id w. (ok none, w);
  set_cooldown = λ id until w. (none, w);
  clear_cooldown = λ id w. (none, w);
}

abbrev pub binding : AffinityEntry
binding = record { account_id = "a"; expires_at = noon + minute; used_at = noon }

abbrev pub pool : Pool ℕ ℕ
pool = record {
  store = store;
  policy = default_policy;
  coordinator = some coordinator;
  now = λ w. (noon + w, suc w);
  loaded = true;
  states = states;
  affinities = ("grok-4\0talk", binding) ∷ [];
  round_robin = [];
  notifier = none;
}

abbrev pub system : System ℕ ℕ
system = record { pool = pool; world = 0 }

abbrev only_a : String → ℕ
only_a id = if "a" == id then 1 else 0

abbrev pub counters : String → ℕ
counters id = if "b" == id then 0 else only_a id

empty-Steady : Steady {F = ℕ} (λ id. 0) []
unfolding lookup
empty-Steady = record {
  distinct = tt;
  keyed = record { at_key = λ id s h. cc };
  counts = λ id. refl;
}

pub states-Steady : Steady counters states
unfolding insert
states-Steady =
    insert-Steady only_a counters "b" (state_of (account_of "b" active) 0 zero_time) _
      (insert-Steady (λ id. 0) only_a "a" (state_of (account_of "a" active) 1 zero_time) []
        empty-Steady refl (λ id. refl))
      refl (λ id. refl)

abbrev pub lease : Lease ℕ
lease = record {
  account = account_of "a" active;
  credentials = no_credentials;
  cache_identity_applied = true;
  affinity_reused = false;
  cache_affinity_established = true;
  coordination = some (record { account_id = "a"; slot = pos 1; owner = "here" });
  affinity_model = "grok-4";
  affinity_key = "talk";
}

abbrev pub feedback_of : ℕ → Feedback
feedback_of status = record {
  status_code = status;
  retry_after = pos 0;
  quota = none;
  request_error = none;
}
