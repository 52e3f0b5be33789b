-- ===== src/Gateway/Invoke.antt =====
-- internal/gateway/handler.go: the attempts of a request over leases of accounts, and what becomes
-- of the lease. The pool, the proxies, the upstream and the renewal of credentials act on a world.
pub mod Ledger
pub mod Fair
pub mod Attempts
use grok_go.Base.{
  ℕ, zero, suc, ◌-◌, ◌<◌, String, Bool, true, false, Option, none, some, List, [], ◌∷◌, ◌==◌, ◌||◌,
  ◌&&◌, not, eqb, leb, ltb, is_some, if◌then◌else◌,
}
use grok_go.Base.Int.{ℤ, pos, pos_part}
use grok_go.Base.Result.{Error, Result, ok, err, external, no_account}
use grok_go.Domain.{CredentialKind, Credentials, ModelSpec, Time, kind_eq, cli_oauth}
use grok_go.Accounts.Pool.{Feedback, Lease, Selection}
use grok_go.Accounts.HttpFeedback.{Header, TimeParsers}
use grok_go.Gateway.{Operation, retryable}
use grok_go.Gateway.Response.{
  Response, JsonBody, feedback_from_response, request_error_of, upstream_error_message,
}

-- What the gateway takes of the pool; the error of a release is dropped.
pub record Accounts (F W : Type 0) : Type 0 where
  pub acquire : Selection → W → Result (Lease F) × W
  pub release : Lease F → Feedback → W → W

-- upstream.Request, but for the fields of a poll.
pub record Request : Type 0 where
  pub operation : Operation
  pub model : String
  pub upstream_model : String
  pub prompt_cache_key : String
  pub credential_kind : CredentialKind
  pub credentials : Credentials
  pub proxy_url : String
  pub body : String
  pub headers : List (String × String)
  pub stream : Bool

-- Config as far as invoke reads it. MaxAttempts is positive, which NewHandler sees to.
pub record Config (F W : Type 0) : Type 0 where
  pub accounts : Accounts F W
  pub upstream : Request → W → Result Response × W
  pub proxy_url : Option (String → W → Result String × W)
  pub refresh_account : Option (String → W → Option Error × W)
  pub max_attempts : ℕ
  pub now : W → Time × W
  pub parsers : TimeParsers
  pub read_json : String → Option JsonBody

-- A set of account IDs, as a map to empty structs.
abbrev pub is_among : List String → String → Bool
is_among [] id = false
is_among (j ∷ ids) id = (j == id) || is_among ids id

-- The variables of the loop.
pub record Tries : Type 0 where
  pub excluded : List String
  pub refreshed : List String
  pub last_error : Option Error

abbrev pub no_tries : Tries
no_tries = record { excluded = []; refreshed = []; last_error = none }

-- An attempt that failed on an account, which is not asked for again.
abbrev pub failed_on : String → Error → Tries → Tries
failed_on id e t = record t { excluded = id ∷ t.excluded; last_error = some e }

-- A renewal, and its error if it failed.
abbrev pub renewed : String → Option Error → Tries → Tries
renewed id none t = record t { refreshed = id ∷ t.refreshed }
renewed id (some e) t = record t {
  refreshed = id ∷ t.refreshed;
  excluded = id ∷ t.excluded;
  last_error = some e;
}

abbrev pub last_or : Option Error → Error → Error
last_or none e = e
last_or (some d) e = d

-- forwardedHeaders
unfoldable pub forwarded_headers : Header → List String → List (String × String)
forwarded_headers source [] = []
forwarded_headers source (name ∷ names) =
    let rest = forwarded_headers source names in
    if source name == "" then rest else (name, source name) ∷ rest

abbrev pub forwarded_names : List String
forwarded_names = "X-Grok-Conv-Id" ∷ "X-Claude-Code-Session-Id" ∷ "X-Request-Id" ∷ []

-- The arguments of invoke.
pub record Call : Type 0 where
  pub operation : Operation
  pub model : ModelSpec
  pub body : String
  pub headers : Header
  pub stream : Bool
  pub affinity : String
  pub prompt_cache_key : String

abbrev pub feedback_of : ℕ → Option Error → Feedback
feedback_of status e = record {
  status_code = status;
  retry_after = pos 0;
  quota = none;
  request_error = elim e [ none ↦ none | some d ↦ some (request_error_of d) ];
}

module _ {F W : Type 0} (c : Config F W) (call : Call) where
  -- The URL of the account's proxy, empty if it has none.
  unfoldable pub proxy_of : Lease F → W → Result String × W
  proxy_of lease w = if lease.account.details.proxy_id == "" then (ok "", w) else elim c.proxy_url [
    | none ↦ (ok "", w)
    | some url_of ↦ url_of lease.account.details.proxy_id w
  ]

  abbrev pub request_of : Lease F → String → Request
  request_of lease url = record {
    operation = call.operation;
    model = call.model.id;
    upstream_model = call.model.upstream_model;
    prompt_cache_key = call.prompt_cache_key;
    credential_kind = lease.account.kind;
    credentials = lease.credentials;
    proxy_url = url;
    body = call.body;
    headers = forwarded_headers call.headers forwarded_names;
    stream = call.stream;
  }

  -- The renewal of credentials that a 401 asks for, if there is one and it was not tried before;
  -- `left` is the number of attempts after this one.
  unfoldable pub renewal : Lease F → Response → ℕ → Tries → Option (String → W → Option Error × W)
  renewal lease response left t =
      if eqb response.status_code 401
        && kind_eq lease.account.kind cli_oauth
        && ltb 0 left
        && not (is_among t.refreshed lease.account.id)
      then c.refresh_account
      else none

  abbrev pub selection_of : Tries → Selection
  selection_of t = record {
    model = call.model;
    affinity_key = call.affinity;
    exclude_ids = t.excluded;
  }

  -- The loop of invoke with the attempts that are left.
  pub attempts : ℕ → Tries → W → Result (Response × Lease F) × W
  attempts zero t w = (err (last_or t.last_error no_account), w)
  attempts (suc left) t w =
      let (acquired, w1) = c.accounts.acquire (selection_of t) w in
      elim acquired [
        | err e ↦ (err (last_or t.last_error e), w1)
        | ok lease ↦
            let id = lease.account.id in
            let (proxied, w2) = proxy_of lease w1 in
            elim proxied [
              | err e ↦
                  attempts left (failed_on id e t)
                    (c.accounts.release lease (feedback_of 502 (some e)) w2)
              | ok url ↦
                  let (answered, w3) = c.upstream (request_of lease url) w2 in
                  elim answered [
                    | err e ↦
                        attempts left (failed_on id e t)
                          (c.accounts.release lease (feedback_of 502 (some e)) w3)
                    | ok response ↦ elim (renewal lease response left t) [
                      | some refresh ↦
                          let (unrenewed, w4) = refresh id w3 in
                          attempts left (renewed id unrenewed t)
                            (c.accounts.release lease (feedback_of 499 none) w4)
                      | none ↦ elim (retryable response.status_code && ltb 0 left) [
                        | true ↦
                            let e = external (upstream_error_message c.read_json response) in
                            let (now, w4) = c.now w3 in
                            let (second, w5) = c.now w4 in
                            attempts left (failed_on id e t) (
                              c.accounts.release lease
                                (feedback_from_response c.parsers response e now second) w5)
                        | false ↦ (ok (response, lease), w3)
                      ]
                    ]
                  ]
            ]
      ]

  -- Handler.invoke
  unfoldable pub invoke : W → Result (Response × Lease F) × W
  unfolding attempts
  invoke w = attempts c.max_attempts no_tries w
