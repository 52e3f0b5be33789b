-- ===== src/Gateway/Handle.antt =====
-- internal/gateway/handler.go: routing, and the handling of a POST of an operation up to its
-- delivery. The reading of a body, the models, the validation and the identities of a cache are
-- parameters, as are the deliveries of a response, to which the lease goes (Handler.stream and
-- Handler.nonStream).
pub mod Returned
use Prim.Native.String.{◌++◌}
use grok_go.Base.{
  ℕ, String, Bool, true, false, Option, none, some, List, [], ◌∷◌, ◌==◌, ◌||◌, ◌&&◌, not, leb, ltb,
  if◌then◌else◌,
}
use grok_go.Base.Text.{trim_space, trim_slash}
use grok_go.Base.Result.{Error, Result, ok, err, external, no_account, wrap, join}
use grok_go.Domain.{ModelSpec}
use grok_go.Accounts.Pool.{Lease}
use grok_go.Accounts.HttpFeedback.{Header}
use grok_go.Gateway.{
  Operation, operation_for_path, allows_operation, is_conversational, map_status, error_type,
}
use grok_go.Gateway.Response.{Response, feedback_from_response, upstream_error_message}
use grok_go.Gateway.Invoke.{Call, Config, invoke}

-- What writeOperationError is given, but for the text of the message.
pub record Fault : Type 0 where
  pub status : ℕ
  pub kind : String
  pub code : String
  pub parameter : String

-- A validated field that is refused.
pub record Issue : Type 0 where
  pub code : String
  pub param : String

-- A payload as far as the handler reads it: "model" if it is a text, "stream" if it is true.
pub record Payload : Type 0 where
  pub body : String
  pub model : String
  pub stream : Bool
  pub issue : Operation → Option Issue
  pub affinity : ModelSpec → String
  pub prompt_cache_key : ModelSpec → String

-- The parts around the attempts, which act on the same world.
pub record Gateway (F W : Type 0) : Type 0 where
  pub read_payload : W → Result Payload × W
  pub resolve_model : String → W → Result ModelSpec × W
  -- OnCompletion without usage, if it is set.
  pub report_nothing : Lease F → W → W
  pub stream : Operation → ModelSpec → Response → Lease F → W → W
  pub non_stream : Operation → ModelSpec → Payload → Response → Lease F → W → W

-- How a request ends: with an error, or with the response that was delivered.
pub data Handled : Type 0 where
  fault : Fault → Handled
  delivered : Handled

abbrev pub bad_request : String → String → Handled
bad_request code parameter =
    fault
      (record { status = 400; kind = "invalid_request_error"; code = code; parameter = parameter })

abbrev pub no_model : Handled
no_model = fault (record {
  status = 404;
  kind = "invalid_request_error";
  code = "model_not_found";
  parameter = "model";
})

-- errors.Is(err, accounts.ErrNoAccount)
abbrev pub is_no_account : Error → Bool
is_no_account no_account = true
is_no_account (wrap text e) = is_no_account e
is_no_account (join d e) =
    let first = is_no_account d in let second = is_no_account e in first || second
is_no_account _ = false

abbrev pub invoke_fault : Error → Handled
invoke_fault e =
    if is_no_account e
    then fault (record {
      status = 429;
      kind = error_type 429;
      code = "rate_limit_exceeded";
      parameter = "";
    })
    else fault
        (record { status = 502; kind = error_type 502; code = "upstream_error"; parameter = "" })

abbrev pub upstream_fault : ℕ → Handled
upstream_fault status = fault (record {
  status = map_status status;
  kind = error_type (map_status status);
  code = "upstream_error";
  parameter = "";
})

abbrev pub call_of : Operation → Header → ModelSpec → Payload → Call
call_of operation headers model payload = record {
  operation = operation;
  model = model;
  body = payload.body;
  headers = headers;
  stream = payload.stream;
  affinity = payload.affinity model;
  prompt_cache_key = payload.prompt_cache_key model;
}

module _ {F W : Type 0} (c : Config F W) (g : Gateway F W) (operation : Operation)
    (headers : Header) where
  -- What becomes of a response and its lease.
  unfoldable pub deliver : ModelSpec → Payload → Response → Lease F → W → Handled × W
  deliver model payload response lease w =
      if ltb response.status_code 200 || leb 300 response.status_code
      then (let e = external (upstream_error_message c.read_json response) in
          let w1 = g.report_nothing lease w in
          let (now, w2) = c.now w1 in
          let (second, w3) = c.now w2 in
          (
            upstream_fault response.status_code,
            c.accounts.release lease (feedback_from_response c.parsers response e now second) w3,
          ))
      else if payload.stream && is_conversational operation
      then (delivered, g.stream operation model response lease w)
      else (delivered, g.non_stream operation model payload response lease w)

  -- The request from the resolved model on.
  unfoldable pub answer : ModelSpec → Payload → W → Handled × W
  unfolding invoke deliver
  answer model payload w =
      let (result, w1) = invoke c (call_of operation headers model payload) w in
      elim result [
        | err e ↦ (invoke_fault e, w1)
        | ok (response, lease) ↦ deliver model payload response lease w1
      ]

  -- Handler.handleOperation
  unfoldable pub handle_operation : W → Handled × W
  unfolding allows_operation answer trim_space
  handle_operation w =
      let (read, w1) = g.read_payload w in
      elim read [
        | err e ↦ (bad_request "invalid_json" "body", w1)
        | ok payload ↦
            if trim_space payload.model == ""
            then (bad_request "missing_parameter" "model", w1)
            else (let (resolved, w2) = g.resolve_model payload.model w1 in
                elim resolved [
                  | err e ↦ (no_model, w2)
                  | ok model ↦
                      if not (allows_operation model operation)
                      then (no_model, w2)
                      else elim (payload.issue operation) [
                        | some issue ↦ (bad_request issue.code issue.param, w2)
                        | none ↦ answer model payload w2
                      ]
                ])
      ]
