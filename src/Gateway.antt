-- ===== src/Gateway.antt =====
-- internal/gateway/handler.go: the operations of the interface, their paths and models, and the
-- statuses and kinds of errors.
pub mod Response
pub mod Invoke
pub mod Handle
use grok_go.Base.{
  ℕ, String, Bool, true, false, Option, none, some, ◌==◌, ◌||◌, ◌&&◌, eqb, leb, ltb, if◌then◌else◌,
}
use grok_go.Base.Text.{trim_slash}
use grok_go.Domain.{
  Capability, capability_eq, chat, responses, messages, image, image_edit, video, ModelSpec,
}

-- upstream.Operation, but for the one that a poll of a video uses.
pub data Operation : Type 0 where
  chats responding messaging imaging editing filming : Operation

-- operationForPath; `none` is the empty operation.
unfoldable pub operation_for_path : String → Option Operation
unfolding trim_slash
operation_for_path path =
    let route = trim_slash path in
    if route == "/v1/chat/completions"
    then some chats
    else if route == "/v1/responses"
    then some responding
    else if route == "/v1/messages"
    then some messaging
    else if route == "/v1/images/generations"
    then some imaging
    else if route == "/v1/images/edits"
    then some editing
    else if route == "/v1/videos" || route == "/v1/videos/generations"
    then some filming
    else none

-- allowsOperation
unfoldable pub allows_operation : ModelSpec → Operation → Bool
allows_operation model chats =
    capability_eq model.capability chat
    || capability_eq model.capability image
    || capability_eq model.capability image_edit
    || capability_eq model.capability video
allows_operation model responding =
    capability_eq model.capability responses || capability_eq model.capability chat
allows_operation model messaging =
    capability_eq model.capability messages || capability_eq model.capability chat
allows_operation model imaging = capability_eq model.capability image
allows_operation model editing = capability_eq model.capability image_edit
allows_operation model filming = capability_eq model.capability video

-- isConversational
abbrev pub is_conversational : Operation → Bool
is_conversational chats = true
is_conversational responding = true
is_conversational messaging = true
is_conversational _ = false

unfoldable pub retryable : ℕ → Bool
retryable status =
    eqb status 401 || eqb status 403 || eqb status 423 || eqb status 429 || leb 500 status

unfoldable pub map_status : ℕ → ℕ
map_status status =
    if eqb status 400 || eqb status 401 || eqb status 403 || eqb status 404 || eqb status 429
    then status
    else 502

unfoldable pub error_type : ℕ → String
error_type status =
    if eqb status 429
    then "rate_limit_error"
    else if leb 400 status && ltb status 500
    then "invalid_request_error"
    else "server_error"

-- The kind that writeOperationError gives an error of the messages interface.
unfoldable pub message_error_kind : ℕ → String
message_error_kind status =
    if eqb status 400
    then "invalid_request_error"
    else if eqb status 401
    then "authentication_error"
    else if eqb status 403
    then "permission_error"
    else if eqb status 404
    then "not_found_error"
    else if eqb status 413
    then "request_too_large"
    else if eqb status 429
    then "rate_limit_error"
    else if eqb status 503
    then "overloaded_error"
    else "api_error"
