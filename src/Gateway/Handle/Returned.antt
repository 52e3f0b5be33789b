-- ===== src/Gateway/Handle/Returned.antt =====
-- The handler of an operation parts with every lease: it gives it back, or hands it to the delivery
-- of the response, whose release (Handler.stream, Handler.nonStream and what they start) is not
-- modelled.
use grok_go.Base.{
  ◌∷◌, refl, ◌==◌, ◌+◌, ◌≡◌, ap, String, List, ◌||◌, ◌&&◌, arith, if_cases, ltb, leb, [], ◌∙◌, sym,
  not, option_cases,
}
use grok_go.Base.Result.{ok, external, result_split}
use grok_go.Domain.{ModelSpec}
use grok_go.Accounts.Pool.{Feedback, Lease}
use grok_go.Accounts.HttpFeedback.{Header}
use grok_go.Gateway.{Operation, is_conversational, allows_operation}
use grok_go.Gateway.Response.{Response, feedback_from_response, upstream_error_message}
use grok_go.Gateway.Invoke.{Config}
use grok_go.Gateway.Invoke.Ledger.{Event, logged, note_return, count, grants, returns, given_back}
use grok_go.Gateway.Invoke.Fair.{handed_on}
use grok_go.Gateway.Invoke.Attempts.{invoke_from_empty}
use grok_go.Gateway.Handle.{
  Gateway, Payload, Handled, deliver, answer, handle_operation, call_of, invoke, trim_space,
}

module _ {F W : Type 0} where
  -- The parts around the attempts, which do not ask the pool, with each lease that is handed to a
  -- delivery written down as one that the handler parts with.
  abbrev pub handing : Gateway F W → Gateway F (List Event × W)
  handing g = record {
    read_payload = λ s. let (payload, w) = g.read_payload s.1 in (payload, (s.0, w));
    resolve_model = λ name s. let (model, w) = g.resolve_model name s.1 in (model, (s.0, w));
    report_nothing = λ lease s. (s.0, g.report_nothing lease s.1);
    stream = λ operation model response lease s.
        (given_back lease.account.id ∷ s.0, g.stream operation model response lease s.1);
    non_stream = λ operation model payload response lease s. (
      given_back lease.account.id ∷ s.0,
      g.non_stream operation model payload response lease s.1,
    );
  }

-- The handler has parted with each lease as often as it was granted one on the account.
pub record IsFree (log : List Event) : Type 0 where
  pub free : (id : String) → count (returns id) log ≡ count (grants id) log

empty-IsFree : (log : List Event) → log ≡ [] → IsFree log
empty-IsFree log empty = rw empty (record { free = λ id. refl })

module _ {F W : Type 0} (c : Config F W) (g : Gateway F W) (operation : Operation)
    (headers : Header) where
  abbrev Free : Handled × (List Event × W) → Type 0
  Free r = IsFree r.1.0

  note_return-IsFree :
      (lease : Lease F) (f : Feedback) (log after : List Event) (response : Response)
      → after ≡ note_return lease f log
      → ((id : String)
          → count (returns id) log + handed_on id (ok (response, lease)) ≡ count (grants id) log)
      → IsFree after
  note_return-IsFree lease f log after response noted held =
      rw noted (record { free = λ id. ground (arith, held id) })

  deliver-IsFree :
      (model : ModelSpec) (payload : Payload) (response : Response) (lease : Lease F)
      (s : List Event × W)
      → ((id : String)
          → count (returns id) s.0 + handed_on id (ok (response, lease)) ≡ count (grants id) s.0)
      → Free (deliver (logged c) (handing g) operation headers model payload response lease s)
  unfolding deliver
  deliver-IsFree model payload response lease s held =
      if_cases Free (ltb response.status_code 200 || leb 300 response.status_code) _ _
        (λ _.
          let e = external (upstream_error_message c.read_json response) in
          let reported = (handing g).report_nothing lease s in
          let first = (logged c).now reported in
          let second = (logged c).now first.1 in
          let f = feedback_from_response c.parsers response e first.0 second.0 in
          note_return-IsFree lease f s.0 _ response refl held)
        (λ _.
          if_cases Free (payload.stream && is_conversational operation) _ _
            (λ _. record { free = λ id. ground (arith, held id) })
            (λ _. record { free = λ id. ground (arith, held id) }))

  answer-IsFree :
      (model : ModelSpec) (payload : Payload) (s : List Event × W)
      → s.0 ≡ []
      → Free (answer (logged c) (handing g) operation headers model payload s)
  unfolding answer
  answer-IsFree model payload s empty =
      let call = call_of operation headers model payload in
      let settled = invoke_from_empty c call s empty in
      let result = invoke (logged c) call s in
      result_split Free result.0 _ _
        (λ e failed. record {
          free = λ id. omega (arith, settled.held id, ap (handed_on id) failed);
        })
        (λ got same. deliver-IsFree model payload got.0 got.1 result.1 (λ id.
          ap (λ r. count (returns id) result.1.0 + handed_on id r) (sym same) ∙ settled.held id))

  -- A request of an operation, for any pool and any upstream and whichever way it ends, parts with
  -- each lease that it was granted exactly once: the lease is given back, or handed to the delivery
  -- of the response.
  pub handle_operation-IsFree :
      (w : W) → IsFree (handle_operation (logged c) (handing g) operation headers ([], w)).1.0
  unfolding handle_operation
  handle_operation-IsFree w =
      let start : List Event × W = ([], w) in
      let read = (handing g).read_payload start in
      result_split Free read.0 _ _ (λ e _. empty-IsFree _ refl)
        (λ payload _.
          let resolved = (handing g).resolve_model payload.model read.1 in
          if_cases Free (trim_space payload.model == "") _ _ (λ _. empty-IsFree _ refl)
            (λ _.
              result_split Free resolved.0 _ _ (λ e _. empty-IsFree _ refl)
                (λ model _.
                  if_cases Free (not (allows_operation model operation)) _ _
                    (λ _. empty-IsFree _ refl)
                    (λ _.
                      option_cases Free (payload.issue operation) _ _
                        (λ _. answer-IsFree model payload resolved.1 refl)
                        (λ issue _. empty-IsFree _ refl)))))
