-- ===== src/Gateway/Invoke/Attempts.antt =====
-- The attempts of a request: each lease is given back or handed on, a failed account is not asked
-- for again, and the credentials of an account are renewed at most once.
use grok_go.Base.{
  subst, sym, some_inj, ℕ, zero, suc, ◌+◌, ◌≤◌, ◌≡◌, ◌∙◌, refl, ap, String, true, false, Option,
  none, some, List, [], ◌∷◌, ◌==◌, ◌&&◌, if_cases, option_cases, bool_split, arith, ltb,
}
use grok_go.Base.Result.{Error, Result, ok, err, external, result_split}
use grok_go.Accounts.Pool.{Feedback, Lease}
use grok_go.Gateway.{retryable}
use grok_go.Gateway.Response.{Response, upstream_error_message, feedback_from_response}
use grok_go.Gateway.Invoke.{
  Config, Call, Tries, no_tries, failed_on, feedback_of, is_among, proxy_of, selection_of, renewal,
  renewed, request_of, attempts, invoke,
}
use grok_go.Gateway.Invoke.Ledger.{
  Event, asked, granted, given_back, note_lease, note_return, note_renewal, logged, logged_refresh,
  logged_renewal, unlogged_proxy, count, asks,
}
use grok_go.Gateway.Invoke.Fair.{Fair, IsSettled, failed-Fair, renewed-Fair, asked-Fair}

module _ {F W : Type 0} (c : Config F W) (call : Call) where
  renewal-logged :
      (lease : Lease F) (response : Response) (left : ℕ) (t : Tries)
      → renewal (logged c) call lease response left t
        ≡ logged_refresh (renewal c call lease response left t)
  unfolding renewal
  renewal-logged lease response left t = ground arith

  unlogged_renewal :
      (o : Option (String → W → Option Error × W))
      (refresh : String → List Event × W → Option Error × (List Event × W))
      → logged_refresh o ≡ some refresh
      → (r : String → W → Option Error × W) × (o ≡ some r) × (refresh ≡ logged_renewal r)
  unlogged_renewal none refresh h = absurd (ground (arith, h))
  unlogged_renewal (some r) refresh h = (r, refl, some_inj _ _ (sym h))

  renewal_fresh :
      (lease : Lease F) (response : Response) (left : ℕ) (t : Tries)
      (refresh : String → W → Option Error × W)
      → renewal c call lease response left t ≡ some refresh
      → is_among t.refreshed lease.account.id ≡ false
  unfolding renewal
  renewal_fresh lease response left t refresh h = ground (arith, h)

  unlogged_lookup :
      (id : String) (o : Option (String → W → Result String × W)) (s : List Event × W)
      → (elim (unlogged_proxy o) as (λ x. Result String × (List Event × W)) [
        | none ↦ (ok "", s)
        | some url_of ↦ url_of id s
      ]).1.0
        ≡ s.0
  unlogged_lookup id none s = refl
  unlogged_lookup id (some f) s = refl

  -- A proxy is looked up without a note.
  proxy_of-logged :
      (lease : Lease F) (s : List Event × W) → (proxy_of (logged c) call lease s).1.0 ≡ s.0
  unfolding proxy_of
  proxy_of-logged lease s =
      if_cases (λ (r : Result String × (List Event × W)). r.1.0 ≡ s.0)
        (lease.account.details.proxy_id == "") _ _ (λ _. refl)
        (λ _. unlogged_lookup lease.account.details.proxy_id c.proxy_url s)

  module _ (max : ℕ) where
    abbrev Ends : Result (Response × Lease F) × (List Event × W) → Type 0
    Ends r = IsSettled max r.0 r.1.0

    -- Nothing is held where the request ends with an error.
    error-IsSettled :
        (e : Error) (t : Tries) (s : List Event × W) (log : List Event)
        → s.0 ≡ log
        → Fair t log
        → count asks log ≤ max
        → Ends (err e, s)
    error-IsSettled e t s log same h room = rw same (record {
      held = λ id. omega (arith, h.balanced id);
      left_out = h.left_out;
      once = λ id. ground (arith, h.once id);
      bounded = room;
      persistent = λ no_result. absurd (ground (arith, no_result));
    })

    abbrev granted_to : Lease F → Tries → List Event → List Event
    granted_to lease t log = granted lease.account.id ∷ asked t.excluded ∷ log

    -- A result hands the lease on.
    result-IsSettled :
        (response : Response) (lease : Lease F) (left : ℕ) (t : Tries) (s : List Event × W)
        (log : List Event)
        → s.0 ≡ granted_to lease t log
        → Fair t log
        → count asks log + suc left ≡ max
        → (retryable response.status_code && ltb 0 left) ≡ false
        → Ends (ok (response, lease), s)
    result-IsSettled response lease left t s log same h room last = rw same (record {
      held = λ id. ground (arith, h.balanced id);
      left_out = ground (arith, h.covered, h.left_out);
      once = λ id. ground (arith, h.once id);
      bounded = omega (arith, room);
      persistent = λ again. ground (arith, again, last, room);
    })

    asks-note_return :
        (lease : Lease F) (f : Feedback) (log : List Event)
        → count asks (note_return lease f log) ≡ count asks log
    asks-note_return lease f log = ground arith

    -- The attempts that are left end well, from any log that is fair.
    abbrev IsEndingWell : ℕ → Type 0
    IsEndingWell left =
        (t : Tries) (s : List Event × W) (log : List Event)
        → s.0 ≡ log
        → Fair t log
        → count asks log + left ≡ max
        → Ends (attempts (logged c) call left t s)

    module _ (left : ℕ) (again : IsEndingWell left) (t : Tries) (log : List Event) (lease : Lease F)
        (h : Fair t log) (room : count asks log + suc left ≡ max) where
      abbrev id : String
      id = lease.account.id

      asks-note_renewal :
          (failed : Option Error) (log' : List Event)
          → count asks (note_renewal id failed log') ≡ count asks log'
      asks-note_renewal none log' = omega arith
      asks-note_renewal (some e) log' = omega arith

      -- An attempt that failed, after which the lease was given back.
      after_failure :
          (f : Feedback) (e : Error) (s : List Event × W)
          → s.0 ≡ note_return lease f (granted_to lease t log)
          → Ends (attempts (logged c) call left (failed_on id e t) s)
      after_failure f e s same =
          again (failed_on id e t) s _ same (failed-Fair lease f e t log h)
            (omega (arith, room, asks-note_return lease f (granted_to lease t log)))

      after_renewal :
          (refresh : String → List Event × W → Option Error × (List Event × W))
          (response : Response) (s : List Event × W)
          → s.0 ≡ granted_to lease t log
          → renewal (logged c) call lease response left t ≡ some refresh
          → Ends (
              attempts
                (logged c)
                call
                left
                (renewed id (refresh id s).0 t)
                ((logged c).accounts.release lease (feedback_of 499 none) (refresh id s).1))
      after_renewal refresh response s same found =
          let (renew, plain, noted) =
            unlogged_renewal (renewal c call lease response left t) refresh
              (sym (renewal-logged lease response left t) ∙ found) in
          let failed = (refresh id s).0 in
          let tried : (refresh id s).1.0 ≡ note_renewal id failed s.0 =
            subst (λ g. (g id s).1.0 ≡ note_renewal id (g id s).0 s.0) (sym noted) refl in
          again (renewed id failed t) _ _
            (ap (λ l. given_back id ∷ l) (tried ∙ ap (note_renewal id failed) same))
            (renewed-Fair lease failed t log (renewal_fresh lease response left t renew plain) h)
            (omega (arith, room, asks-note_renewal failed (granted_to lease t log)))

      after_response :
          (response : Response) (s : List Event × W)
          → s.0 ≡ granted_to lease t log
          → Ends (elim (renewal (logged c) call lease response left t) [
            | some refresh ↦
                attempts
                  (logged c)
                  call
                  left
                  (renewed id (refresh id s).0 t)
                  ((logged c).accounts.release lease (feedback_of 499 none) (refresh id s).1)
            | none ↦ elim (retryable response.status_code && ltb 0 left) [
              | true ↦
                  let e = external (upstream_error_message c.read_json response) in
                  let (now, s') = (logged c).now s in
                  let (second, s'') = (logged c).now s' in
                  attempts (logged c) call left (failed_on id e t) (
                    (logged c).accounts.release lease
                      (feedback_from_response c.parsers response e now second)
                      s'')
              | false ↦ (ok (response, lease), s)
            ]
          ])
      after_response response s same =
          option_cases Ends (renewal (logged c) call lease response left t) _ _
            (λ _.
              bool_split Ends (retryable response.status_code && ltb 0 left) _ _
                (λ _.
                  let e = external (upstream_error_message c.read_json response) in
                  let first = (logged c).now s in
                  let second = (logged c).now first.1 in
                  let f = feedback_from_response c.parsers response e first.0 second.0 in
                  after_failure f e _ (ap (note_return lease f) same))
                (λ last. result-IsSettled response lease left t s log same h room last))
            (λ refresh found. after_renewal refresh response s same found)

    attempts-IsSettled : (left : ℕ) → IsEndingWell left
    unfolding attempts
    attempts-IsSettled zero t s log same h room =
        error-IsSettled _ t s log same h (omega (arith, room))
    attempts-IsSettled (suc left) t s log same h room =
        let again = attempts-IsSettled left in
        let asking = asked t.excluded ∷ log in
        let answer = c.accounts.acquire (selection_of c call t) s.1 in
        let noted : note_lease answer.0 (asked t.excluded ∷ s.0) ≡ note_lease answer.0 asking =
          ap (λ l. note_lease answer.0 (asked t.excluded ∷ l)) same in
        result_split Ends answer.0 _ _
          (λ e failed.
            error-IsSettled _ t ((logged c).accounts.acquire (selection_of c call t) s).1 asking
              (noted ∙ ap (λ a. note_lease a asking) failed) (asked-Fair t log h)
              (omega (arith, room)))
          (λ lease got.
            let s1 = ((logged c).accounts.acquire (selection_of c call t) s).1 in
            let held : s1.0 ≡ granted_to lease t log = noted ∙ ap (λ a. note_lease a asking) got in
            let proxied = proxy_of (logged c) call lease s1 in
            let kept : proxied.1.0 ≡ granted_to lease t log = proxy_of-logged lease s1 ∙ held in
            result_split Ends proxied.0 _ _
              (λ e _.
                after_failure left again t log lease h room (feedback_of 502 (some e)) e _
                  (ap (note_return lease (feedback_of 502 (some e))) kept))
              (λ url _.
                result_split Ends (c.upstream (request_of c call lease url) proxied.1.1).0 _ _
                  (λ e _.
                    after_failure left again t log lease h room (feedback_of 502 (some e)) e _
                      (ap (note_return lease (feedback_of 502 (some e))) kept))
                  (λ response _. after_response left again t log lease h room response _ kept)))

  pub invoke_from_empty :
      (s : List Event × W)
      → s.0 ≡ []
      → IsSettled c.max_attempts (invoke (logged c) call s).0 (invoke (logged c) call s).1.0
  unfolding invoke
  invoke_from_empty s empty =
      attempts-IsSettled c.max_attempts c.max_attempts no_tries s [] empty
        (record {
          balanced = λ id. refl;
          covered = refl;
          left_out = refl;
          once = λ id. omega arith;
        })
        (omega arith)

  -- Of a request to the gateway, for any pool and any upstream: each lease that was granted is
  -- given back, but for the one that comes with the result; whenever a lease is asked for, the
  -- accounts that failed before, by an answer, an error or a renewal, are left out; the
  -- credentials of one account are renewed at most once; no more leases are asked for than there
  -- are attempts, and all of them before a response that could be retried is handed on.
  pub invoke-IsSettled :
      (w : W)
      → IsSettled c.max_attempts
          (invoke (logged c) call ([], w)).0
          (invoke (logged c) call ([], w)).1.0
  invoke-IsSettled w = invoke_from_empty ([], w) refl
