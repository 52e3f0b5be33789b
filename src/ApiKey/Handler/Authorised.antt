-- ===== src/ApiKey/Handler/Authorised.antt =====
-- The handler behind is called only with a key that was authenticated from the request's headers.
use grok_go.Base.{
  ◌≡◌, ◌≢◌, ◌==◌, refl, Bool, true, false, Option, none, some, arith, [], ap, if◌then◌else◌,
}
use grok_go.Base.Int.{pos, ltb_ℤ}
use grok_go.Base.Result.{Error, Result, ok, err}
use grok_go.Domain.{ClientKey, Duration, Time}
use grok_go.ApiKey.{concurrency_slot_ttl}
use grok_go.ApiKey.Windows.{slot_key}
use grok_go.ApiKey.Credential.{credential}
use grok_go.ApiKey.Handler.{
  Counters, Headers, Middleware, RequestHeaders, Served, Ending, LimitResult, refuse, pass,
  and_then, serve, with_slot, limited, handler, rpm_limit, daily_limit, monthly_limit,
}

-- The credential that the headers carry is not empty and known as the key, and there is a counter
-- store.
pub record IsAuthorised {W : Type 0} (m : Middleware W) (request : RequestHeaders) (w : W)
    (key : ClientKey) : Type 0 where
  pub some_credential : (credential request.api_key request.authorization == "") ≡ false
  pub known : (m.authenticate (credential request.api_key request.authorization) w).0 ≡ ok key
  pub counting : m.counters ≢ none

-- Two matches on one value agree where their cases do.
module _ {B : Type 0} where
  if_agrees :
      (b : Bool) (x x' y y' : B)
      → (b ≡ true → x ≡ x')
      → (b ≡ false → y ≡ y')
      → (if b then x else y) ≡ (if b then x' else y')
  if_agrees true x x' y y' f g = f refl
  if_agrees false x x' y y' f g = g refl

  bool_agrees :
      (b : Bool) (x x' y y' : B)
      → x ≡ x'
      → y ≡ y'
      → ◌≡◌ {A = B} (elim b [ true ↦ x | false ↦ y ]) (elim b [ true ↦ x' | false ↦ y' ])
  bool_agrees true x x' y y' f g = f
  bool_agrees false x x' y y' f g = g

  result_agrees :
      {A : Type 0} (r : Result A) (f : Error → B) (g g' : A → B)
      → ((a : A) → r ≡ ok a → g a ≡ g' a)
      → ◌≡◌ {A = B} (elim r [ err e ↦ f e | ok a ↦ g a ]) (elim r [ err e ↦ f e | ok a ↦ g' a ])
  result_agrees (err e) f g g' h = refl
  result_agrees (ok a) f g g' h = h a refl

  option_agrees :
      {A : Type 0} (o : Option A) (n : B) (g g' : A → B)
      → ((a : A) → o ≡ some a → g a ≡ g' a)
      → ◌≡◌ {A = B} (elim o [ none ↦ n | some a ↦ g a ]) (elim o [ none ↦ n | some a ↦ g' a ])
  option_agrees none n g g' h = refl
  option_agrees (some a) n g g' h = h a refl

and_then_agrees :
    {W : Type 0} (v : LimitResult × W) (k k' : Headers → W → Ending × W)
    → ((headers : Headers) (w : W) → k headers w ≡ k' headers w)
    → and_then v k ≡ and_then v k'
unfolding and_then
and_then_agrees (refuse r, w) k k' same = refl
and_then_agrees (pass headers, w) k k' same = same headers w

module _ {W : Type 0} (next next' : ClientKey → W → Served × W) where
  -- Two handlers behind that do the same with this key.
  module _ (counters : Counters W) (timeout : W → Option Duration) (key : ClientKey) (now : Time)
      (same : (w : W) → next key w ≡ next' key w) where
    serve_agrees :
        (headers : Headers) (w : W)
        → serve counters next key now headers w ≡ serve counters next' key now headers w
    unfolding serve
    serve_agrees headers w = rw (same w) refl

    with_slot_agrees :
        (headers : Headers) (w : W)
        → with_slot counters next timeout key now headers w
          ≡ with_slot counters next' timeout key now headers w
    unfolding with_slot
    with_slot_agrees headers w =
        let k = slot_key key.id in
        let slot =
          counters.acquire_slot k key.concurrency_limit (concurrency_slot_ttl (timeout w)) w in
        let release : Ending × W → Ending × W = λ e. (e.0, (counters.release_slot k e.1).1) in
        if_agrees (ltb_ℤ (pos 0) key.concurrency_limit) _ _ _ _
          (λ _.
            result_agrees slot.0 _ _ _
              (λ b _. bool_agrees b _ _ _ _ (ap release (serve_agrees headers slot.1)) refl))
          (λ _. serve_agrees headers w)

    limited_agrees :
        (w : W) → limited counters next timeout key now w ≡ limited counters next' timeout key now w
    unfolding limited
    limited_agrees w = and_then_agrees (rpm_limit counters key now [] w) _ _ (λ headers w1.
        and_then_agrees (daily_limit counters key now headers w1) _ _ (λ headers w2.
          and_then_agrees (monthly_limit counters key now headers w2) _ _ with_slot_agrees))

  -- Two handlers behind that do the same with each key by which the request is authorised make the
  -- same of the request: for any other request, and before the authentication, neither is called.
  pub handler_agrees :
      (m : Middleware W) (request : RequestHeaders) (w : W)
      → ((key : ClientKey) → IsAuthorised m request w key → (w' : W) → next key w' ≡ next' key w')
      → handler m next request w ≡ handler m next' request w
  unfolding handler
  handler_agrees m request w same =
      let plaintext = credential request.api_key request.authorization in
      let timed = m.now (m.authenticate plaintext w).1 in
      if_agrees (plaintext == "") _ _ _ _ (λ _. refl)
        (λ there. result_agrees (m.authenticate plaintext w).0 _ _ _ (λ key known.
          option_agrees m.counters _ _ _ (λ counters set.
            limited_agrees counters m.timeout key timed.0
              (same key (record {
                some_credential = there;
                known = known;
                counting = λ nil. absurd (ground (arith, set, nil));
              }))
              timed.1)))
