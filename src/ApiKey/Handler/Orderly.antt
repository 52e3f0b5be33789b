-- ===== src/ApiKey/Handler/Orderly.antt =====
-- A request through the limits of its key, for any counter store and any handler behind: the limits
-- that a served request has met, the return of its slot and the settlement of its tokens.
use grok_go.Base.{
  refl, ℕ, ◌≡◌, if_cases, arith, String, Bool, true, false, Option, List, [], ◌∷◌, eq_refl,
  bool_split, ◌∙◌, ◌≢◌, sym, ap,
}
use grok_go.Base.Int.{ℤ, pos, ltb_ℤ}
use grok_go.Base.Result.{Error, Result, ok, err, result_split}
use grok_go.Domain.{ClientKey, Duration, Time}
use grok_go.ApiKey.{record_all, no_completion, concurrency_slot_ttl}
use grok_go.ApiKey.Windows.{month_key, slot_key}
use grok_go.ApiKey.Handler.{
  Counters, Refusal, Served, Ending, LimitResult, refuse, pass, refused, served, panicked, Headers,
  and_then, serve, with_slot, limited,
}
use grok_go.ApiKey.Handler.Log.{
  Event, acquired, released, logged, logged_next, count, takes, returns, calls, charges, due,
  IsAdmitted, AdmittedAtCalls,
}
use grok_go.ApiKey.Handler.Limits.{
  Prior, Rpm, Daily, Monthly, Kept, rpm_limit-Kept, daily_limit-Kept, monthly_limit-Kept, later,
  not_taken-Prior, not_positive,
}

abbrev pub runs : Ending → ℕ
runs (refused r) = 0
runs (served headers) = 1
runs (panicked headers) = 1

-- The log of a whole request: the slot went back as often as it was taken, the tokens charged are
-- those of a handler behind that returned, each call of the handler behind stands after the limits
-- were met and while the slot is held, and there is one unless the request is refused.
pub record IsOrderly (key : ClientKey) (now : Time) (ending : Ending) (log : List Event)
    : Type 0 where
  pub balanced : count (returns (slot_key key.id)) log ≡ count (takes (slot_key key.id)) log
  pub settled : charges (month_key key.id now) log ≡ due log
  pub admitted : AdmittedAtCalls key now log
  pub ran : count calls log ≡ runs ending

takes_one :
    (k : String) (limit : ℤ) (answer : Result Bool)
    → answer ≡ ok true
    → takes k (acquired k limit answer) ≡ true
takes_one k limit answer same = ground (arith, same, eq_refl k)

returns_one : (k : String) → returns k (released k) ≡ true
returns_one k = eq_refl k

not_failed : {e : Error} {answer : Result Bool} → answer ≡ err e → answer ≢ ok true
not_failed failed took = ground (arith, failed, took)

not_granted : {b : Bool} {answer : Result Bool} → answer ≡ ok b → b ≡ false → answer ≢ ok true
not_granted same full took = ground (arith, same, full, took)

start-Prior : (key : ClientKey) (now : Time) → Prior key now []
start-Prior key now = record {
  untaken = refl;
  unreturned = refl;
  uncharged = refl;
  undue = refl;
  uncalled = refl;
  admitted = tt;
}

module _ (key : ClientKey) (now : Time) {W : Type 0} where
  -- A log that differs from an earlier one by a request that was served.
  record IsServed (log : List Event) (r : Ending × (List Event × W)) : Type 0 where
    returned : count (returns (slot_key key.id)) r.1.0 ≡ count (returns (slot_key key.id)) log
    taken : count (takes (slot_key key.id)) r.1.0 ≡ count (takes (slot_key key.id)) log
    settled : charges (month_key key.id now) r.1.0 ≡ due r.1.0
    admitted : AdmittedAtCalls key now r.1.0
    ran : count calls r.1.0 ≡ runs r.0

  serve-IsServed :
      (c : Counters W) (next : ClientKey → W → Served × W) (headers : Headers) (log : List Event)
      (w : W)
      → charges (month_key key.id now) log ≡ []
      → due log ≡ []
      → count calls log ≡ 0
      → AdmittedAtCalls key now log
      → IsAdmitted key now log
      → IsServed log (serve (logged c) (logged_next next) key now headers (log, w))
  unfolding serve
  serve-IsServed c next headers log w uncharged undue uncalled before admitted =
      let completion = record_all (next key w).0.reports no_completion in
      if_cases (IsServed log) (next key w).0.panics _ _
        (λ panics. record {
          returned = omega arith;
          taken = omega arith;
          settled = ground (arith, panics, uncharged, undue);
          admitted = (admitted, before);
          ran = omega (arith, uncalled);
        })
        (λ returns.
          if_cases (IsServed log) completion.usage_parsed _ _
            (λ parsed. record {
              returned = omega arith;
              taken = omega arith;
              settled =
                  ground (arith, returns, parsed, uncharged, undue, eq_refl (month_key key.id now));
              admitted = (admitted, before);
              ran = omega (arith, uncalled);
            })
            (λ unparsed. record {
              returned = omega arith;
              taken = omega arith;
              settled = ground (arith, returns, unparsed, uncharged, undue);
              admitted = (admitted, before);
              ran = omega (arith, uncalled);
            }))

  abbrev Orderly : Ending × (List Event × W) → Type 0
  Orderly r = IsOrderly key now r.0 r.1.0

  -- A request that is refused before its slot is taken.
  refused-IsOrderly :
      (r : Refusal) (log : List Event) (w : W) → Prior key now log → Orderly (refused r, (log, w))
  refused-IsOrderly r log w h = record {
    balanced = omega (arith, h.unreturned, h.untaken);
    settled = h.uncharged ∙ sym h.undue;
    admitted = h.admitted;
    ran = h.uncalled;
  }

  module _ (c : Counters W) (next : ClientKey → W → Served × W) (timeout : W → Option Duration)
      (headers : Headers) (log : List Event) (w : W) (h : Prior key now log)
      (met : Rpm key now log × Daily key now log × Monthly key now log) where
    abbrev k : String
    k = slot_key key.id

    abbrev slot : Result Bool × W
    slot = c.acquire_slot k key.concurrency_limit (concurrency_slot_ttl (timeout w)) w

    held-IsOrderly :
        slot.0 ≡ ok true
        → Orderly (
            let s =
              serve
                (logged c)
                (logged_next next)
                key
                now
                headers
                (acquired k key.concurrency_limit slot.0 ∷ log, slot.1) in
            (s.0, ((logged c).release_slot k s.1).1))
    held-IsOrderly same =
        let log1 = acquired k key.concurrency_limit slot.0 ∷ log in
        let took = takes_one k key.concurrency_limit slot.0 same in
        let done =
          serve-IsServed c next headers log1 slot.1 h.uncharged h.undue (omega (arith, h.uncalled))
            h.admitted
            (record {
              rpm = λ on. later _ (acquired k key.concurrency_limit slot.0) log (met.0 on);
              daily = λ on. later _ (acquired k key.concurrency_limit slot.0) log (met.1 on);
              monthly = λ on. later _ (acquired k key.concurrency_limit slot.0) log (met.2 on);
              slot = λ _. ground (arith, took, h.untaken, h.unreturned);
            }) in
        record {
          balanced =
              ground
                (arith, done.returned, done.taken, took, returns_one k, h.unreturned, h.untaken);
          settled = done.settled;
          admitted = done.admitted;
          ran = omega (arith, done.ran);
        }

    with_slot-IsOrderly :
        Orderly
          (with_slot (logged c) (logged_next next) (λ s. timeout s.1) key now headers (log, w))
    unfolding with_slot
    with_slot-IsOrderly =
        if_cases Orderly (ltb_ℤ (pos 0) key.concurrency_limit) _ _
          (λ on.
            result_split Orderly slot.0 _ _
              (λ e failed.
                refused-IsOrderly _ _ slot.1
                  (not_taken-Prior key now _ _ _ log (not_failed failed) h))
              (λ acquired same.
                bool_split Orderly acquired _ _ (λ yes. held-IsOrderly (same ∙ ap ok yes))
                  (λ no.
                    refused-IsOrderly _ _ slot.1
                      (not_taken-Prior key now _ _ _ log (not_granted same no) h))))
          (λ off.
            let done =
              serve-IsServed c next headers log w h.uncharged h.undue h.uncalled h.admitted
                (record {
                  rpm = met.0;
                  daily = met.1;
                  monthly = met.2;
                  slot = λ on. absurd (not_positive key.concurrency_limit off on);
                }) in
            record {
              balanced = omega (arith, done.returned, done.taken, h.unreturned, h.untaken);
              settled = done.settled;
              admitted = done.admitted;
              ran = done.ran;
            })

  -- What a limit decides, and what then follows.
  and_then-IsOrderly :
      (P : List Event → Type 0) (v : LimitResult × (List Event × W))
      (k : Headers → List Event × W → Ending × (List Event × W))
      → Kept key now P v
      → ((headers : Headers) (log : List Event) (w : W)
          → Prior key now log
          → P log
          → Orderly (k headers (log, w)))
      → Orderly (and_then v k)
  unfolding and_then
  and_then-IsOrderly P (refuse r, (log, w)) k h more = refused-IsOrderly r log w h
  and_then-IsOrderly P (pass headers, (log, w)) k h more = more headers log w h.0 h.1

  -- Of a request of a known key, for any counter store and any handler behind: the handler behind
  -- is called only after every limit of the key was met and while the slot is held, and once
  -- unless the request is refused; the slot goes back exactly as often as it was taken, also after
  -- a panic; and the month's window is charged exactly the tokens of a usage that the handler
  -- behind reported before it returned, and nothing where it panics.
  pub limited-IsOrderly :
      (c : Counters W) (next : ClientKey → W → Served × W) (timeout : W → Option Duration) (w : W)
      → IsOrderly key now
          (limited (logged c) (logged_next next) (λ s. timeout s.1) key now ([], w)).0
          (limited (logged c) (logged_next next) (λ s. timeout s.1) key now ([], w)).1.0
  unfolding limited
  limited-IsOrderly c next timeout w =
      and_then-IsOrderly (Rpm key now) _ _ (rpm_limit-Kept key now c [] [] w (start-Prior key now))
        (λ headers log w1 h rpm.
          and_then-IsOrderly (λ log'. Rpm key now log' × Daily key now log') _ _
            (daily_limit-Kept key now c headers log w1 h rpm)
            (λ headers log w2 h met.
              and_then-IsOrderly
                (λ log'. Rpm key now log' × Daily key now log' × Monthly key now log') _ _
                (monthly_limit-Kept key now c headers log w2 h met.0 met.1)
                (λ headers log w3 h met. with_slot-IsOrderly c next timeout headers log w3 h met)))
