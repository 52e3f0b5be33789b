-- ===== src/ApiKey/Handler/Limits.antt =====
-- What each limit of a key leaves in the log, for any counter store.
use grok_go.Base.{
  refl, ◌*◌, ◌≡◌, if_cases, eq_iff, eq_refl, arith, String, Bool, true, false, List, [], ◌∷◌, ◌==◌,
  if◌then◌else◌, ◌≢◌,
}
use grok_go.Base.Int.{ℤ, pos, ltb_ℤ, leb_ℤ, eqb_ℤ, ◌<ℤ◌}
use grok_go.Base.Result.{Result, ok, err, result_split}
use grok_go.Domain.{hour, ClientKey, Time}
use grok_go.ApiKey.Windows.{month_ttl, rpm_key, day_key, month_key, slot_key}
use grok_go.ApiKey.Windows.Calendar.{window_keys_apart}
use grok_go.ApiKey.Handler.{
  Counters, Refusal, LimitResult, refuse, pass, rpm_limit, daily_limit, monthly_limit, Headers,
}
use grok_go.ApiKey.Handler.Log.{
  Event, counted, logged, count, has, takes, returns, calls, counts_within, reads_below, charges,
  due, AdmittedAtCalls, acquired,
}

-- A log before the handler behind is called, and before a slot is taken.
pub record Prior (key : ClientKey) (now : Time) (log : List Event) : Type 0 where
  pub untaken : count (takes (slot_key key.id)) log ≡ 0
  pub unreturned : count (returns (slot_key key.id)) log ≡ 0
  pub uncharged : charges (month_key key.id now) log ≡ []
  pub undue : due log ≡ []
  pub uncalled : count calls log ≡ 0
  pub admitted : AdmittedAtCalls key now log

counted_within :
    (k : String) (limit n : ℤ) (answer : Result ℤ) (log : List Event)
    → ltb_ℤ limit n ≡ false
    → answer ≡ ok n
    → has (counts_within k limit) (counted k (pos 1) answer ∷ log) ≡ true
counted_within k limit n answer log under same = ground (arith, under, same, eq_refl k)

read_below :
    (k : String) (limit n : ℤ) (answer : Result ℤ) (log : List Event)
    → leb_ℤ limit n ≡ false
    → answer ≡ ok n
    → has (reads_below k limit) (counted k (pos 0) answer ∷ log) ≡ true
read_below k limit n answer log under same = ground (arith, under, same, eq_refl k)

pub later :
    (p : Event → Bool) (e : Event) (log : List Event) → has p log ≡ true → has p (e ∷ log) ≡ true
later p e log h = ground (arith, h)

pub not_positive : (n : ℤ) → ltb_ℤ (pos 0) n ≡ false → ¬ (pos 0 <ℤ n)
not_positive n off on = ground (arith, off, on)

module _ (key : ClientKey) (now : Time) where
  abbrev pub Rpm : List Event → Type 0
  Rpm log = pos 0 <ℤ key.rpm → has (counts_within (rpm_key key.id now) key.rpm) log ≡ true

  abbrev pub Daily : List Event → Type 0
  Daily log =
      pos 0 <ℤ key.daily_request_limit
      → has (counts_within (day_key key.id now) key.daily_request_limit) log ≡ true

  abbrev pub Monthly : List Event → Type 0
  Monthly log =
      pos 0 <ℤ key.monthly_token_limit
      → has (reads_below (month_key key.id now) key.monthly_token_limit) log ≡ true

  -- Counting in a window other than the month's, or adding nothing to the month's.
  Prior-counted :
      (k : String) (d : ℤ) (answer : Result ℤ) (log : List Event)
      → (k == month_key key.id now ≡ true → eqb_ℤ d (pos 0) ≡ true)
      → Prior key now log
      → Prior key now (counted k d answer ∷ log)
  Prior-counted k d answer log free h = record {
    untaken = omega (arith, h.untaken);
    unreturned = omega (arith, h.unreturned);
    uncharged = ground (arith, free, h.uncharged);
    undue = h.undue;
    uncalled = omega (arith, h.uncalled);
    admitted = h.admitted;
  }

  pub not_taken-Prior :
      (k : String) (limit : ℤ) (answer : Result Bool) (log : List Event)
      → answer ≢ ok true
      → Prior key now log
      → Prior key now (acquired k limit answer ∷ log)
  not_taken-Prior k limit answer log free h = record {
    untaken = ground (arith, free, h.untaken);
    unreturned = omega (arith, h.unreturned);
    uncharged = h.uncharged;
    undue = h.undue;
    uncalled = omega (arith, h.uncalled);
    admitted = h.admitted;
  }

  -- A limit leaves a log from before the call, and one in which it was met where it lets pass.
  module _ {W : Type 0} where
    abbrev pub Kept : (List Event → Type 0) → LimitResult × (List Event × W) → Type 0
    Kept P (refuse r, (log, w)) = Prior key now log
    Kept P (pass headers, (log, w)) = Prior key now log × P log

    module _ (P : List Event → Type 0) where
      -- One answer of a counter, which lets pass where it is not over the limit.
      Kept-answer :
          (answer : Result ℤ) (over : ℤ → Bool) (failed : Refusal) (refusal : ℤ → Refusal)
          (headers : ℤ → Headers) (s : List Event × W)
          → Prior key now s.0
          → ((n : ℤ) → over n ≡ false → answer ≡ ok n → P s.0)
          → Kept P (elim answer [
            | err e ↦ (refuse failed, s)
            | ok n ↦ (if over n then refuse (refusal n) else pass (headers n), s)
          ])
      Kept-answer answer over failed refusal headers s prior met =
          result_split (Kept P) answer _ _ (λ e _. prior)
            (λ n same.
              if_cases (λ v. Kept P (v, s)) (over n) _ _ (λ _. prior)
                (λ under. (prior, met n under same)))

    pub rpm_limit-Kept :
        (c : Counters W) (headers : Headers) (log : List Event) (w : W)
        → Prior key now log
        → Kept Rpm (rpm_limit (logged c) key now headers (log, w))
    unfolding rpm_limit
    rpm_limit-Kept c headers log w h =
        let k = rpm_key key.id now in
        let apart = (window_keys_apart key.id now now).0 in
        if_cases (Kept Rpm) (ltb_ℤ (pos 0) key.rpm) _ _
          (λ _.
            Kept-answer Rpm _ (λ n. ltb_ℤ key.rpm n) _ _ _ _
              (Prior-counted k (pos 1) _ log (λ same. absurd (apart ((eq_iff _ _).0 same))) h)
              (λ n under same _. counted_within k key.rpm n _ log under same))
          (λ off. (h, λ on. absurd (not_positive key.rpm off on)))

    -- What an earlier limit has met stays met.
    pub daily_limit-Kept :
        (c : Counters W) (headers : Headers) (log : List Event) (w : W)
        → Prior key now log
        → Rpm log
        → Kept (λ log'. Rpm log' × Daily log') (daily_limit (logged c) key now headers (log, w))
    unfolding daily_limit
    daily_limit-Kept c headers log w h rpm =
        let k = day_key key.id now in
        let apart = (window_keys_apart key.id now now).1 in
        let event = counted k (pos 1) (c.add_window k (pos 1) (pos (26 * hour)) w).0 in
        if_cases (Kept (λ log'. Rpm log' × Daily log')) (ltb_ℤ (pos 0) key.daily_request_limit) _ _
          (λ _.
            Kept-answer (λ log'. Rpm log' × Daily log') _ (λ n. ltb_ℤ key.daily_request_limit n) _ _
              _ _ (Prior-counted k (pos 1) _ log (λ same. absurd (apart ((eq_iff _ _).0 same))) h)
              (λ n under same. (
                λ on. later _ event log (rpm on),
                λ _. counted_within k key.daily_request_limit n _ log under same,
              )))
          (λ off. (h, (rpm, λ on. absurd (not_positive key.daily_request_limit off on))))

    pub monthly_limit-Kept :
        (c : Counters W) (headers : Headers) (log : List Event) (w : W)
        → Prior key now log
        → Rpm log
        → Daily log
        → Kept
            (λ log'. Rpm log' × Daily log' × Monthly log')
            (monthly_limit (logged c) key now headers (log, w))
    unfolding monthly_limit
    monthly_limit-Kept c headers log w h rpm daily =
        let k = month_key key.id now in
        let event = counted k (pos 0) (c.add_window k (pos 0) (month_ttl now) w).0 in
        if_cases (Kept (λ log'. Rpm log' × Daily log' × Monthly log'))
          (ltb_ℤ (pos 0) key.monthly_token_limit) _ _
          (λ _.
            Kept-answer (λ log'. Rpm log' × Daily log' × Monthly log') _
              (λ n. leb_ℤ key.monthly_token_limit n) _ _ _ _
              (Prior-counted k (pos 0) _ log (λ _. refl) h)
              (λ n under same. (
                λ on. later _ event log (rpm on),
                λ on. later _ event log (daily on),
                λ _. read_below k key.monthly_token_limit n _ log under same,
              )))
          (λ off. (h, (rpm, daily, λ on. absurd (not_positive key.monthly_token_limit off on))))
