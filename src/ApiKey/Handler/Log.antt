-- ===== src/ApiKey/Handler/Log.antt =====
-- What a request does to the counter store and to the handler behind, as a log of events, the last
-- of them first, for any store and any handler.
use grok_go.Base.{
  ℕ, ◌+◌, ◌≡◌, String, Bool, true, false, List, [], ◌∷◌, ◌==◌, ◌&&◌, ◌||◌, if◌then◌else◌,
}
use grok_go.Base.Int.{ℤ, pos, ltb_ℤ, leb_ℤ, eqb_ℤ, ◌<ℤ◌, ◌+ℤ◌, wrap64}
use grok_go.Base.Result.{Result, ok}
use grok_go.Domain.{ClientKey, Time}
use grok_go.ApiKey.{no_completion, record_all}
use grok_go.ApiKey.Windows.{rpm_key, day_key, month_key, slot_key}
use grok_go.ApiKey.Handler.{Counters, Served}

pub data Event : Type 0 where
  counted : String → ℤ → Result ℤ → Event
  acquired : String → ℤ → Result Bool → Event
  released : String → Event
  called : ClientKey → Served → Event

module _ {W : Type 0} where
  -- The store and the handler behind, with each call and its answer written down.
  abbrev pub logged : Counters W → Counters (List Event × W)
  logged c = record {
    add_window = λ k d ttl s.
        let (answer, w) = c.add_window k d ttl s.1 in (answer, (counted k d answer ∷ s.0, w));
    acquire_slot = λ k limit ttl s.
        let (answer, w) = c.acquire_slot k limit ttl s.1 in
        (answer, (acquired k limit answer ∷ s.0, w));
    release_slot = λ k s. let (answer, w) = c.release_slot k s.1 in (answer, (released k ∷ s.0, w));
  }

  abbrev pub logged_next :
      (ClientKey → W → Served × W) → ClientKey → List Event × W → Served × (List Event × W)
  logged_next next key s = let (answer, w) = next key s.1 in (answer, (called key answer ∷ s.0, w))

abbrev pub count : (Event → Bool) → List Event → ℕ
count p [] = 0
count p (e ∷ log) = (if p e then 1 else 0) + count p log

abbrev pub has : (Event → Bool) → List Event → Bool
has p [] = false
has p (e ∷ log) = p e || has p log

abbrev pub takes : String → Event → Bool
takes k (acquired j limit (ok true)) = j == k
takes k _ = false

abbrev pub returns : String → Event → Bool
returns k (released j) = j == k
returns k _ = false

abbrev pub calls : Event → Bool
calls (called key served) = true
calls _ = false

-- One more was counted, which came to at most `limit`; and a count that is below it was read.
abbrev pub counts_within : String → ℤ → Event → Bool
counts_within k limit (counted j d (ok n)) = j == k && eqb_ℤ d (pos 1) && leb_ℤ n limit
counts_within k limit _ = false

abbrev pub reads_below : String → ℤ → Event → Bool
reads_below k limit (counted j d (ok n)) = j == k && eqb_ℤ d (pos 0) && ltb_ℤ n limit
reads_below k limit _ = false

-- The amounts added to a window.
abbrev pub charges : String → List Event → List ℤ
charges k [] = []
charges k (counted j d answer ∷ log) =
    let rest = charges k log in
    if j == k then (if eqb_ℤ d (pos 0) then rest else d ∷ rest) else rest
charges k (_ ∷ log) = charges k log

-- The tokens that the handler behind reported, if it parsed usage and returned.
abbrev pub tokens : Served → ℤ
tokens served =
    let completion = record_all served.reports no_completion in
    if served.panics
    then pos 0
    else if completion.usage_parsed
    then wrap64 (completion.input_tokens +ℤ completion.output_tokens)
    else pos 0

abbrev pub due : List Event → List ℤ
due [] = []
due (called key served ∷ log) =
    let rest = due log in if eqb_ℤ (tokens served) (pos 0) then rest else tokens served ∷ rest
due (_ ∷ log) = due log

-- Each limit of the key was met in the log so far, and its slot is held.
pub record IsAdmitted (key : ClientKey) (now : Time) (log : List Event) : Type 0 where
  pub rpm : pos 0 <ℤ key.rpm → has (counts_within (rpm_key key.id now) key.rpm) log ≡ true
  pub daily :
      pos 0 <ℤ key.daily_request_limit
      → has (counts_within (day_key key.id now) key.daily_request_limit) log ≡ true
  pub monthly :
      pos 0 <ℤ key.monthly_token_limit
      → has (reads_below (month_key key.id now) key.monthly_token_limit) log ≡ true
  pub slot :
      pos 0 <ℤ key.concurrency_limit
      → count (takes (slot_key key.id)) log ≡ count (returns (slot_key key.id)) log + 1

-- Each call of the handler behind stands after a log that has met the limits.
abbrev pub AdmittedAtCalls : ClientKey → Time → List Event → Type 0
AdmittedAtCalls key now [] = Unit
AdmittedAtCalls key now (called other served ∷ log) =
    IsAdmitted key now log × AdmittedAtCalls key now log
AdmittedAtCalls key now (_ ∷ log) = AdmittedAtCalls key now log
