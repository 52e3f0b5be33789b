-- ===== src/Accounts/Choose.antt =====
-- internal/accounts/pool.go: which of the eligible accounts selectLocked chooses.
pub mod Best
pub mod Rank
pub mod Sound
use grok_go.Base.{
  ℕ, zero, suc, ◌+◌, ◌*◌, ◌-◌, ◌%◌, ◌^◌, ◌||◌, ◌&&◌, not, String, Bool, true, false, Option, none,
  some, List, [], ◌∷◌, ◌==◌, length, get_elem?, keep, ltb, leb, eqb, if◌then◌else◌,
}
use grok_go.Base.Int.{ℤ, pos, leb_ℤ, ltb_ℤ, ◌-ℤ◌}
use grok_go.Base.Map.{Map, lookup, insert, delete}
use grok_go.Base.Text.{lowers_to}
use grok_go.Base.Float.{Float}
use grok_go.Domain.{
  Time, Duration, Account, ModelSpec, QuotaSnapshot, CredentialKind, kind_eq, status_eq, active,
  cooldown, after, sub_time, minute,
}
use grok_go.Accounts.Policy.{
  Policy, cooldown_of, positive_or, strategy_affinity, strategy_round_robin,
}
use grok_go.Accounts.Quota.{quota_unavailable_until}
use grok_go.Accounts.Affinity.{affinity_key}
use grok_go.Accounts.Pool.{Pool, RuntimeState, AffinityEntry, Selection}
use text.Mathlib.Text.{is_lt}
use Prim.Native.String.{compare}
use grok_go.Accounts.Select.{Candidate, contains, tier_rank, scan}

-- The binding of the selection's conversation, if the strategy follows bindings and it is alive.
unfoldable pub bound_account : Policy → Selection → Time → Map AffinityEntry → Option String
bound_account policy selection now affinities =
    if policy.strategy == strategy_affinity && not (selection.affinity_key == "")
    then elim (lookup (affinity_key selection.model.id selection.affinity_key) affinities) [
      | none ↦ none
      | some entry ↦ if after entry.expires_at now then some entry.account_id else none
    ]
    else none

module _ {F : Type 0} where
  abbrev pub tier_of : Candidate F → ℕ
  tier_of (id, s) = tier_rank s.account.tier

  best_tier : ℕ → List (Candidate F) → ℕ
  best_tier best [] = best
  best_tier best (c ∷ cs) = best_tier (if ltb best (tier_of c) then tier_of c else best) cs

  -- The candidates of the highest tier, for a model that prefers the best.
  unfoldable pub preferred : Bool → Candidate F → List (Candidate F) → List (Candidate F)
  unfolding best_tier
  preferred prefer_best c cs =
      let best = best_tier (tier_of c) cs in
      if prefer_best then keep (λ d. eqb (tier_of d) best) (c ∷ cs) else c ∷ cs

  abbrev pub account_id : Candidate F → String
  account_id (id, s) = s.account.id

  unfoldable pub find_account : String → List (Candidate F) → Option (Candidate F)
  find_account id [] = none
  find_account id (c ∷ cs) = if account_id c == id then some c else find_account id cs

  -- slices.SortFunc by strings.Compare of the account ids.
  unfoldable pub insert_sorted : Candidate F → List (Candidate F) → List (Candidate F)
  insert_sorted c [] = c ∷ []
  insert_sorted c (d ∷ ds) =
      if is_lt (compare (account_id d) (account_id c)) then d ∷ insert_sorted c ds else c ∷ d ∷ ds

  unfoldable pub sort_by_id : List (Candidate F) → List (Candidate F)
  unfolding insert_sorted
  sort_by_id [] = []
  sort_by_id (c ∷ cs) = insert_sorted c (sort_by_id cs)

  unfoldable pub find_bound : Option String → List (Candidate F) → Option (Candidate F)
  unfolding find_account
  find_bound none cs = none
  find_bound (some id) cs = find_account id cs

  -- The candidate whose turn it is, by the cursor of the model.
  in_turn : String → Map ℕ → Candidate F → List (Candidate F) → Option (Candidate F) × Map ℕ
  unfolding sort_by_id
  in_turn model cursors c cs =
      let cursor : ℕ = elim (lookup model cursors) [ none ↦ 0 | some n ↦ n ] in
      (
        get_elem? (sort_by_id (c ∷ cs)) (cursor % length (c ∷ cs)),
        insert model ((cursor + 1) % 2 ^ 64) cursors,
      )

abbrev pub min_int : ℤ → ℤ → ℤ
min_int a b = if ltb_ℤ b a then b else a

module _ {F : Type 0} (fl : Float F) where
  open fl use {hundredths, of_int, seconds, add, sub, mul, div}

  unfoldable pub quota_fraction : ℤ → ℤ → F
  quota_fraction remaining limit =
      fl.max (hundredths 0) (fl.min (hundredths 100) (div (of_int remaining) (of_int limit)))

  quota_score : QuotaSnapshot → F
  unfolding quota_fraction
  quota_score q =
      let requests =
        if not q.requests_unlimited && ltb_ℤ (pos 0) q.requests_limit
        then fl.min (hundredths 100) (quota_fraction q.requests_remaining q.requests_limit)
        else hundredths 100 in
      if not q.tokens_unlimited && ltb_ℤ (pos 0) q.tokens_limit
      then fl.min requests (quota_fraction q.tokens_remaining q.tokens_limit)
      else requests

  recent_penalty : Option Time → Time → F
  recent_penalty none now = hundredths 0
  recent_penalty (some last) now =
      let age = sub_time now last in
      if ltb_ℤ age (pos minute)
      then mul (hundredths 1500) (sub (hundredths 100) (div (seconds age) (hundredths 6000)))
      else hundredths 0

  unfoldable pub score : RuntimeState F → Time → F
  unfolding quota_score recent_penalty sub_time
  score s now =
      let account = s.account in
      let gains =
        add
          (add (mul (of_int account.priority) (hundredths 100000))
            (mul s.health (hundredths 10000)))
          (mul (quota_score account.quota) (hundredths 2500)) in
      sub
        (sub (sub gains (mul (of_int (pos s.inflight)) (hundredths 2000)))
          (mul (of_int (min_int s.failures (pos 10))) (hundredths 400)))
        (recent_penalty account.last_used_at now)

  -- A candidate that replaces the best one so far.
  unfoldable pub beats : Time → Candidate F → Candidate F → Bool
  beats now (i, s) (j, b) =
      fl.lt (score b now) (score s now)
      || fl.eq (score s now) (score b now) && is_lt (compare s.account.id b.account.id)

  unfoldable pub best_of : Time → Candidate F → List (Candidate F) → Candidate F
  unfolding beats
  best_of now best [] = best
  best_of now best (c ∷ cs) = best_of now (if beats now c best then c else best) cs

  -- The last choice of selectLocked: in turn, or by the score.
  pick :
      Policy
      → Selection
      → Time
      → Map ℕ
      → Candidate F
      → List (Candidate F)
      → Option (Candidate F) × Map ℕ
  unfolding in_turn best_of
  pick policy selection now cursors c cs =
      if policy.strategy == strategy_round_robin
      then in_turn selection.model.id cursors c cs
      else (some (best_of now c cs), cursors)

  -- selectLocked on the candidates that are left after the preference for a tier.
  choose_among :
      Policy
      → Selection
      → Time
      → Map AffinityEntry
      → Map ℕ
      → List (Candidate F)
      → Option (Candidate F) × Map ℕ
  unfolding find_bound bound_account pick
  choose_among policy selection now affinities cursors [] = (none, cursors)
  choose_among policy selection now affinities cursors (c ∷ cs) =
      elim (find_bound (bound_account policy selection now affinities) (c ∷ cs)) [
        | some bound ↦ (some bound, cursors)
        | none ↦ pick policy selection now cursors c cs
      ]

  unfoldable pub choose :
      Policy
      → Selection
      → Time
      → Map AffinityEntry
      → Map ℕ
      → List (Candidate F)
      → Option (Candidate F) × Map ℕ
  unfolding choose_among preferred
  choose policy selection now affinities cursors [] = (none, cursors)
  choose policy selection now affinities cursors (c ∷ cs) =
      choose_among policy selection now affinities cursors
        (preferred selection.model.prefer_best c cs)

  -- selectLocked, with the candidate that it returns and the pool that it leaves behind.
  unfoldable pub select :
      {W : Type 0} → Pool F W → Selection → Time → Option (Candidate F) × Pool F W
  select p selection now =
      let (states, candidates) = scan p.policy selection now p.states in
      let (chosen, cursors) = choose p.policy selection now p.affinities p.round_robin candidates in
      (chosen, record p { states = states; round_robin = cursors })
