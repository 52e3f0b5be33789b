-- ===== src/Accounts/Select.antt =====
-- internal/accounts/pool.go: which accounts may serve a model, and which of them is chosen.
pub mod Eligible
use grok_go.Base.{
  ℕ, zero, suc, ◌+◌, ◌*◌, ◌-◌, ◌%◌, ◌^◌, ◌||◌, ◌&&◌, not, String, Bool, true, false, Option, none,
  some, List, [], ◌∷◌, ◌==◌, length, get_elem?, keep, ltb, leb, eqb, if◌then◌else◌,
}
use grok_go.Base.Int.{ℤ, pos, leb_ℤ, ltb_ℤ, ◌-ℤ◌}
use grok_go.Base.Map.{Map, lookup, insert, delete}
use grok_go.Base.Text.{lowers_to}
use grok_go.Base.Float.{Float}
use grok_go.Domain.{
  Time, Duration, Account, ModelSpec, QuotaSnapshot, CredentialKind, kind_eq, status_eq, active,
  cooldown, after, sub_time, minute,
}
use grok_go.Accounts.Policy.{
  Policy, cooldown_of, positive_or, strategy_affinity, strategy_round_robin,
}
use grok_go.Accounts.Quota.{quota_unavailable_until}
use grok_go.Accounts.Affinity.{affinity_key}
use grok_go.Accounts.Pool.{Pool, RuntimeState, AffinityEntry, Selection}
use text.Mathlib.Text.{is_lt}
use Prim.Native.String.{compare}

-- slices.Contains, and membership in a set of keys.
unfoldable pub contains : List String → String → Bool
contains [] a = false
contains (x ∷ xs) a = x == a || contains xs a

unfoldable pub contains_kind : List CredentialKind → CredentialKind → Bool
contains_kind [] a = false
contains_kind (x ∷ xs) a = kind_eq x a || contains_kind xs a

unfoldable pub tier_rank : String → ℕ
tier_rank tier =
    if lowers_to tier "heavy" || lowers_to tier "enterprise"
    then 2
    else if lowers_to tier "super" || lowers_to tier "pro" || lowers_to tier "premium"
    then 1
    else 0

-- A state of the pool under its key in the map.
abbrev pub Candidate : Type 0 → Type 0
Candidate F = String × RuntimeState F

module _ {F : Type 0} where
  -- The limit of an account, or the policy's where it sets none.
  unfoldable pub limit_of : Policy → Account F → ℤ
  limit_of policy account = positive_or account.concurrency_limit policy.default_concurrency

  -- An account whose cooldown has run out counts as active from now on.
  unfoldable pub revive : RuntimeState F → Time → RuntimeState F
  revive s now =
      if status_eq s.account.status cooldown && not (after s.cooldown_till now)
      then record s { account = record s.account { status = active; cooldown_until = none } }
      else s

  unfoldable pub serves_model : Account F → ModelSpec → Bool
  serves_model account model =
      leb (length account.models) 0
      || contains account.models model.id
      || contains account.models model.upstream_model

  -- durablyEligibleLocked, with the state that it leaves behind.
  unfoldable pub durably_eligible :
      Policy → RuntimeState F → ModelSpec → Time → RuntimeState F × Bool
  durably_eligible policy state model now =
      let s = revive state now in
      let account = s.account in
      (
        s,
        if not (status_eq account.status active) || after s.cooldown_till now
            then false
            else if not (contains_kind model.credential_kinds account.kind)
            then false
            else if not (serves_model account model)
            then false
            else if not (model.minimum_tier == "")
                && ltb (tier_rank account.tier) (tier_rank model.minimum_tier)
            then false
            else not (
                after (quota_unavailable_until account.quota now (cooldown_of policy account.kind))
                  now),
      )

  unfoldable pub eligible : Policy → RuntimeState F → ModelSpec → Time → RuntimeState F × Bool
  eligible policy state model now =
      let (s, durable) = durably_eligible policy state model now in
      (s, if not durable then false else ltb_ℤ (pos s.inflight) (limit_of policy s.account))

  -- The first loop of selectLocked: the states with what the tests left behind, and the candidates.
  unfoldable pub scan :
      Policy → Selection → Time → Map (RuntimeState F) → Map (RuntimeState F) × List (Candidate F)
  scan policy selection now [] = ([], [])
  scan policy selection now ((id, state) ∷ m) =
      let (m', candidates) = scan policy selection now m in
      let (s, fits) = eligible policy state selection.model now in
      if contains selection.exclude_ids id
      then ((id, state) ∷ m', candidates)
      else if not fits
      then ((id, s) ∷ m', candidates)
      else ((id, s) ∷ m', (id, s) ∷ candidates)
