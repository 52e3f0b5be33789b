-- ===== src/Tests/Reading.antt =====
-- The theorems on the policy, the quota, the backoff and reloading, at concrete values.
use Prim.Native.Nat.{min}
use grok_go.Base.{suc, ◌≡◌, ◌*◌, ◌^◌, ℕ, refl, some, [], ◌∷◌, arith, map, if◌then◌else◌}
use grok_go.Base.Int.{pos}
use grok_go.Base.Map.{delete_if, insert, lookup}
use grok_go.Domain.{QuotaSnapshot, active, second}
use grok_go.Accounts.Policy.{default_policy}
use grok_go.Accounts.Backoff.{transient_backoff}
use grok_go.Accounts.Backoff.Exponential.{transient_backoff_exponential}
use grok_go.Accounts.Pool.{RuntimeState}
use grok_go.Accounts.Select.{contains}
use grok_go.Accounts.Reload.{reconcile}
use grok_go.Accounts.Reload.Kept.{reconcile_bindings}
use grok_go.Accounts.Reserve.Steady.{Steady}
use grok_go.Accounts.Create.{new_pool_with_coordinator}
use grok_go.Accounts.Create.Fresh.{reconcile-Fresh, reconcile-Steady}
use grok_go.Tests.Values.{
  coordinator, counters, store, account_of, binding, open_quota, pool, states-Steady,
}
use grok_go.Tests.Scores.{scores}

abbrev spent_quota : QuotaSnapshot
spent_quota = record open_quota { requests_remaining = pos 0 }

transient_backoff_exponential_example :
    transient_backoff default_policy (pos 4) ≡ pos (min (300 * second) (5 * second * 2 ^ 3))
transient_backoff_exponential_example =
    transient_backoff_exponential default_policy (5 * second) (300 * second) 3 refl refl
      (omega arith) (omega arith)

reconcile-Steady_example :
    Steady
      (λ id.
        if contains (map (λ item. item.id) (account_of "a" active ∷ [])) id then counters id else 0)
      (reconcile scores (account_of "a" active ∷ []) pool).states
reconcile-Steady_example =
    reconcile-Steady scores (account_of "a" active ∷ []) pool counters states-Steady

reconcile-Fresh_example :
    Steady
      (λ id. 0)
      (reconcile scores (account_of "a" active ∷ []) (
        new_pool_with_coordinator store default_policy (some coordinator) (λ w. (w, suc w)))).states
reconcile-Fresh_example =
    reconcile-Fresh scores store default_policy (some coordinator) (λ w. (w, suc w))
      (account_of "a" active ∷ [])

reconcile_bindings_example :
    (s : RuntimeState ℕ) × (lookup "a" (reconcile scores (account_of "a" active ∷ []) pool).states
      ≡ some s)
    × (s.account.status ≡ active)
unfolding reconcile lookup delete_if insert contains
reconcile_bindings_example =
    reconcile_bindings scores (account_of "a" active ∷ []) pool states-Steady.distinct
      "grok-4\0talk" binding refl
