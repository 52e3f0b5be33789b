-- ===== src/Accounts/Create/Fresh.antt =====
-- A pool that is loaded for the first time is ready for Acquire.
use grok_go.Accounts.Select.{contains}
use grok_go.Base.{map, if◌then◌else◌, List, arith, Option, ℕ}
use grok_go.Base.Float.{Float}
use grok_go.Base.Map.{lookup}
use grok_go.Domain.{Account, Time}
use grok_go.Accounts.Policy.{Policy}
use grok_go.Accounts.Pool.{Coordinator, Store}
use grok_go.Accounts.Reload.{reconcile}
use grok_go.Accounts.Reload.Kept.{
  IsKeyed, reconcile-Distinct, reconcile-IsKeyed, reconcile-inflight,
}
use grok_go.Accounts.Reserve.Steady.{Steady}
use grok_go.Accounts.Create.{new_pool_with_coordinator, Pool, String}

module _ {F W : Type 0} (fl : Float F) (store : Store F W) (policy : Policy)
    (coordinator : Option (Coordinator W)) (now : W → Time × W) where
  empty_IsKeyed : IsKeyed (new_pool_with_coordinator store policy coordinator now).states
  unfolding new_pool_with_coordinator lookup
  empty_IsKeyed = record { at_key = λ id s h. cc }

  -- Whatever accounts the store lists, twice or not, a new pool that loads them has one state for
  -- an account, under its id, and no request under way.
  pub reconcile-Fresh :
      (items : List (Account F))
      → Steady
          (λ id. 0)
          (reconcile fl items (new_pool_with_coordinator store policy coordinator now)).states
  unfolding new_pool_with_coordinator lookup
  reconcile-Fresh items =
      let p = new_pool_with_coordinator store policy coordinator now in
      record {
        distinct = reconcile-Distinct fl items p tt;
        keyed = reconcile-IsKeyed fl items p tt empty_IsKeyed;
        counts = λ id. ground (arith, reconcile-inflight fl items p tt id);
      }

-- Reloading keeps the invariant of the map, and the counters of the accounts that are still listed.
pub reconcile-Steady :
    {F W : Type 0} (fl : Float F) (items : List (Account F)) (p : Pool F W) (base : String → ℕ)
    → Steady base p.states
    → Steady
        (λ id. if contains (map (λ item. item.id) items) id then base id else 0)
        (reconcile fl items p).states
reconcile-Steady fl items p base h = record {
  distinct = reconcile-Distinct fl items p h.distinct;
  keyed = reconcile-IsKeyed fl items p h.distinct h.keyed;
  counts = λ id. ground (arith, reconcile-inflight fl items p h.distinct id, h.counts id);
}
