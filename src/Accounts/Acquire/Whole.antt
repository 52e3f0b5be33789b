-- ===== src/Accounts/Acquire/Whole.antt =====
-- Acquire with the loading of the pool before its rounds.
use grok_go.Base.{
  ℕ, ◌+◌, ◌≤◌, ◌≡◌, refl, String, Option, none, some, length, option_cases, if_cases,
}
use grok_go.Base.Float.{Float}
use grok_go.Base.Result.{Error, Result, err, result_cases}
use grok_go.Accounts.Pool.{Lease, Pool, Selection, System}
use grok_go.Accounts.Reload.{ensure_loaded, reconcile, reload}
use grok_go.Accounts.Reload.Kept.{inflight_at}
use grok_go.Accounts.Create.Fresh.{reconcile-Steady}
use grok_go.Accounts.Reserve.Steady.{Steady}
use grok_go.Accounts.Confirm.Balance.{Counted}
use grok_go.Accounts.Acquire.{acquire}
use grok_go.Accounts.Acquire.Total.{acquire_loaded_total}

module _ {F W : Type 0} (fl : Float F) where
  -- The counters that a pool has.
  abbrev pub counters_of : Pool F W → String → ℕ
  counters_of p id = inflight_at id p.states

  -- The map of the pool is well formed, with the counters that it has.
  record IsCounting (x : Option Error × System F W) : Type 0 where
    steady : Steady (counters_of x.1.pool) x.1.pool.states

  recounted :
      (base : String → ℕ) (p : Pool F W) → Steady base p.states → Steady (counters_of p) p.states
  recounted base p h = record { distinct = h.distinct; keyed = h.keyed; counts = λ id. refl }

  reload-IsCounting :
      (cancelled : Option Error) (s : System F W) (base : String → ℕ)
      → Steady base s.pool.states
      → IsCounting (reload fl cancelled s)
  unfolding reload
  reload-IsCounting (some e) s base h = record { steady = recounted base s.pool h }
  reload-IsCounting none s base h =
      result_cases IsCounting (s.pool.store.list_accounts s.world).0 _ _
        (λ e. record { steady = recounted base s.pool h })
        (λ items. record {
          steady =
              recounted _ (reconcile fl items s.pool) (reconcile-Steady fl items s.pool base h);
        })

  ensure_loaded-IsCounting :
      (cancelled : Option Error) (s : System F W) (base : String → ℕ)
      → Steady base s.pool.states
      → IsCounting (ensure_loaded fl cancelled s)
  unfolding ensure_loaded
  ensure_loaded-IsCounting cancelled s base h =
      if_cases IsCounting s.pool.loaded _ _ (λ _. record { steady = recounted base s.pool h })
        (λ _. reload-IsCounting cancelled s base h)

  module _ (sel : Selection) (fuel : ℕ) where
    record Returns (base : String → ℕ) (o : Option (Result (Lease F) × System F W)) : Type 0 where
      result : Result (Lease F)
      after : System F W
      returned : o ≡ some (result, after)
      counted : Counted base result after

    acquire-Returns :
        (cancelled : Option Error) (s : System F W) (base : String → ℕ)
        → Steady base s.pool.states
        → length (ensure_loaded fl cancelled s).1.pool.states + 2 ≤ fuel
        → Returns
            (counters_of (ensure_loaded fl cancelled s).1.pool)
            (acquire fl sel fuel cancelled s)
    unfolding acquire
    acquire-Returns cancelled s base h enough =
        let t = (ensure_loaded fl cancelled s).1 in
        let ready = (ensure_loaded-IsCounting cancelled s base h).steady in
        option_cases (Returns (counters_of t.pool)) (ensure_loaded fl cancelled s).0 _ _
          (λ _.
            let (r, after, e, counted) =
              acquire_loaded_total fl sel (counters_of t.pool) fuel t ready enough in
            record { result = r; after = after; returned = e; counted = counted })
          (λ e _. record { result = err e; after = t; returned = refl; counted = ready })

    -- On a pool whose map is well formed, Acquire returns within two rounds more than the pool has
    -- accounts once it is loaded. Where it fails, every inflight counter is what it was then; where
    -- it grants a lease, exactly the leased account has one request more, it is active, and its
    -- requests are within its limit. That holds whatever the coordinator, the store and the clock
    -- answer.
    pub acquire_total :
        (cancelled : Option Error) (s : System F W) (base : String → ℕ)
        → Steady base s.pool.states
        → length (ensure_loaded fl cancelled s).1.pool.states + 2 ≤ fuel
        → (r : Result (Lease F)) × (after : System F W) × (acquire fl sel fuel cancelled s
            ≡ some (r, after))
          × Counted (counters_of (ensure_loaded fl cancelled s).1.pool) r after
    acquire_total cancelled s base h enough =
        let x = acquire-Returns cancelled s base h enough in
        (x.result, x.after, x.returned, x.counted)
