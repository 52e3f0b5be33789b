-- ===== src/Accounts/Acquire/Total.antt =====
-- Acquire as a whole: it returns, and the counters are right whatever it returns.
use grok_go.Base.{ℕ, ◌+◌, ◌≤◌, ◌≡◌, String, some, arith, length, Option-cases, inl, inr}
use grok_go.Base.Float.{Float}
use grok_go.Base.Result.{Result}
use grok_go.Accounts.Pool.{Lease, Selection, System}
use grok_go.Accounts.Reserve.Steady.{Steady}
use grok_go.Accounts.Confirm.Balance.{Counted}
use grok_go.Accounts.Acquire.{acquire_loaded}
use grok_go.Accounts.Acquire.Balance.{acquire_loaded-Counted}
use grok_go.Accounts.Acquire.Ends.{acquire_loaded_returns}

-- On a pool whose map is well formed, Acquire returns within two rounds more than the pool has
-- accounts. Where it fails, every inflight counter is what it was; where it grants a lease, exactly
-- the leased account has one request more, it is active, and its requests are within its limit.
-- That holds whatever the coordinator, the store and the clock answer.
pub acquire_loaded_total :
    {F W : Type 0} (fl : Float F) (sel : Selection) (base : String → ℕ) (fuel : ℕ) (s : System F W)
    → Steady base s.pool.states
    → length s.pool.states + 2 ≤ fuel
    → (r : Result (Lease F)) × (s' : System F W) × (acquire_loaded fl sel fuel s ≡ some (r, s'))
      × Counted base r s'
acquire_loaded_total fl sel base fuel s h enough =
    elim (Option-cases (acquire_loaded fl sel fuel s)) [
      | inl e ↦ absurd (ground (arith, acquire_loaded_returns fl sel base fuel s h enough, e))
      | inr ((r, s'), e) ↦ (r, s', e, acquire_loaded-Counted fl sel base fuel s s' r h e)
    ]
