-- ===== src/Accounts/Probe/Balance.antt =====
-- A probe neither leaks a reservation nor goes beyond the account's limit.
use grok_go.Base.{
  sym, subst, ℕ, ◌≡◌, sym, String, Option, none, some, arith, eq_refl, if_cases, option_cases,
  false,
}
use grok_go.Base.Int.{pos, ◌≤ℤ◌, leb_ℤ}
use grok_go.Base.Map.{lookup, lookup-insert}
use grok_go.Base.Result.{Error, Result, ok, err, result_cases}
use grok_go.Domain.{Account, zero_time, Time}
use grok_go.Accounts.Pool.{CoordinationLease, Lease, Pool, RuntimeState, System}
use grok_go.Accounts.Select.{limit_of}
use grok_go.Accounts.Release.{return_lease}
use grok_go.Accounts.Reserve.{reserve, reserved}
use grok_go.Accounts.Reserve.Steady.{Steady, bumped, reserve-Steady, rollback-Steady}
use grok_go.Accounts.Confirm.{roll_back}
use grok_go.Accounts.Confirm.Balance.{pool-return_lease}
use grok_go.Accounts.Probe.{abandon, probe_lease, probe_credentials, probe_reserved, probe_loaded}

module _ {F W : Type 0} where
  -- The account as it was leased has a state in the pool, within its limit.
  pub record IsWithin (account : Account F) (p : Pool F W) : Type 0 where
    pub state : RuntimeState F
    pub found : lookup account.id p.states ≡ some state
    pub within : pos state.inflight ≤ℤ limit_of p.policy account

  abbrev pub ProbeCounted : (String → ℕ) → Result (Lease F) × System F W → Type 0
  ProbeCounted base (err e, s) = Steady base s.pool.states
  ProbeCounted base (ok l, s) =
      Steady (bumped base l.account.id) s.pool.states × IsWithin l.account s.pool

  record Probed (base : String → ℕ) (x : Result (Lease F) × System F W) : Type 0 where
    counts : ProbeCounted base x

module _ {F W : Type 0} (base : String → ℕ) (account : Account F) where
  record IsHeld (p : Pool F W) : Type 0 where
    steady : Steady (bumped base account.id) p.states
    held : IsWithin account p

  roll_back-Steady :
      (s : System F W) → IsHeld s.pool → Steady base (roll_back account.id zero_time s).pool.states
  unfolding roll_back
  roll_back-Steady s h = rollback-Steady base account.id zero_time s.pool h.steady

  abandon-Probed :
      (l : Option CoordinationLease) (e : Error) (s : System F W)
      → IsHeld s.pool
      → Probed base (abandon account l e s)
  unfolding abandon
  abandon-Probed l e s h =
      option_cases (Probed base) (return_lease l (roll_back account.id zero_time s)).0 _ _
        (λ _. record { counts = kept }) (λ _ _. record { counts = kept })
    where
      kept : Steady base (return_lease l (roll_back account.id zero_time s)).1.pool.states
      kept = rw (pool-return_lease l (roll_back account.id zero_time s)) (roll_back-Steady s h)

  probe_credentials-Probed :
      (l : Option CoordinationLease) (s : System F W)
      → IsHeld s.pool
      → Probed base (probe_credentials account l s)
  unfolding probe_credentials probe_lease
  probe_credentials-Probed l s h =
      result_cases (Probed base) (s.pool.store.credentials account.id s.world).0 _ _
        (λ e.
          abandon-Probed l e (record s { world = (s.pool.store.credentials account.id s.world).1 })
            h)
        (λ c. record { counts = (h.steady, h.held) })

  probe_reserved-Probed : (s : System F W) → IsHeld s.pool → Probed base (probe_reserved account s)
  unfolding probe_reserved
  probe_reserved-Probed s h =
      option_cases (Probed base) s.pool.coordinator _ _ (λ _. probe_credentials-Probed none s h)
        (λ c _.
          let answer =
            c.acquire_lease account.id (limit_of s.pool.policy account) s.pool.policy.lease_ttl
              s.world in
          let s' : System F W = record s { world = answer.1 } in
          result_cases (Probed base) answer.0 _ _ (λ e. record { counts = roll_back-Steady s' h })
            (λ taken.
              option_cases (Probed base) taken _ _ (λ _. record { counts = roll_back-Steady s' h })
                (λ l _. probe_credentials-Probed (some l) s' h)))

module _ {F W : Type 0} (base : String → ℕ) where
  reserve-IsHeld :
      (id : String) (s : RuntimeState F) (now : Time) (p : Pool F W)
      → Steady base p.states
      → lookup id p.states ≡ some s
      → leb_ℤ (limit_of p.policy s.account) (pos s.inflight) ≡ false
      → IsHeld base (reserved s now).account (reserve id s now p)
  unfolding reserve reserved limit_of
  reserve-IsHeld id s now p h found room =
      let same : s.account.id ≡ id = h.keyed.at_key id s found in
      record {
        steady =
            subst (λ (x : String). Steady (bumped base x) (reserve id s now p).states) (sym same)
              (reserve-Steady base id s now p h found);
        held = record {
          state = reserved s now;
          found = rw same (simp (lookup-insert, eq_refl));
          within = ground (arith, room);
        };
      }

  probe_loaded-Probed :
      (id : String) (s : System F W) → Steady base s.pool.states → Probed base (probe_loaded id s)
  unfolding probe_loaded
  probe_loaded-Probed id s h =
      let now = (s.pool.now s.world).0 in
      option_cases (Probed base) (lookup id s.pool.states) _ _ (λ _. record { counts = h })
        (λ t found.
          if_cases (Probed base) (leb_ℤ (limit_of s.pool.policy t.account) (pos t.inflight)) _ _
            (λ _. record { counts = h })
            (λ room.
              probe_reserved-Probed base (reserved t now).account
                (record { pool = reserve id t now s.pool; world = (s.pool.now s.world).1 })
                (reserve-IsHeld id t now s.pool h found room)))

  -- A probe that fails leaves every inflight counter as it was, whatever the coordinator and the
  -- store answer; a probe that succeeds counts one request more on its account, within the
  -- account's limit.
  pub probe_loaded_balanced :
      (id : String) (s : System F W)
      → Steady base s.pool.states
      → ProbeCounted base (probe_loaded id s)
  probe_loaded_balanced id s h = (probe_loaded-Probed id s h).counts
