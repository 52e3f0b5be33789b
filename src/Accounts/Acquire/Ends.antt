-- ===== src/Accounts/Acquire/Ends.antt =====
-- Acquire ends: each of its rounds that does not end it uses something up.
use grok_go.Base.{
  ℕ, zero, suc, ◌+◌, ◌≤◌, ◌<◌, ◌≡◌, refl, String, Bool, true, not, is_some, length, if_cases, some,
  Option, arith, eq_refl, option_cases, Holds, subst, ◌==◌, List,
}
use grok_go.Base.Result.{Result, result_cases}
use grok_go.Base.Map.{lookup-insert}
use grok_go.Base.Float.{Float}
use grok_go.Domain.{Time}
use grok_go.Accounts.Pool.{Pool, Selection, System}
use grok_go.Accounts.Select.{Candidate}
use grok_go.Accounts.Choose.{select}
use grok_go.Accounts.Choose.Sound.{IsSelected, select-IsSelected}
use grok_go.Accounts.Reserve.{Attempt, Binding, reserved, reserve}
use grok_go.Accounts.Reserve.Steady.{Steady, find_binding-Steady, refresh_bindings-Steady}
use grok_go.Accounts.Confirm.Balance.{Balanced}
use grok_go.Accounts.Acquire.{
  reservation_of, choose_and_confirm, Lease, rounds, acquire_loaded, round, uses_affinity,
  find_binding,
}
use grok_go.Accounts.Confirm.{Step, done, again, first_attempt}
use grok_go.Accounts.Acquire.Balance.{select-Steady, round-Balanced}
use grok_go.Accounts.Acquire.Locked.{asks, refreshed, potential_locked, drop_stale-Falling}
use grok_go.Accounts.Acquire.Progress.{free, free-insert, free-scan, free-length}
use grok_go.Accounts.Acquire.Falling.{pending, potential, Falling, IsTaken, confirm-Falling}

module _ {F W : Type 0} where
  abbrev Returned : Option (Result (Lease F) × System F W) → Type 0
  Returned o = is_some o ≡ true

module _ {F W : Type 0} (fl : Float F) (sel : Selection) (base : String → ℕ) where
  free-select :
      (xs : List String) (p : Pool F W) (sel' : Selection) (now : Time)
      → free xs (select fl p sel' now).1.states ≡ free xs p.states
  unfolding select
  free-select xs p sel' now = free-scan xs p.policy sel' now p.states

  coordinator-select :
      (p : Pool F W) (sel' : Selection) (now : Time)
      → (select fl p sel' now).1.coordinator ≡ p.coordinator
  unfolding select
  coordinator-select p sel' now = refl

  reserve-IsTaken :
      (useful : Bool) (a : Attempt) (b : Binding) (now : Time) (p : Pool F W) (c : Candidate F)
      → Steady base p.states
      → IsSelected fl p (record sel { exclude_ids = a.excluded }) now c
      → IsTaken sel
          (potential sel a p)
          (reservation_of useful b now c)
          a
          (reserve c.0 c.1 now (select fl p (record sel { exclude_ids = a.excluded }) now).1)
  unfolding reserve reserved potential pending
  reserve-IsTaken useful a b now p (id, s) h chosen =
      let sel' : Selection = record sel { exclude_ids = a.excluded } in
      let q = (select fl p sel' now).1 in
      let same = (select-Steady fl sel base p sel' now h).keyed.at_key id s chosen.kept in
      record {
        new = rw same chosen.candidate.included;
        state = reserved s now;
        found = rw same (simp (lookup-insert, eq_refl));
        budget = λ c e. ground (
          arith,
          e,
          coordinator-select p sel' now,
          free-select a.excluded p sel' now,
          free-insert a.excluded id (reserved s now) s q.states chosen.kept,
        );
      }

  choose_and_confirm-Falling :
      (useful : Bool) (a : Attempt) (b : Binding) (now : Time) (s : System F W)
      → Steady base s.pool.states
      → Falling sel (potential sel a s.pool) (choose_and_confirm fl sel useful a b now s)
  unfolding choose_and_confirm
  choose_and_confirm-Falling useful a b now s h =
      let n = potential sel a s.pool in
      let sel' : Selection = record sel { exclude_ids = a.excluded } in
      option_cases (Falling sel n) (select fl s.pool sel' now).0 _ _ (λ _. record { falls = tt })
        (λ c e.
          confirm-Falling sel n (reservation_of useful b now c) a
            (record s { pool = reserve c.0 c.1 now (select fl s.pool sel' now).1 })
            (reserve-IsTaken useful a b now s.pool c h (
              subst (Holds (IsSelected fl s.pool sel' now)) e
                (select-IsSelected fl s.pool sel' now h.distinct))))

  Falling-mono : (n m : ℕ) (x : Step F W) → Falling sel n x → n ≤ m → Falling sel m x
  Falling-mono n m (done r s) h le = record { falls = tt }
  Falling-mono n m (again a s) h le = record { falls = omega (arith, h.falls, le) }

  -- A round that does not end Acquire leaves fewer rounds to run.
  round-Falling :
      (useful : Bool) (a : Attempt) (s : System F W)
      → Steady base s.pool.states
      → Falling sel (potential sel a s.pool) (round fl sel useful a s)
  unfolding round
  round-Falling useful a s h =
      let now = (s.pool.now s.world).0 in
      let w = (s.pool.now s.world).1 in
      let p = refreshed sel a now useful s.pool in
      let found = find_binding useful sel a now p in
      let steady =
        find_binding-Steady base sel a now p
          (refresh_bindings-Steady base (asks sel a now useful s.pool) sel a now s.pool h) useful in
      if_cases (Falling sel (potential sel a s.pool)) (not (found.0.stale == "")) _ _
        (λ e. drop_stale-Falling sel a now useful s.pool w (ground (arith, e)))
        (λ _.
          Falling-mono (potential sel a found.1) (potential sel a s.pool) _
            (choose_and_confirm-Falling useful a found.0 now (record { pool = found.1; world = w })
              steady)
            (potential_locked sel a now useful s.pool))

  returns_step :
      (n fuel : ℕ) (x : Step F W)
      (more : Attempt → System F W → Option (Result (Lease F) × System F W))
      → Balanced base x
      → Falling sel n x
      → n ≤ fuel
      → ((a : Attempt) (s : System F W)
          → Steady base s.pool.states
          → potential sel a s.pool < fuel
          → Returned (more a s))
      → Returned (elim x [ done r s ↦ some (r, s) | again a s ↦ more a s ])
  returns_step n fuel (done r s) more b f le k = refl
  returns_step n fuel (again a s) more b f le k = k a s b.counts (omega (arith, f.falls, le))

  rounds_return :
      (fuel : ℕ) (useful : Bool) (a : Attempt) (s : System F W)
      → Steady base s.pool.states
      → potential sel a s.pool < fuel
      → Returned (rounds fl sel fuel useful a s)
  unfolding rounds
  rounds_return zero useful a s h lt = absurd (omega (arith, lt))
  rounds_return (suc fuel) useful a s h lt =
      returns_step (potential sel a s.pool) fuel (round fl sel useful a s)
        (λ a' s'. rounds fl sel fuel useful a' s') (round-Balanced fl sel base useful a s h)
        (round-Falling useful a s h) (omega (arith, lt))
        (λ a' s' h' lt'. rounds_return fuel useful a' s' h' lt')

  potential_bound : (a : Attempt) (p : Pool F W) → potential sel a p ≤ length p.states + 1
  unfolding potential pending
  potential_bound a p = ground (arith, free-length a.excluded p.states)

  -- Acquire returns: two rounds more than the pool has accounts are enough, whatever the
  -- coordinator, the store and the clock answer.
  pub acquire_loaded_returns :
      (fuel : ℕ) (s : System F W)
      → Steady base s.pool.states
      → length s.pool.states + 2 ≤ fuel
      → is_some (acquire_loaded fl sel fuel s) ≡ true
  unfolding acquire_loaded
  acquire_loaded_returns fuel s h enough =
      let useful = uses_affinity s.pool sel in
      option_cases Returned s.pool.coordinator _ _ (λ _. start useful "" s.world)
        (λ c _.
          if_cases Returned (not useful) _ _ (λ _. start useful "" s.world)
            (λ _.
              result_cases Returned (c.get_affinity sel.model.id sel.affinity_key s.world).0 _ _
                (λ e. refl)
                (λ known.
                  option_cases Returned known _ _ (λ _. start useful "" _)
                    (λ id _. start useful id _))))
    where
      start :
          (useful : Bool) (id : String) (w : W)
          → Returned (rounds fl sel fuel useful (first_attempt sel id) (record s { world = w }))
      start useful id w =
          rounds_return fuel useful (first_attempt sel id) (record s { world = w }) h
            (omega (arith, enough, potential_bound (first_attempt sel id) s.pool))
