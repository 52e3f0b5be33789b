-- ===== src/Accounts/Acquire/Balance.antt =====
-- Acquire neither leaks a reservation nor grants more than one.
use grok_go.Base.{
  ℕ, zero, suc, ◌≡◌, refl, sym, String, Bool, not, ◌&&◌, Option, some, ◌==◌, eq_refl, arith,
  if_cases, option_cases, subst, some_inj, Holds, is_some,
}
use grok_go.Base.Map.{lookup-insert}
use grok_go.Base.Float.{Float}
use grok_go.Base.Result.{Result, result_cases}
use grok_go.Domain.{Time}
use grok_go.Accounts.Pool.{Pool, System, Selection, Lease}
use grok_go.Accounts.Select.{Candidate, limit_of}
use grok_go.Accounts.Choose.{select}
use grok_go.Accounts.Choose.Sound.{IsSelected, select-IsSelected}
use grok_go.Accounts.Reserve.{
  Attempt, Binding, uses_affinity, refresh_bindings, find_binding, reserve, reserved,
}
use grok_go.Accounts.Reserve.Steady.{
  Steady, scan-Steady, reserve-Steady, find_binding-Steady, refresh_bindings-Steady,
}
use grok_go.Accounts.Confirm.{Step, done, again, Reservation, first_attempt}
use grok_go.Accounts.Confirm.Balance.{
  Balanced, Counted, IsReserved, confirm-Balanced, drop_stale-Balanced,
}
use grok_go.Accounts.Acquire.{reservation_of, choose_and_confirm, round, rounds, acquire_loaded}

module _ {F W : Type 0} (fl : Float F) (sel : Selection) (base : String → ℕ) where
  pub select-Steady :
      (p : Pool F W) (sel' : Selection) (now : Time)
      → Steady base p.states
      → Steady base (select fl p sel' now).1.states
  unfolding select
  select-Steady p sel' now h = scan-Steady p.policy sel' now base p.states h

  policy-select :
      (p : Pool F W) (sel' : Selection) (now : Time) → (select fl p sel' now).1.policy ≡ p.policy
  unfolding select
  policy-select p sel' now = refl

  -- The reservation of a selected account leaves it active and within its limit.
  reserve-IsReserved :
      (p : Pool F W) (sel' : Selection) (now : Time) (c : Candidate F) (r : Reservation F)
      → Steady base p.states
      → IsSelected fl p sel' now c
      → r.account ≡ (reserved c.1 now).account
      → IsReserved base r (reserve c.0 c.1 now (select fl p sel' now).1)
  unfolding reserve limit_of reserved
  reserve-IsReserved p sel' now (id, s) r h chosen e =
      let q = (select fl p sel' now).1 in
      let h' = select-Steady p sel' now h in
      let same : s.account.id ≡ id = h'.keyed.at_key id s chosen.kept in
      let named : r.account.id ≡ id = ground (arith, e, same) in
      record {
        steady = rw named (reserve-Steady base id s now q h' chosen.kept);
        granted = record {
          state = reserved s now;
          found = rw named (simp (lookup-insert, eq_refl));
          same = sym e;
          is_active = ground (arith, e, chosen.ready.is_active);
          within = ground (arith, e, chosen.ready.slot, policy-select p sel' now);
        };
      }

  choose_and_confirm-Balanced :
      (useful : Bool) (a : Attempt) (b : Binding) (now : Time) (s : System F W)
      → Steady base s.pool.states
      → Balanced base (choose_and_confirm fl sel useful a b now s)
  unfolding choose_and_confirm
  choose_and_confirm-Balanced useful a b now s h =
      let sel' : Selection = record sel { exclude_ids = a.excluded } in
      option_cases (Balanced base) (select fl s.pool sel' now).0 _ _
        (λ _. record { counts = select-Steady s.pool sel' now h })
        (λ c e. confirm-Balanced base (reservation_of useful b now c) sel a _ (
          reserve-IsReserved s.pool sel' now c (reservation_of useful b now c) h
            (subst (Holds (IsSelected fl s.pool sel' now)) e
              (select-IsSelected fl s.pool sel' now h.distinct))
            refl))

  pub round-Balanced :
      (useful : Bool) (a : Attempt) (s : System F W)
      → Steady base s.pool.states
      → Balanced base (round fl sel useful a s)
  unfolding round
  round-Balanced useful a s h =
      let now = (s.pool.now s.world).0 in
      let checked = is_some s.pool.coordinator && useful in
      let p = refresh_bindings checked sel a now s.pool in
      let steady =
        find_binding-Steady base sel a now p
          (refresh_bindings-Steady base checked sel a now s.pool h) useful in
      if_cases (Balanced base) (not ((find_binding useful sel a now p).0.stale == "")) _ _
        (λ _. drop_stale-Balanced base sel a _ _ steady)
        (λ _. choose_and_confirm-Balanced useful a (find_binding useful sel a now p).0 now _ steady)

  -- A result that is there counts as it should.
  record Settles (o : Option (Result (Lease F) × System F W)) : Type 0 where
    at : (r : Result (Lease F)) (s : System F W) → o ≡ some (r, s) → Counted base r s

  Settles-step :
      (x : Step F W) (more : Attempt → System F W → Option (Result (Lease F) × System F W))
      → Balanced base x
      → ((a : Attempt) (s : System F W) → Steady base s.pool.states → Settles (more a s))
      → Settles (elim x [ done r s ↦ some (r, s) | again a s ↦ more a s ])
  Settles-step (done r s) more h k = record {
    at = λ r' s' e.
        subst (λ (o : Result (Lease F) × System F W). Counted base o.0 o.1)
          (some_inj (r, s) (r', s') e) h.counts;
  }
  Settles-step (again a s) more h k = k a s h.counts

  rounds-Settles :
      (fuel : ℕ) (useful : Bool) (a : Attempt) (s : System F W)
      → Steady base s.pool.states
      → Settles (rounds fl sel fuel useful a s)
  unfolding rounds
  rounds-Settles zero useful a s h = record { at = λ r s' e. cc }
  rounds-Settles (suc fuel) useful a s h =
      Settles-step (round fl sel useful a s) (λ a' s'. rounds fl sel fuel useful a' s')
        (round-Balanced useful a s h) (λ a' s' h'. rounds-Settles fuel useful a' s' h')

  acquire_loaded-Settles :
      (fuel : ℕ) (s : System F W)
      → Steady base s.pool.states
      → Settles (acquire_loaded fl sel fuel s)
  unfolding acquire_loaded
  acquire_loaded-Settles fuel s h =
      let useful = uses_affinity s.pool sel in
      option_cases Settles s.pool.coordinator _ _
        (λ _. rounds-Settles fuel useful (first_attempt sel "") s h)
        (λ c _.
          if_cases Settles (not useful) _ _
            (λ _. rounds-Settles fuel useful (first_attempt sel "") s h)
            (λ _.
              result_cases Settles (c.get_affinity sel.model.id sel.affinity_key s.world).0 _ _
                (λ e. record {
                  at = λ r s' e'.
                      subst (λ (o : Result (Lease F) × System F W). Counted base o.0 o.1)
                        (some_inj _ (r, s') e') h;
                })
                (λ known.
                  option_cases Settles known _ _
                    (λ _. rounds-Settles fuel useful (first_attempt sel "") _ h)
                    (λ id _. rounds-Settles fuel useful (first_attempt sel id) _ h))))

  -- When Acquire fails, every inflight counter is what it was; when it grants a lease, exactly the
  -- leased account has one request more, it is active, and its requests are within its limit.
  pub acquire_loaded-Counted :
      (fuel : ℕ) (s s' : System F W) (r : Result (Lease F))
      → Steady base s.pool.states
      → acquire_loaded fl sel fuel s ≡ some (r, s')
      → Counted base r s'
  acquire_loaded-Counted fuel s s' r h e = (acquire_loaded-Settles fuel s h).at r s' e
