-- ===== src/Accounts/Confirm/Balance.antt =====
-- A round of Acquire either grants a lease and keeps its reservation, or gives the reservation
-- back.
use grok_go.Base.{
  ℕ, ◌≡◌, refl, String, Bool, false, not, ◌&&◌, Option, none, some, ◌==◌, arith, if_cases,
  option_cases,
}
use grok_go.Base.Int.{pos, ◌≤ℤ◌}
use grok_go.Base.Map.{lookup}
use grok_go.Base.Result.{wrap, Error, Result, ok, err, result_cases}
use grok_go.Domain.{Time, Account, Credentials, active, zero_time}
use grok_go.Accounts.Pool.{
  Pool, System, RuntimeState, Selection, Coordinator, CoordinationLease, Lease,
}
use grok_go.Accounts.Select.{limit_of}
use grok_go.Accounts.Release.{return_lease, coordinate}
use grok_go.Accounts.Reserve.{Attempt}
use grok_go.Accounts.Reserve.Steady.{Steady, bumped, rollback-Steady}
use grok_go.Accounts.Confirm.{
  recorded, Step, done, again, Reservation, roll_back, fail, lease_of, bind, unbind_then_bind,
  with_credentials, cooling_down, take_slot, confirm, drop_stale,
}

module _ {F W : Type 0} where
  -- The account is held by the pool as it was leased: active, and within its concurrency limit with
  -- the new request counted.
  pub record IsGranted (account : Account F) (p : Pool F W) : Type 0 where
    pub state : RuntimeState F
    pub found : lookup account.id p.states ≡ some state
    pub same : state.account ≡ account
    pub is_active : account.status ≡ active
    pub within : pos state.inflight ≤ℤ limit_of p.policy account

  -- A result with the counters that it leaves: a lease counts once, for its account.
  abbrev pub Counted : (String → ℕ) → Result (Lease F) → System F W → Type 0
  Counted base (err e) s = Steady base s.pool.states
  Counted base (ok l) s =
      Steady (bumped base l.account.id) s.pool.states × IsGranted l.account s.pool

  abbrev pub CountedStep : (String → ℕ) → Step F W → Type 0
  CountedStep base (done r s) = Counted base r s
  CountedStep base (again a s) = Steady base s.pool.states

  pub record Balanced (base : String → ℕ) (x : Step F W) : Type 0 where
    pub counts : CountedStep base x

  -- The state in the middle of a round.
  pub record IsReserved (base : String → ℕ) (r : Reservation F) (p : Pool F W) : Type 0 where
    pub steady : Steady (bumped base r.account.id) p.states
    pub granted : IsGranted r.account p

  pub pool-return_lease :
      (l : Option CoordinationLease) (s : System F W) → (return_lease l s).1.pool ≡ s.pool
  unfolding return_lease coordinate
  pool-return_lease none s = refl
  pool-return_lease (some l) s = ground arith

module _ {F W : Type 0} (base : String → ℕ) (r : Reservation F) where
  roll_back-Steady :
      (until : Time) (s : System F W)
      → IsReserved base r s.pool
      → Steady base (roll_back r.account.id until s).pool.states
  unfolding roll_back
  roll_back-Steady until s h = rollback-Steady base r.account.id until s.pool h.steady

  fail-Balanced :
      (l : Option CoordinationLease) (wrapped : Error → Error) (e : Error) (s : System F W)
      → IsReserved base r s.pool
      → Balanced base (fail r l wrapped e s)
  unfolding fail
  fail-Balanced l wrapped e s h =
      option_cases (Balanced base) (return_lease l (roll_back r.account.id zero_time s)).0 _ _
        (λ _. record { counts = kept }) (λ _ _. record { counts = kept })
    where
      kept : Steady base (return_lease l (roll_back r.account.id zero_time s)).1.pool.states
      kept =
          rw (pool-return_lease l (roll_back r.account.id zero_time s))
            (roll_back-Steady zero_time s h)

  module _ (sel : Selection) where
    done-Balanced :
        (c : Credentials) (l : Option CoordinationLease) (b : Bool) (s : System F W)
        → IsReserved base r s.pool
        → Balanced base (done (ok (lease_of sel r c l b)) s)
    unfolding lease_of
    done-Balanced c l b s h = record { counts = (h.steady, h.granted) }

    recorded-Balanced :
        (c : Credentials) (l : Option CoordinationLease) (b : Bool) (id : String) (s : System F W)
        → IsReserved base r s.pool
        → Balanced base (done (ok (lease_of sel r c l b)) (recorded sel r id s))
    unfolding lease_of
    recorded-Balanced c l b id s h = record {
      counts = (
        h.steady,
        record {
          state = h.granted.state;
          found = h.granted.found;
          same = h.granted.same;
          is_active = h.granted.is_active;
          within = h.granted.within;
        },
      );
    }

    bind-Balanced :
        (c : Credentials) (l : Option CoordinationLease) (s : System F W)
        → IsReserved base r s.pool
        → Balanced base (bind sel r c l s)
    unfolding bind
    bind-Balanced c l s h =
        if_cases (Balanced base) (not r.use_affinity) _ _ (λ _. done-Balanced c l false s h)
          (λ _.
            option_cases (Balanced base) s.pool.coordinator _ _ (λ _. recorded-Balanced c l _ _ s h)
              (λ k _.
                result_cases (Balanced base)
                  (k.bind_affinity sel.model.id sel.affinity_key r.account.id
                    s.pool.policy.affinity_ttl s.world).0
                  _ _ (λ e. fail-Balanced l (λ x. x) _ _ h) (λ a. recorded-Balanced c l _ _ _ h)))

    unbind_then_bind-Balanced :
        (a : Attempt) (c : Credentials) (l : Option CoordinationLease) (s : System F W)
        → IsReserved base r s.pool
        → Balanced base (unbind_then_bind sel a r c l s)
    unfolding unbind_then_bind
    unbind_then_bind-Balanced a c l s h =
        option_cases (Balanced base) s.pool.coordinator _ _ (λ _. bind-Balanced c l s h)
          (λ k _.
            if_cases (Balanced base)
              (not (a.coordinated == "") && not (r.account.id == a.coordinated) && not r.preserve) _
              _
              (λ _.
                option_cases (Balanced base)
                  (k.clear_affinity sel.model.id sel.affinity_key a.coordinated s.world).0 _ _
                  (λ _. bind-Balanced c l _ h)
                  (λ e _. fail-Balanced l (λ x. wrap "clear stale account affinity" x) e _ h))
              (λ _. bind-Balanced c l s h))

    with_credentials-Balanced :
        (a : Attempt) (l : Option CoordinationLease) (s : System F W)
        → IsReserved base r s.pool
        → Balanced base (with_credentials sel a r l s)
    unfolding with_credentials
    with_credentials-Balanced a l s h =
        result_cases (Balanced base) (s.pool.store.credentials r.account.id s.world).0 _ _
          (λ e. fail-Balanced l (λ x. x) e _ h) (λ c. unbind_then_bind-Balanced a c l _ h)

    cooling_down-Balanced :
        (a : Attempt) (c : Coordinator W) (until : Time) (s : System F W)
        → IsReserved base r s.pool
        → Balanced base (cooling_down sel a r c until s)
    unfolding cooling_down roll_back
    cooling_down-Balanced a c until s h =
        let kept = roll_back-Steady until s h in
        if_cases (Balanced base) (not (a.coordinated == "") && r.account.id == a.coordinated) _ _
          (λ _.
            option_cases (Balanced base)
              (c.clear_affinity sel.model.id sel.affinity_key a.coordinated s.world).0 _ _
              (λ _. record { counts = kept }) (λ e _. record { counts = kept }))
          (λ _. record { counts = kept })

    take_slot-Balanced :
        (a : Attempt) (c : Coordinator W) (s : System F W)
        → IsReserved base r s.pool
        → Balanced base (take_slot sel a r c s)
    unfolding take_slot
    take_slot-Balanced a c s h =
        result_cases (Balanced base)
          (c.acquire_lease r.account.id (limit_of s.pool.policy r.account) s.pool.policy.lease_ttl
            s.world).0
          _ _ (λ e. record { counts = roll_back-Steady zero_time _ h })
          (λ taken.
            option_cases (Balanced base) taken _ _
              (λ _. record { counts = roll_back-Steady zero_time _ h })
              (λ l _. with_credentials-Balanced a (some l) _ h))

    -- After the reservation a round grants a lease that counts once for its account, or gives the
    -- reservation back, whatever the coordinator and the store answer.
    pub confirm-Balanced :
        (a : Attempt) (s : System F W)
        → IsReserved base r s.pool
        → Balanced base (confirm sel a r s)
    unfolding confirm
    confirm-Balanced a s h =
        option_cases (Balanced base) s.pool.coordinator _ _
          (λ _. with_credentials-Balanced a none s h)
          (λ c _.
            result_cases (Balanced base) (c.cooldown_until r.account.id s.world).0 _ _
              (λ e. record { counts = roll_back-Steady zero_time _ h })
              (λ cooling.
                option_cases (Balanced base) cooling _ _ (λ _. take_slot-Balanced a c _ h)
                  (λ until _. cooling_down-Balanced a c until _ h)))

module _ {F W : Type 0} where
  pub drop_stale-Balanced :
      (base : String → ℕ) (sel : Selection) (a : Attempt) (stale : String) (s : System F W)
      → Steady base s.pool.states
      → Balanced base (drop_stale sel a stale s)
  unfolding drop_stale
  drop_stale-Balanced base sel a stale s h =
      option_cases (Balanced base) s.pool.coordinator _ _ (λ _. record { counts = h })
        (λ c _.
          if_cases (Balanced base) (a.coordinated == stale) _ _
            (λ _.
              option_cases (Balanced base)
                (c.clear_affinity sel.model.id sel.affinity_key stale s.world).0 _ _
                (λ _. record { counts = h }) (λ e _. record { counts = h }))
            (λ _. record { counts = h }))
