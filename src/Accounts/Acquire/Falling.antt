-- ===== src/Accounts/Acquire/Falling.antt =====
-- The part of a round of Acquire that runs without the lock: it ends Acquire or excludes an
-- account.
use grok_go.Base.{
  ℕ, ◌+◌, ◌≤◌, ◌<◌, ◌≡◌, String, false, not, ◌&&◌, Option, none, some, ◌∷◌, ◌==◌, arith,
  if◌then◌else◌, is_some, List, Option-cases, inl, inr, if_cases, option_cases,
}
use grok_go.Base.Map.{lookup}
use grok_go.Base.Result.{Error, Result, result_cases, wrap}
use grok_go.Domain.{Time, Credentials, zero_time}
use grok_go.Accounts.Affinity.{affinity_key}
use grok_go.Accounts.Pool.{
  Pool, RuntimeState, Selection, System, Coordinator, CoordinationLease, Lease,
}
use grok_go.Accounts.Select.{contains, limit_of}
use grok_go.Accounts.Reserve.{Attempt, rollback}
use grok_go.Accounts.Confirm.{
  Step, done, again, Reservation, fail, bind, unbind_then_bind, with_credentials, cooling_down,
  take_slot, confirm, roll_back,
}
use grok_go.Accounts.Acquire.Progress.{free, free-insert, free_exclude}

module _ {F W : Type 0} where
  -- A binding that a round may find stale and drop.
  unfoldable pub pending : Selection → Attempt → Pool F W → ℕ
  pending sel a p = elim p.coordinator [
    | none ↦
        if is_some (lookup (affinity_key sel.model.id sel.affinity_key) p.affinities) then 1 else 0
    | some c ↦ if a.coordinated == "" then 0 else 1
  ]

  -- More rounds than this are never run.
  unfoldable pub potential : Selection → Attempt → Pool F W → ℕ
  potential sel a p = free a.excluded p.states + pending sel a p

  abbrev pub Falls : Selection → ℕ → Step F W → Type 0
  Falls sel n (done r s) = Unit
  Falls sel n (again a s) = potential sel a s.pool < n

  pub record Falling (sel : Selection) (n : ℕ) (x : Step F W) : Type 0 where
    pub falls : Falls sel n x

  coordinator-rollback :
      (id : String) (until : Time) (p : Pool F W)
      → (rollback id until p).coordinator ≡ p.coordinator
  unfolding rollback
  coordinator-rollback id until p = ground arith

  free-rollback :
      (xs : List String) (id : String) (until : Time) (p : Pool F W)
      → free xs (rollback id until p).states ≡ free xs p.states
  unfolding rollback
  free-rollback xs id until p = elim (Option-cases (lookup id p.states)) [
    | inl e ↦ ground (arith, e)
    | inr (s, e) ↦ rw (e, rollback) (free-insert xs id _ s p.states e)
  ]

module _ {F W : Type 0} (sel : Selection) (n : ℕ) where
  done-Falling : (r : Result (Lease F)) (s : System F W) → Falling sel n (done r s)
  done-Falling r s = record { falls = tt }

  module _ (r : Reservation F) where
    fail-Falling :
        (l : Option CoordinationLease) (wrapped : Error → Error) (e : Error) (s : System F W)
        → Falling sel n (fail r l wrapped e s)
    unfolding fail
    fail-Falling l wrapped e s = record { falls = ground arith }

    bind-Falling :
        (c : Credentials) (l : Option CoordinationLease) (s : System F W)
        → Falling sel n (bind sel r c l s)
    unfolding bind fail
    bind-Falling c l s = record { falls = ground arith }

    unbind_then_bind-Falling :
        (a : Attempt) (c : Credentials) (l : Option CoordinationLease) (s : System F W)
        → Falling sel n (unbind_then_bind sel a r c l s)
    unfolding unbind_then_bind
    unbind_then_bind-Falling a c l s =
        option_cases (Falling sel n) s.pool.coordinator _ _ (λ _. bind-Falling c l s)
          (λ k _.
            if_cases (Falling sel n)
              (not (a.coordinated == "") && not (r.account.id == a.coordinated) && not r.preserve) _
              _
              (λ _.
                option_cases (Falling sel n)
                  (k.clear_affinity sel.model.id sel.affinity_key a.coordinated s.world).0 _ _
                  (λ _. bind-Falling c l _)
                  (λ e _. fail-Falling l (λ x. wrap "clear stale account affinity" x) e _))
              (λ _. bind-Falling c l s))

    with_credentials-Falling :
        (a : Attempt) (l : Option CoordinationLease) (s : System F W)
        → Falling sel n (with_credentials sel a r l s)
    unfolding with_credentials
    with_credentials-Falling a l s =
        result_cases (Falling sel n) (s.pool.store.credentials r.account.id s.world).0 _ _
          (λ e. fail-Falling l (λ x. x) e _) (λ c. unbind_then_bind-Falling a c l _)

    -- The account of the reservation has not been excluded, and the budget covers what is left.
    pub record IsTaken (a : Attempt) (p : Pool F W) : Type 0 where
      pub new : contains a.excluded r.account.id ≡ false
      pub state : RuntimeState F
      pub found : lookup r.account.id p.states ≡ some state
      pub budget : (c : Coordinator W) → p.coordinator ≡ some c → potential sel a p ≤ n

    cooling_down-Falling :
        (a : Attempt) (c : Coordinator W) (until : Time) (s : System F W)
        → IsTaken a s.pool
        → s.pool.coordinator ≡ some c
        → Falling sel n (cooling_down sel a r c until s)
    unfolding cooling_down roll_back potential pending
    cooling_down-Falling a c until s h e = record {
      falls = ground (
        arith,
        h.budget c e,
        e,
        coordinator-rollback r.account.id until s.pool,
        free-rollback (r.account.id ∷ a.excluded) r.account.id until s.pool,
        free_exclude a.excluded r.account.id h.state s.pool.states h.new h.found,
      );
    }

    take_slot-Falling :
        (a : Attempt) (c : Coordinator W) (s : System F W)
        → IsTaken a s.pool
        → s.pool.coordinator ≡ some c
        → Falling sel n (take_slot sel a r c s)
    unfolding take_slot roll_back potential pending
    take_slot-Falling a c s h e =
        result_cases (Falling sel n)
          (c.acquire_lease r.account.id (limit_of s.pool.policy r.account) s.pool.policy.lease_ttl
            s.world).0
          _ _ (λ e'. record { falls = tt })
          (λ taken.
            option_cases (Falling sel n) taken _ _
              (λ _. record {
                falls = ground (
                  arith,
                  h.budget c e,
                  e,
                  coordinator-rollback r.account.id zero_time s.pool,
                  free-rollback (r.account.id ∷ a.excluded) r.account.id zero_time s.pool,
                  free_exclude a.excluded r.account.id h.state s.pool.states h.new h.found,
                );
              })
              (λ l _. with_credentials-Falling a (some l) (record s {
                world =
                    (c.acquire_lease r.account.id (limit_of s.pool.policy r.account)
                      s.pool.policy.lease_ttl s.world).1;
              })))

    pub confirm-Falling :
        (a : Attempt) (s : System F W) → IsTaken a s.pool → Falling sel n (confirm sel a r s)
    unfolding confirm
    confirm-Falling a s h =
        option_cases (Falling sel n) s.pool.coordinator _ _ (λ _. with_credentials-Falling a none s)
          (λ c e.
            result_cases (Falling sel n) (c.cooldown_until r.account.id s.world).0 _ _
              (λ e'. record { falls = tt })
              (λ cooling.
                option_cases (Falling sel n) cooling _ _
                  (λ _.
                    take_slot-Falling a c
                      (record s { world = (c.cooldown_until r.account.id s.world).1 }) h e)
                  (λ until _.
                    cooling_down-Falling a c until
                      (record s { world = (c.cooldown_until r.account.id s.world).1 }) h e)))
