-- ===== src/Accounts/Release/Returns.antt =====
-- What a release does for the peers, on each of its paths.
use grok_go.Base.{
  subst, ◌≡◌, refl, ◌∙◌, ◌&&◌, not, String, Bool, Option, none, some, Option-cases, inl, inr, arith,
}
use grok_go.Base.Float.{Float}
use grok_go.Base.Result.{Error}
use grok_go.Domain.{Account, Time, after, is_zero}
use grok_go.Accounts.Pool.{System, Pool, Lease, Feedback, Coordinator}
use grok_go.Accounts.Reload.{reload, reconcile}
use grok_go.Accounts.Settle.{
  settle, settle_found, settle_known, settle_missing, clear_binding, replaced, finished, Settlement,
  pool_after, is_unavailable, coordinated_until,
}
use grok_go.Accounts.Release.{
  Effect, ◌also◌, coordinate, set_cooldown, clear_affinity, return_lease, notify, persist_account,
  finish, finish_replaced, release, Handle, release_once,
}

module _ {F W : Type 0} where
  -- An effect keeps the coordinator.
  record KeepsCoordinator (m : Effect F W) : Type 0 where
    keeps : (s : System F W) → (m s).1.pool.coordinator ≡ s.pool.coordinator

  coordinate_keeps :
      (call : Coordinator W → W → Option Error × W) → KeepsCoordinator (coordinate call)
  unfolding coordinate
  coordinate_keeps call = record { keeps = λ s. ground arith }

  set_cooldown_keeps :
      (wanted : Bool) (id : String) (until : Time) → KeepsCoordinator (set_cooldown wanted id until)
  unfolding set_cooldown coordinate
  set_cooldown_keeps wanted id until = record { keeps = λ s. ground arith }

  clear_affinity_keeps :
      (wanted : Bool) (lease : Lease F) → KeepsCoordinator (clear_affinity wanted lease)
  unfolding clear_affinity coordinate
  clear_affinity_keeps wanted lease = record { keeps = λ s. ground arith }

  also_keeps :
      (m n : Effect F W) → KeepsCoordinator m → KeepsCoordinator n → KeepsCoordinator (m also n)
  also_keeps m n h k = record { keeps = λ s. k.keeps (m s).1 ∙ h.keeps s }

  -- The last call of an effect that began with the coordinator `c` returns the lease's slot to it.
  pub record ReturnsSlot (lease : Lease F) (c : Option (Coordinator W)) (after : System F W)
      : Type 0 where
    pub before : System F W
    pub last : after ≡ (return_lease lease.coordination before).1
    pub same : before.pool.coordinator ≡ c

  last_returns :
      (m : Effect F W) (lease : Lease F) (s : System F W)
      → KeepsCoordinator m
      → ReturnsSlot lease s.pool.coordinator ((m also return_lease lease.coordination) s).1
  last_returns m lease s h = record { before = (m s).1; last = refl; same = h.keeps s }

module _ {F W : Type 0} (fl : Float F) where
  persist_account_keeps :
      (cancelled : Option Error) (publish : Bool) (a : Option (Account F))
      → KeepsCoordinator {W = W} (persist_account fl cancelled publish a)
  unfolding persist_account notify reload reconcile
  persist_account_keeps cancelled publish none = record { keeps = λ s. refl }
  persist_account_keeps none publish (some a) = record { keeps = λ s. ground arith }
  persist_account_keeps (some e) publish (some a) = record { keeps = λ s. ground arith }

  settle_keeps :
      (p : Pool F W) (now : Time) (lease : Lease F) (f : Feedback)
      → (pool_after (settle fl p now lease f)).coordinator ≡ p.coordinator
  unfolding settle settle_found settle_known settle_missing clear_binding
  settle_keeps p now lease f = ground arith

  -- A release ends by giving the coordinated slot back to the coordinator that the pool had, on
  -- every path and whichever of the calls before it fail.
  pub release-ReturnsSlot :
      (cancelled : Option Error) (lease : Lease F) (f : Feedback) (sys : System F W)
      → ReturnsSlot lease sys.pool.coordinator (release fl cancelled lease f sys).1
  unfolding release finish finish_replaced
  release-ReturnsSlot cancelled lease f sys =
      ends (settle fl sys.pool (sys.pool.now sys.world).0 lease f)
        (settle_keeps sys.pool (sys.pool.now sys.world).0 lease f)
    where
      ends :
          (t : Settlement F W)
          → (pool_after t).coordinator ≡ sys.pool.coordinator
          → ReturnsSlot lease sys.pool.coordinator
              (elim t as (λ k. Option Error × System F W) [
                | replaced s p ↦
                    finish_replaced fl p.policy
                      (sys.pool.now sys.world).0
                      s
                      lease
                      (record { pool = p; world = (sys.pool.now sys.world).1 })
                | finished t ↦
                    finish fl cancelled lease t
                      (record { pool = t.pool; world = (sys.pool.now sys.world).1 })
              ]).1
      ends (replaced s p) e =
          let now = (sys.pool.now sys.world).0 in
          let q : System F W = record { pool = p; world = (sys.pool.now sys.world).1 } in
          let unavailable = is_unavailable p.policy s now in
          let until = coordinated_until p.policy s now in
          let wanted = unavailable && after until now in
          subst (λ c. ReturnsSlot lease c (finish_replaced fl p.policy now s lease q).1) e
            (last_returns
              (set_cooldown wanted lease.account.id until also clear_affinity unavailable lease)
              lease q
              (also_keeps (set_cooldown wanted lease.account.id until)
                (clear_affinity unavailable lease)
                (set_cooldown_keeps wanted lease.account.id until)
                (clear_affinity_keeps unavailable lease)))
      ends (finished t) e =
          let q : System F W = record { pool = t.pool; world = (sys.pool.now sys.world).1 } in
          let wanted = not (is_zero t.cooldown_until) in
          let cool = set_cooldown wanted lease.account.id t.cooldown_until in
          let unbind = clear_affinity t.invalidate_affinity lease in
          let persist = persist_account fl cancelled t.publish_change t.to_update in
          subst (λ c. ReturnsSlot lease c (finish fl cancelled lease t q).1) e
            (last_returns (cool also unbind also persist) lease q (
              also_keeps (cool also unbind) persist
                (also_keeps cool unbind
                  (set_cooldown_keeps wanted lease.account.id t.cooldown_until)
                  (clear_affinity_keeps t.invalidate_affinity lease))
                (persist_account_keeps cancelled t.publish_change t.to_update)))

-- The first release fixes what the later ones answer: they change neither the pool nor the world.
pub release_once_again :
    {F W : Type 0} (fl : Float F) (cancelled : Option Error) (h : Handle F) (f : Feedback)
    (sys : System F W) (cancelled' : Option Error) (f' : Feedback) (later : System F W)
    → let first = release_once fl cancelled h f sys in
      release_once fl cancelled' first.1 f' later ≡ (first.0, first.1, later)
unfolding release_once
release_once_again fl cancelled h f sys cancelled' f' later = elim (Option-cases h.released) [
  | inl e ↦ ground (arith, e)
  | inr (r, e) ↦ ground (arith, e)
]
