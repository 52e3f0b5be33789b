-- ===== src/Accounts/Settle/Counters.antt =====
-- What the end of a request does to the inflight counters, and what is persisted of its account.
use grok_go.Base.{
  ◌∙◌, eq_refl, ◌-◌, ◌≡◌, refl, String, Bool, true, some, ◌==◌, eq_iff, arith, if◌then◌else◌,
  Option-cases, inl, inr,
}
use grok_go.Base.Map.{lookup, insert, lookup-insert}
use grok_go.Base.Float.{Float}
use grok_go.Domain.{Time, Account}
use grok_go.Accounts.Pool.{Pool, RuntimeState, Lease, Feedback}
use grok_go.Accounts.Reload.Kept.{inflight_at}
use grok_go.Accounts.Feedback.{Outcome}
use grok_go.Accounts.Settle.{
  settle, settle_found, settle_known, settle_missing, pool_after, settled_state, settled_account,
  outcome_of, end_request, clear_binding, is_unavailable,
}

module _ {F W : Type 0} where
  pub states-clear_binding :
      (clear : Bool) (lease : Lease F) (p : Pool F W)
      → (clear_binding clear lease p).states ≡ p.states
  unfolding clear_binding
  states-clear_binding clear lease p = ground arith

module _ {F : Type 0} where
  pub end_request-inflight : (s : RuntimeState F) → (end_request s).inflight ≡ s.inflight - 1
  unfolding end_request
  end_request-inflight s = ground arith

module _ {F W : Type 0} (fl : Float F) (p : Pool F W) (now : Time) (lease : Lease F)
    (f : Feedback) where
  pub settle_known-states :
      (s : RuntimeState F)
      → (settle_known fl p now s lease f).pool.states
        ≡ insert lease.account.id
            (settled_state s now (outcome_of fl p.policy now s lease f))
            p.states
  unfolding settle_known
  settle_known-states s = states-clear_binding _ lease _

  pub settled_state-inflight :
      (s : RuntimeState F)
      → (settled_state s now (outcome_of fl p.policy now s lease f)).inflight ≡ s.inflight
  unfolding settled_state
  settled_state-inflight s = refl

  settle_found-inflight :
      (before : RuntimeState F) (id : String)
      → inflight_at id (pool_after (settle_found fl p now before lease f)).states
        ≡ (if lease.account.id == id then before.inflight - 1 else inflight_at id p.states)
  unfolding settle_found
  settle_found-inflight before id =
      let s : RuntimeState F = end_request before in
      ground (
        arith,
        settle_known-states s,
        settled_state-inflight s,
        end_request-inflight before,
        lookup-insert lease.account.id id
            (settled_state s now (outcome_of fl p.policy now s lease f)) p.states,
        lookup-insert lease.account.id id s p.states,
        states-clear_binding (is_unavailable p.policy s now) lease
            (record p { states = insert lease.account.id s p.states }),
      )

  -- On every branch the leased account has one request less under way, and no counter below zero;
  -- the counters of the other accounts stay.
  pub settle-inflight :
      (id : String)
      → inflight_at id (pool_after (settle fl p now lease f)).states
        ≡ (if lease.account.id == id then inflight_at id p.states - 1 else inflight_at id p.states)
  unfolding settle settle_missing
  settle-inflight id = elim (Option-cases (lookup lease.account.id p.states)) [
    | inl gone ↦ ground (arith, gone, states-clear_binding true lease p, eq_iff lease.account.id id)
    | inr (before, found) ↦
        ground (arith, found, settle_found-inflight before id, eq_iff lease.account.id id)
  ]

  persisted_account :
      (s : RuntimeState F) (a : Account F)
      → (settle_known fl p now s lease f).to_update ≡ some a
      → settled_account (outcome_of fl p.policy now s lease f) ≡ a
  unfolding settle_known
  persisted_account s a h = ground arith

  settled_state-account :
      (s : RuntimeState F) (o : Outcome F) → (settled_state s now o).account ≡ settled_account o
  unfolding settled_state
  settled_state-account s o = refl

  settled_account-agrees :
      (s : RuntimeState F) (o : Outcome F)
      → ((settled_account o).health_score ≡ (settled_state s now o).health)
        × ((settled_account o).failure_count ≡ (settled_state s now o).failures)
  unfolding settled_state settled_account
  settled_account-agrees s o = (refl, refl)

  -- Where an account is handed to the store, it is the account that the pool then holds, with its
  -- health score and its failure count.
  pub settle_persists :
      (s : RuntimeState F) (a : Account F)
      → (settle_known fl p now s lease f).to_update ≡ some a
      → (t : RuntimeState F) × (lookup lease.account.id
            (settle_known fl p now s lease f).pool.states
          ≡ some t)
        × (t.account ≡ a)
        × (a.health_score ≡ t.health)
        × (a.failure_count ≡ t.failures)
  settle_persists s a h =
      let o : Outcome F = outcome_of fl p.policy now s lease f in
      let e : settled_account o ≡ a = persisted_account s a h in
      (
        settled_state s now o,
        rw (settle_known-states s, lookup-insert, eq_refl),
        settled_state-account s o ∙ e,
        rw (← e) (settled_account-agrees s o).0,
        rw (← e) (settled_account-agrees s o).1,
      )
