-- ===== src/Accounts/Settle/Steady.antt =====
-- The end of a request keeps the invariant of the pool's map.
use grok_go.Accounts.Settle.Counters.{
  end_request-inflight, settle_known-states, settled_state-inflight, states-clear_binding,
}
use grok_go.Base.{
  option_cases, if_cases, true, ℕ, ◌-◌, ◌≡◌, String, ◌==◌, some, arith, eq_iff, if◌then◌else◌, refl,
  ◌∙◌, option_cases,
}
use grok_go.Base.Float.{Float}
use grok_go.Base.Map.{lookup, insert}
use grok_go.Domain.{Account, Time}
use grok_go.Accounts.Policy.{Policy}
use grok_go.Accounts.Pool.{Feedback, Lease, Pool, RuntimeState}
use grok_go.Accounts.Feedback.{
  Outcome, Verdict, decide, terminal_change, rate_limited, permanent_failure, quota_spent,
  late_success, success, client_cancel, transient_failure, neutral,
}
use grok_go.Accounts.Reserve.Steady.{Steady, insert-Steady}
use grok_go.Accounts.Settle.{
  Settlement, end_request, observed, outcome_of, pool_after, settle, settle_found, settle_missing,
  settled_account, settled_state, credentials_changed, is_unavailable,
}

module _ {F : Type 0} (fl : Float F) where
  id-decide :
      (policy : Policy) (now : Time) (s : RuntimeState F) (a : Account F) (f : Feedback)
      (o : Outcome F) (v : Verdict)
      → o.account.id ≡ a.id
      → (decide fl policy now s a f o v).account.id ≡ a.id
  unfolding decide
  id-decide policy now s a f o terminal_change h = h
  id-decide policy now s a f o rate_limited h = refl
  id-decide policy now s a f o permanent_failure h = refl
  id-decide policy now s a f o (quota_spent t) h = refl
  id-decide policy now s a f o late_success h = h
  id-decide policy now s a f o success h = refl
  id-decide policy now s a f o client_cancel h = h
  id-decide policy now s a f o transient_failure h = refl
  id-decide policy now s a f o neutral h = h

  id-observed :
      (s : RuntimeState F) (now : Time) (f : Feedback)
      → (observed fl s now f).account.id ≡ s.account.id
  unfolding observed
  id-observed s now f = ground arith

  id-settled :
      (policy : Policy) (now : Time) (s : RuntimeState F) (lease : Lease F) (f : Feedback)
      → (settled_state s now (outcome_of fl policy now s lease f)).account.id ≡ s.account.id
  unfolding settled_state settled_account outcome_of
  id-settled policy now s lease f =
      id-decide policy now s (observed fl s now f).account f (observed fl s now f) _ refl
      ∙ id-observed s now f

module _ {F W : Type 0} (fl : Float F) (p : Pool F W) (now : Time) (lease : Lease F)
    (f : Feedback) where
  -- One request less on the leased account.
  abbrev pub ended : (String → ℕ) → String → ℕ
  ended base j = if lease.account.id == j then base j - 1 else base j

  record IsEnded (base : String → ℕ) (t : Settlement F W) : Type 0 where
    steady : Steady (ended base) (pool_after t).states

  module _ (base : String → ℕ) (before : RuntimeState F) (h : Steady base p.states)
      (found : lookup lease.account.id p.states ≡ some before) where
    insert-ended :
        (t : RuntimeState F)
        → t.account.id ≡ before.account.id
        → t.inflight ≡ before.inflight - 1
        → Steady (ended base) (insert lease.account.id t p.states)
    insert-ended t same fewer =
        insert-Steady base (ended base) lease.account.id t p.states h
          (same ∙ h.keyed.at_key lease.account.id before found)
          (λ j. ground (arith, fewer, found, h.counts lease.account.id, eq_iff lease.account.id j))

    settle_found-IsEnded : IsEnded base (settle_found fl p now before lease f)
    unfolding settle_found end_request
    settle_found-IsEnded =
        let s : RuntimeState F = end_request before in
        if_cases (IsEnded base) (credentials_changed s.account lease.account) _ _
          (λ _. record {
            steady =
                rw
                  (states-clear_binding (is_unavailable p.policy s now) lease
                    (record p { states = insert lease.account.id s p.states }))
                  (insert-ended s refl (end_request-inflight before));
          })
          (λ _. record {
            steady = rw (settle_known-states fl p now lease f s) (
                insert-ended (settled_state s now (outcome_of fl p.policy now s lease f))
                  (id-settled fl p.policy now s lease f)
                  (settled_state-inflight fl p now lease f s ∙ end_request-inflight before));
          })

  settle-IsEnded :
      (base : String → ℕ) → Steady base p.states → IsEnded base (settle fl p now lease f)
  unfolding settle settle_missing
  settle-IsEnded base h =
      option_cases (IsEnded base) (lookup lease.account.id p.states) _ _
        (λ e. record {
          steady = record {
            distinct = rw (states-clear_binding true lease p) h.distinct;
            keyed = rw (states-clear_binding true lease p) h.keyed;
            counts = λ j.
                rw (states-clear_binding true lease p)
                  (ground (arith, e, h.counts j, eq_iff lease.account.id j));
          };
        })
        (λ before e. settle_found-IsEnded base before h e)

  -- Whatever the request reports, the pool keeps one state for an account, under its id, and
  -- exactly the leased account has one request less, down to none.
  pub settle-Steady :
      (base : String → ℕ)
      → Steady base p.states
      → Steady (ended base) (pool_after (settle fl p now lease f)).states
  settle-Steady base h = (settle-IsEnded base h).steady
