-- ===== src/Accounts/Choose/Sound.antt =====
-- selectLocked as a whole, against the state of the pool that it starts from.
use grok_go.Base.{◌≡◌, ◌⊎◌, String, true, false, Option, none, some, arith, Holds, subst}
use grok_go.Base.Map.{lookup, Distinct}
use grok_go.Base.Float.{Float}
use grok_go.Domain.{Time}
use grok_go.Accounts.Pool.{Pool, RuntimeState, Selection}
use grok_go.Accounts.Select.{Candidate, contains, eligible, scan}
use grok_go.Accounts.Select.Eligible.{
  IsReady, IsCandidate, scan-IsCandidate, scan_complete, lookup-scan, durably_eligible-IsReady,
}
use grok_go.Accounts.Choose.{select}
use grok_go.Accounts.Choose.Best.{choose-Holds, choose_some}

module _ {F W : Type 0} (fl : Float F) (p : Pool F W) (sel : Selection) (now : Time) where
  -- The account that is selected stands in the pool, is not excluded, and is ready to serve; the
  -- pool keeps it as it was tested.
  pub record IsSelected (c : Candidate F) : Type 0 where
    pub candidate : IsCandidate p.policy sel now p.states c
    pub ready : IsReady p.policy c.1 sel.model now
    pub kept : lookup c.0 (select fl p sel now).1.states ≡ some c.1

  pub select-IsCandidate :
      Distinct p.states → Holds (IsCandidate p.policy sel now p.states) (select fl p sel now).0
  unfolding select
  select-IsCandidate d =
      choose-Holds fl (IsCandidate p.policy sel now p.states) p.policy sel now p.affinities
        p.round_robin (scan p.policy sel now p.states).1
        (scan-IsCandidate p.policy sel now p.states d)

  IsCandidate-IsSelected :
      (c : Candidate F) → IsCandidate p.policy sel now p.states c → IsSelected c
  unfolding select
  IsCandidate-IsSelected c h = record {
    candidate = h;
    ready =
        subst (λ s. IsReady p.policy s sel.model now) h.result
          (durably_eligible-IsReady p.policy h.before sel.model now h.passes);
    kept = ground (arith, lookup-scan p.policy sel now c.0 p.states, h.found, h.included, h.result);
  }

  -- Whatever the strategy, an account that is selected is one of the pool, not excluded and ready.
  pub select-IsSelected : Distinct p.states → Holds IsSelected (select fl p sel now).0
  select-IsSelected d = ready_of (select fl p sel now).0 (select-IsCandidate d)
    where
      ready_of :
          (o : Option (Candidate F))
          → Holds (IsCandidate p.policy sel now p.states) o
          → Holds IsSelected o
      ready_of none h = tt
      ready_of (some c) h = IsCandidate-IsSelected c h

  -- The selection fails only where every account is excluded or fails the tests.
  pub select-none :
      (id : String) (s : RuntimeState F)
      → (select fl p sel now).0 ≡ none
      → lookup id p.states ≡ some s
      → (contains sel.exclude_ids id ≡ true) ⊎ ((eligible p.policy s sel.model now).1 ≡ false)
  unfolding select
  select-none id s h found =
      scan_complete p.policy sel now p.states id s
        (choose_some fl p.policy sel now p.affinities p.round_robin _ h) found
