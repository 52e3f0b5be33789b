-- ===== src/Accounts/Select/Eligible.antt =====
-- What an account that may serve a model is like, and what scanning the pool finds.
use grok_go.Base.{
  ◌≤◌, ◌≡◌, ◌⊎◌, inl, inr, refl, String, true, false, Option, none, some, List, [], ◌∷◌, arith,
  eq_iff, All, if◌then◌else◌, Bool-cases, eq_refl,
}
use grok_go.Base.Int.{pos, ◌<ℤ◌}
use grok_go.Base.Map.{Map, lookup, Distinct}
use grok_go.Domain.{Time, ModelSpec, active}
use grok_go.Accounts.Policy.{Policy, cooldown_of}
use grok_go.Accounts.Quota.{quota_unavailable_until}
use grok_go.Accounts.Pool.{RuntimeState, Selection}
use grok_go.Accounts.Select.{
  Candidate, contains, contains_kind, limit_of, revive, durably_eligible, eligible, scan,
}

module _ {F : Type 0} where
  -- An account that may be chosen: active, out of its cooldown, of a credential kind of the model,
  -- with quota left and with a free slot.
  pub record IsReady (policy : Policy) (s : RuntimeState F) (model : ModelSpec) (now : Time)
      : Type 0 where
    pub is_active : s.account.status ≡ active
    pub rested : s.cooldown_till ≤ now
    pub kind : contains_kind model.credential_kinds s.account.kind ≡ true
    pub quota :
        quota_unavailable_until s.account.quota now (cooldown_of policy s.account.kind) ≤ now
    pub slot : pos s.inflight <ℤ limit_of policy s.account

  pub durably_eligible-IsReady :
      (policy : Policy) (s : RuntimeState F) (model : ModelSpec) (now : Time)
      → (eligible policy s model now).1 ≡ true
      → IsReady policy (eligible policy s model now).0 model now
  unfolding eligible durably_eligible
  durably_eligible-IsReady policy s model now h = record {
    is_active = ground arith;
    rested = ground arith;
    kind = ground arith;
    quota = ground arith;
    slot = ground arith;
  }

  -- Testing an account changes neither its inflight counter nor its cooldown and health.
  pub record IsKept (s t : RuntimeState F) : Type 0 where
    pub same_inflight : t.inflight ≡ s.inflight
    pub same_health : t.health ≡ s.health
    pub same_failures : t.failures ≡ s.failures
    pub same_cooldown : t.cooldown_till ≡ s.cooldown_till
    pub same_id : t.account.id ≡ s.account.id

  pub eligible-IsKept :
      (policy : Policy) (s : RuntimeState F) (model : ModelSpec) (now : Time)
      → IsKept s (eligible policy s model now).0
  unfolding eligible durably_eligible revive
  eligible-IsKept policy s model now = record {
    same_inflight = ground arith;
    same_health = ground arith;
    same_failures = ground arith;
    same_cooldown = ground arith;
    same_id = ground arith;
  }

  -- What a scan leaves of one state.
  abbrev pub tested :
      Policy → Selection → Time → String → Option (RuntimeState F) → Option (RuntimeState F)
  tested policy sel now id none = none
  tested policy sel now id (some s) =
      some (if contains sel.exclude_ids id then s else (eligible policy s sel.model now).0)

  pub lookup-scan :
      (policy : Policy) (sel : Selection) (now : Time) (id : String) (m : Map (RuntimeState F))
      → lookup id (scan policy sel now m).0 ≡ tested policy sel now id (lookup id m)
  unfolding lookup scan
  lookup-scan policy sel now id [] = refl
  lookup-scan policy sel now id ((j, s) ∷ m) =
      ground (arith, eq_iff j id, lookup-scan policy sel now id m)

  -- A candidate is a state of the pool that is not excluded and passes the tests.
  pub record IsCandidate (policy : Policy) (sel : Selection) (now : Time) (m : Map (RuntimeState F))
      (c : Candidate F) : Type 0 where
    pub before : RuntimeState F
    pub found : lookup c.0 m ≡ some before
    pub included : contains sel.exclude_ids c.0 ≡ false
    pub passes : (eligible policy before sel.model now).1 ≡ true
    pub result : (eligible policy before sel.model now).0 ≡ c.1

  IsCandidate-cons :
      (policy : Policy) (sel : Selection) (now : Time) (j : String) (s : RuntimeState F)
      (m : Map (RuntimeState F)) (cs : List (Candidate F))
      → lookup j m ≡ none
      → All (IsCandidate policy sel now m) cs
      → All (IsCandidate policy sel now ((j, s) ∷ m)) cs
  unfolding lookup
  IsCandidate-cons policy sel now j s m [] fresh h = tt
  IsCandidate-cons policy sel now j s m ((i, t) ∷ cs) fresh h = (
    record {
      before = h.0.before;
      found = ground (arith, eq_iff j i, h.0.found);
      included = h.0.included;
      passes = h.0.passes;
      result = h.0.result;
    },
    IsCandidate-cons policy sel now j s m cs fresh h.1,
  )

  pub scan-IsCandidate :
      (policy : Policy) (sel : Selection) (now : Time) (m : Map (RuntimeState F))
      → Distinct m
      → All (IsCandidate policy sel now m) (scan policy sel now m).1
  unfolding lookup scan
  scan-IsCandidate policy sel now [] d = tt
  scan-IsCandidate policy sel now ((j, s) ∷ m) d =
      let rest =
        IsCandidate-cons policy sel now j s m _ d.0 (scan-IsCandidate policy sel now m d.1) in
      elim (Bool-cases (contains sel.exclude_ids j)) [
        | inl out ↦ rw out rest
        | inr kept ↦ elim (Bool-cases (eligible policy s sel.model now).1) [
          | inl fits ↦
              rw (kept, fits)
                (
                  record {
                    before = s;
                    found = simp eq_refl;
                    included = kept;
                    passes = fits;
                    result = refl;
                  },
                  rest,
                )
          | inr unfit ↦ rw (kept, unfit) rest
        ]
      ]

  -- An account that the scan leaves out is excluded or fails the tests.
  pub scan_complete :
      (policy : Policy) (sel : Selection) (now : Time) (m : Map (RuntimeState F)) (id : String)
      (s : RuntimeState F)
      → (scan policy sel now m).1 ≡ []
      → lookup id m ≡ some s
      → (contains sel.exclude_ids id ≡ true) ⊎ ((eligible policy s sel.model now).1 ≡ false)
  unfolding lookup scan
  scan_complete policy sel now [] id s e h = cc
  scan_complete policy sel now ((j, t) ∷ m) id s e h =
      ground (arith, eq_iff j id, scan_complete policy sel now m id s)
