-- ===== src/Accounts/Reserve/Steady.antt =====
-- The inflight counters of the pool through the locked steps of Acquire.
use grok_go.Base.{
  ◌&&◌, ◌⊎◌, Bool-cases, ℕ, ◌+◌, ◌≡◌, refl, String, Bool, Option, none, some, [], ◌∷◌, ◌==◌, eq_iff,
  eq_refl, arith, if◌then◌else◌, Option-cases, inl, inr,
}
use grok_go.Base.Map.{Map, lookup, insert, Distinct, lookup-insert, insert-Distinct}
use grok_go.Accounts.Affinity.{affinity_key}
use grok_go.Domain.{after, Time}
use grok_go.Accounts.Pool.{Pool, RuntimeState, Selection, AffinityEntry}
use grok_go.Accounts.Policy.{Policy}
use grok_go.Accounts.Select.{scan, durably_eligible, revive}
use grok_go.Accounts.Select.Eligible.{lookup-scan, eligible-IsKept}
use grok_go.Accounts.Reload.Kept.{inflight_at, IsKeyed}
use grok_go.Accounts.Reserve.{
  Attempt, reserved, rolled_back, reserve, rollback, refresh_bindings, find_binding, examine,
}

-- One request more on one account.
abbrev pub bumped : (String → ℕ) → String → String → ℕ
bumped base id j = if id == j then base j + 1 else base j

module _ {F : Type 0} where
  -- The map has one state for an account, under its id, with the counters `base`.
  pub record Steady (base : String → ℕ) (m : Map (RuntimeState F)) : Type 0 where
    pub distinct : Distinct m
    pub keyed : IsKeyed m
    pub counts : (id : String) → inflight_at id m ≡ base id

  pub insert-Steady :
      (base base' : String → ℕ) (id : String) (t : RuntimeState F) (m : Map (RuntimeState F))
      → Steady base m
      → t.account.id ≡ id
      → ((j : String) → base' j ≡ (if id == j then t.inflight else base j))
      → Steady base' (insert id t m)
  insert-Steady base base' id t m h same counts = record {
    distinct = insert-Distinct id t m h.distinct;
    keyed = record {
      at_key = λ j s found. ground (arith, lookup-insert id j t m, eq_iff id j, h.keyed.at_key j s);
    };
    counts = λ j. ground (arith, lookup-insert id j t m, counts j, h.counts j);
  }

  scan-Distinct :
      (policy : Policy) (sel : Selection) (now : Time) (m : Map (RuntimeState F))
      → Distinct m
      → Distinct (scan policy sel now m).0
  unfolding scan lookup
  scan-Distinct policy sel now [] d = tt
  scan-Distinct policy sel now ((j, s) ∷ m) d =
      ground (arith, lookup-scan policy sel now j m, scan-Distinct policy sel now m d.1)

  pub scan-Steady :
      (policy : Policy) (sel : Selection) (now : Time) (base : String → ℕ)
      (m : Map (RuntimeState F))
      → Steady base m
      → Steady base (scan policy sel now m).0
  scan-Steady policy sel now base m h = record {
    distinct = scan-Distinct policy sel now m h.distinct;
    keyed = record { at_key = λ j s found. scanned_key j s found (lookup j m) refl };
    counts = λ j. scanned_count j (lookup j m) refl;
  }
    where
      scanned_key :
          (j : String) (s : RuntimeState F)
          → lookup j (scan policy sel now m).0 ≡ some s
          → (o : Option (RuntimeState F)) → lookup j m ≡ o
          → s.account.id ≡ j
      scanned_key j s found none e = ground (arith, lookup-scan policy sel now j m)
      scanned_key j s found (some t) e =
          let kept = eligible-IsKept policy t sel.model now in
          ground (arith, lookup-scan policy sel now j m, kept.same_id, h.keyed.at_key j t e)

      scanned_count :
          (j : String) (o : Option (RuntimeState F))
          → lookup j m ≡ o
          → inflight_at j (scan policy sel now m).0 ≡ base j
      scanned_count j none e = ground (arith, lookup-scan policy sel now j m, h.counts j)
      scanned_count j (some t) e =
          let kept = eligible-IsKept policy t sel.model now in
          ground (arith, lookup-scan policy sel now j m, kept.same_inflight, h.counts j)

module _ {F W : Type 0} where
  pub reserve-Steady :
      (base : String → ℕ) (id : String) (s : RuntimeState F) (now : Time) (p : Pool F W)
      → Steady base p.states
      → lookup id p.states ≡ some s
      → Steady (bumped base id) (reserve id s now p).states
  unfolding reserve
  reserve-Steady base id s now p h found =
      insert-Steady base (bumped base id) id (reserved s now) p.states h (h.keyed.at_key id s found)
        (λ j. ground (arith, h.counts id, eq_iff id j))

  pub rollback-Steady :
      (base : String → ℕ) (id : String) (until : Time) (p : Pool F W)
      → Steady (bumped base id) p.states
      → Steady base (rollback id until p).states
  unfolding rollback
  rollback-Steady base id until p h = elim (Option-cases (lookup id p.states)) [
    | inl e ↦ absurd (ground (arith, h.counts id, eq_refl id))
    | inr (s, e) ↦
        rw (e, rollback)
          (insert-Steady (bumped base id) base id (rolled_back s until) p.states h
            (h.keyed.at_key id s e) (λ j. ground (arith, h.counts id, eq_refl id, eq_iff id j)))
  ]

  states-refresh_bindings :
      (checked : Bool) (sel : Selection) (a : Attempt) (now : Time) (p : Pool F W)
      → (refresh_bindings checked sel a now p).states ≡ p.states
  unfolding refresh_bindings
  states-refresh_bindings checked sel a now p = refl

  -- Testing one account for its binding.
  test-Steady :
      (base : String → ℕ) (id : String) (s : RuntimeState F) (sel : Selection) (now : Time)
      (p : Pool F W)
      → Steady base p.states
      → lookup id p.states ≡ some s
      → Steady base (insert id (durably_eligible p.policy s sel.model now).0 p.states)
  unfolding durably_eligible revive
  test-Steady base id s sel now p h found =
      insert-Steady base base id (durably_eligible p.policy s sel.model now).0 p.states h
        (ground (arith, h.keyed.at_key id s found)) (λ j. ground (arith, h.counts id, eq_iff id j))

  states-examine_missing :
      (sel : Selection) (a : Attempt) (now : Time) (entry : AffinityEntry) (p : Pool F W)
      → lookup entry.account_id p.states ≡ none
      → (examine sel a now entry p).1.states ≡ p.states
  unfolding examine
  states-examine_missing sel a now entry p e = ground (arith, e)

  states-examine :
      (sel : Selection) (a : Attempt) (now : Time) (entry : AffinityEntry) (p : Pool F W)
      (s : RuntimeState F)
      → lookup entry.account_id p.states ≡ some s
      → (examine sel a now entry p).1.states
        ≡ insert entry.account_id (durably_eligible p.policy s sel.model now).0 p.states
  unfolding examine
  states-examine sel a now entry p s e = ground (arith, e)

  module _ (base : String → ℕ) (sel : Selection) (a : Attempt) (now : Time) (p : Pool F W)
      (h : Steady base p.states) where
    examine-Steady : (entry : AffinityEntry) → Steady base (examine sel a now entry p).1.states
    examine-Steady entry = elim (Option-cases (lookup entry.account_id p.states)) [
      | inl e ↦ rw (states-examine_missing sel a now entry p e) h
      | inr (s, e) ↦
          rw (states-examine sel a now entry p s e)
            (test-Steady base entry.account_id s sel now p h e)
    ]

    find_binding_cases :
        (useful : Bool)
        → ((find_binding useful sel a now p).1.states ≡ p.states)
          ⊎ ((entry : AffinityEntry) × ((find_binding useful sel a now p).1.states
                ≡ (examine sel a now entry p).1.states))
    unfolding find_binding
    find_binding_cases useful =
        elim (Option-cases (lookup (affinity_key sel.model.id sel.affinity_key) p.affinities)) [
          | inl e ↦ inl (ground (arith, e))
          | inr (entry, e) ↦ elim (Bool-cases (useful && after entry.expires_at now)) [
            | inl live ↦ inr (entry, ground (arith, e))
            | inr dead ↦ inl (ground (arith, e))
          ]
        ]

    pub find_binding-Steady :
        (useful : Bool) → Steady base (find_binding useful sel a now p).1.states
    find_binding-Steady useful = elim (find_binding_cases useful) [
      | inl e ↦ rw e h
      | inr (entry, e) ↦ rw e (examine-Steady entry)
    ]

  pub refresh_bindings-Steady :
      (base : String → ℕ) (checked : Bool) (sel : Selection) (a : Attempt) (now : Time)
      (p : Pool F W)
      → Steady base p.states
      → Steady base (refresh_bindings checked sel a now p).states
  refresh_bindings-Steady base checked sel a now p h =
      rw (states-refresh_bindings checked sel a now p) h
