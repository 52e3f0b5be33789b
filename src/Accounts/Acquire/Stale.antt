-- ===== src/Accounts/Acquire/Stale.antt =====
-- The binding that a round finds stale, and what testing the bound account leaves alone.
use grok_go.Base.{
  ◌≡◌, refl, String, Bool, true, false, not, none, some, arith, eq_refl, List, Option-cases, inl,
  inr, if_cases, option_cases, ◌⊎◌,
}
use grok_go.Base.Map.{lookup, delete, lookup-delete}
use grok_go.Domain.{Time, after}
use grok_go.Accounts.Affinity.{affinity_key}
use grok_go.Accounts.Pool.{Pool, Selection, AffinityEntry}
use grok_go.Accounts.Select.{durably_eligible}
use grok_go.Accounts.Reserve.{Attempt, Binding, examine, find_binding}
use grok_go.Accounts.Acquire.Progress.{free, free-insert}

module _ {F W : Type 0} (sel : Selection) (a : Attempt) (now : Time) where
  free-examine :
      (xs : List String) (entry : AffinityEntry) (p : Pool F W)
      → free xs (examine sel a now entry p).1.states ≡ free xs p.states
  unfolding examine
  free-examine xs entry p = elim (Option-cases (lookup entry.account_id p.states)) [
    | inl e ↦ ground (arith, e)
    | inr (s, e) ↦ ground (
      arith,
      e,
      free-insert xs entry.account_id (durably_eligible p.policy s sel.model now).0 s p.states,
    )
  ]

  pub free-find_binding :
      (useful : Bool) (xs : List String) (p : Pool F W)
      → free xs (find_binding useful sel a now p).1.states ≡ free xs p.states
  unfolding find_binding
  free-find_binding useful xs p =
      elim (Option-cases (lookup (affinity_key sel.model.id sel.affinity_key) p.affinities)) [
        | inl e ↦ ground (arith, e)
        | inr (entry, e) ↦ ground (arith, e, free-examine xs entry p)
      ]

  pub coordinator-find_binding :
      (useful : Bool) (p : Pool F W)
      → (find_binding useful sel a now p).1.coordinator ≡ p.coordinator
  unfolding find_binding examine
  coordinator-find_binding useful p = ground arith

  -- What a round finds: no stale binding, or one that stands in the table and is deleted.
  pub record IsDropped (entry : AffinityEntry) (x : Binding × Pool F W) : Type 0 where
    pub named : x.0.stale ≡ entry.account_id
    pub dropped : lookup (affinity_key sel.model.id sel.affinity_key) x.1.affinities ≡ none

  abbrev Examined : AffinityEntry → Binding × Pool F W → Type 0
  Examined entry x = (x.0.stale ≡ "") ⊎ IsDropped entry x

  examine-Examined :
      (entry : AffinityEntry) (p : Pool F W) → Examined entry (examine sel a now entry p)
  unfolding examine
  examine-Examined entry p =
      option_cases (Examined entry) (lookup entry.account_id p.states) _ _
        (λ _. inr (record { named = refl; dropped = deleted }))
        (λ s _.
          if_cases (Examined entry) (not (durably_eligible p.policy s sel.model now).1) _ _
            (λ _. inr (record { named = refl; dropped = deleted })) (λ _. inl refl))
    where
      deleted :
          lookup
            (affinity_key sel.model.id sel.affinity_key)
            (delete (affinity_key sel.model.id sel.affinity_key) p.affinities)
          ≡ none
      deleted =
          let key = affinity_key sel.model.id sel.affinity_key in
          ground (arith, lookup-delete key key p.affinities, eq_refl key)

  pub record IsStale (useful : Bool) (p : Pool F W) : Type 0 where
    pub entry : AffinityEntry
    pub bound : lookup (affinity_key sel.model.id sel.affinity_key) p.affinities ≡ some entry
    pub asked : useful ≡ true
    pub settled : IsDropped entry (find_binding useful sel a now p)

  pub find_binding-IsStale :
      (useful : Bool) (p : Pool F W)
      → ((find_binding useful sel a now p).0.stale ≡ "") ⊎ IsStale useful p
  unfolding find_binding
  find_binding-IsStale false p = inl refl
  find_binding-IsStale true p =
      elim (Option-cases (lookup (affinity_key sel.model.id sel.affinity_key) p.affinities)) [
        | inl e ↦ inl (ground (arith, e))
        | inr (entry, e) ↦
            let settled : Examined entry (find_binding true sel a now p) =
              rw (e, find_binding)
                (if_cases (Examined entry) (after entry.expires_at now) _ _
                  (λ _. examine-Examined entry p) (λ _. inl refl)) in
            elim settled [
              | inl h ↦ inl h
              | inr h ↦ inr (record { entry = entry; bound = e; asked = refl; settled = h })
            ]
      ]
