-- ===== src/Accounts/Acquire/Locked.antt =====
-- What the locked start of a round of Acquire does to the budget of rounds.
use grok_go.Base.{
  subst, ℕ, String, ◌<◌, option_cases, if_cases, ◌≤◌, ◌≡◌, Bool, true, ◌&&◌, none, some, ◌==◌,
  arith, eq_refl, if◌then◌else◌, is_some, Option-cases, inl, inr, false,
}
use grok_go.Base.Map.{lookup, lookup-delete, lookup-insert}
use grok_go.Domain.{Time, add_time}
use grok_go.Accounts.Affinity.{affinity_key, set_affinity, prune}
use grok_go.Accounts.Affinity.Shrinks.{prune_shrinks}
use grok_go.Accounts.Pool.{AffinityEntry, Coordinator, Pool, Selection, System}
use grok_go.Accounts.Reserve.{Attempt, find_binding, refresh_bindings}
use grok_go.Accounts.Confirm.{drop_stale}
use grok_go.Accounts.Acquire.Progress.{free}
use grok_go.Accounts.Acquire.Falling.{Falling, pending, potential}
use grok_go.Accounts.Acquire.Stale.{
  find_binding-IsStale, IsStale, free-find_binding, coordinator-find_binding,
}

module _ {F W : Type 0} where
  -- Dropping a stale binding uses up the binding.
  drop_stale_falls :
      (sel : Selection) (a : Attempt) (n : ℕ) (stale : String) (q : System F W)
      → (q.pool.coordinator ≡ none → potential sel a q.pool < n)
      → ((c : Coordinator W)
          → q.pool.coordinator ≡ some c
          → ((a.coordinated == stale) ≡ true) × (free a.excluded q.pool.states < n))
      → Falling sel n (drop_stale sel a stale q)
  unfolding drop_stale potential pending
  drop_stale_falls sel a n stale q alone together =
      option_cases (Falling sel n) q.pool.coordinator _ _ (λ e. record { falls = alone e })
        (λ c e.
          if_cases (Falling sel n) (a.coordinated == stale) _ _
            (λ _.
              option_cases (Falling sel n)
                (c.clear_affinity sel.model.id sel.affinity_key stale q.world).0 _ _
                (λ _. record { falls = dropped c e }) (λ _ _. record { falls = tt }))
            (λ f. absurd (ground (arith, f, (together c e).0))))
    where
      dropped :
          (c : Coordinator W)
          → q.pool.coordinator ≡ some c
          → potential sel (record a { coordinated = "" }) q.pool < n
      dropped c e = ground (arith, e, (together c e).1, eq_refl "")

module _ {F W : Type 0} (sel : Selection) (a : Attempt) (now : Time) where
  -- Whether the coordinator was asked for the binding.
  abbrev pub asks : Bool → Pool F W → Bool
  asks useful p = is_some p.coordinator && useful

  abbrev pub refreshed : Bool → Pool F W → Pool F W
  refreshed useful p = refresh_bindings (asks useful p) sel a now p

  free-refreshed :
      (useful : Bool) (p : Pool F W)
      → free a.excluded (find_binding useful sel a now (refreshed useful p)).1.states
        ≡ free a.excluded p.states
  unfolding refresh_bindings
  free-refreshed useful p = free-find_binding sel a now useful a.excluded (refreshed useful p)

  coordinator-refreshed :
      (useful : Bool) (p : Pool F W)
      → (find_binding useful sel a now (refreshed useful p)).1.coordinator ≡ p.coordinator
  unfolding refresh_bindings
  coordinator-refreshed useful p = coordinator-find_binding sel a now useful (refreshed useful p)

  affinities-find_binding :
      (useful : Bool) (p : Pool F W)
      → lookup (affinity_key sel.model.id sel.affinity_key) p.affinities ≡ none
      → (find_binding useful sel a now p).1.affinities ≡ p.affinities
  unfolding find_binding
  affinities-find_binding useful p e = ground (arith, e)

  -- Without a coordinator the table gains no binding.
  unbound :
      (useful : Bool) (p : Pool F W)
      → p.coordinator ≡ none
      → lookup (affinity_key sel.model.id sel.affinity_key) p.affinities ≡ none
      → lookup (affinity_key sel.model.id sel.affinity_key) (refreshed useful p).affinities ≡ none
  unfolding refresh_bindings
  unbound useful p c e = ground (
    arith,
    c,
    prune_shrinks p.policy now (affinity_key sel.model.id sel.affinity_key) p.affinities e,
  )

  pub potential_locked :
      (useful : Bool) (p : Pool F W)
      → potential sel a (find_binding useful sel a now (refreshed useful p)).1 ≤ potential sel a p
  unfolding potential pending
  potential_locked useful p =
      let key = affinity_key sel.model.id sel.affinity_key in
      elim (Option-cases p.coordinator) [
        | inr (c, e) ↦ ground (arith, e, free-refreshed useful p, coordinator-refreshed useful p)
        | inl e ↦ elim (Option-cases (lookup key p.affinities)) [
          | inr (entry, h) ↦
              ground (arith, e, h, free-refreshed useful p, coordinator-refreshed useful p)
          | inl h ↦ ground (
            arith,
            e,
            h,
            free-refreshed useful p,
            coordinator-refreshed useful p,
            unbound useful p e h,
            affinities-find_binding useful (refreshed useful p) (unbound useful p e h),
          )
        ]
      ]

  abbrev coordinated_entry : Pool F W → AffinityEntry
  coordinated_entry p = record {
    account_id = a.coordinated;
    expires_at = add_time now p.policy.affinity_ttl;
    used_at = now;
  }

  -- With a coordinator the binding in the table is the coordinated one.
  lookup-refreshed :
      (p : Pool F W)
      → is_some p.coordinator ≡ true
      → lookup (affinity_key sel.model.id sel.affinity_key) (refreshed true p).affinities
        ≡ (if a.coordinated == "" then none else some (coordinated_entry p))
  unfolding refresh_bindings set_affinity
  lookup-refreshed p c =
      let key = affinity_key sel.model.id sel.affinity_key in
      let live = prune p.policy now p.affinities in
      ground (
        arith,
        c,
        eq_refl key,
        lookup-delete key key live,
        lookup-insert key key (coordinated_entry p) live,
      )

  pub stale_coordinated :
      (p : Pool F W)
      → is_some p.coordinator ≡ true
      → IsStale sel a now true (refreshed true p)
      → (find_binding true sel a now (refreshed true p)).0.stale ≡ a.coordinated
  stale_coordinated p c h = ground (arith, lookup-refreshed p c, h.bound, h.settled.named)

  stale-Falling :
      (p : Pool F W) (w : W)
      → IsStale sel a now true (refreshed true p)
      → Falling sel (potential sel a p) (
          drop_stale sel a
            (find_binding true sel a now (refreshed true p)).0.stale
            (record { pool = (find_binding true sel a now (refreshed true p)).1; world = w }))
  unfolding potential pending
  stale-Falling p w h =
      drop_stale_falls sel a (potential sel a p)
        (find_binding true sel a now (refreshed true p)).0.stale
        (record { pool = (find_binding true sel a now (refreshed true p)).1; world = w })
        (λ e. alone (ground (arith, e, coordinator-refreshed true p)))
        (λ c e. together c (ground (arith, e, coordinator-refreshed true p)))
    where
      alone :
          p.coordinator ≡ none
          → potential sel a (find_binding true sel a now (refreshed true p)).1 < potential sel a p
      alone e =
          elim (Option-cases (lookup (affinity_key sel.model.id sel.affinity_key) p.affinities)) [
            | inl none_there ↦ absurd (ground (arith, unbound true p e none_there, h.bound))
            | inr (entry, there) ↦ ground (
              arith,
              e,
              there,
              free-refreshed true p,
              coordinator-refreshed true p,
              h.settled.dropped,
            )
          ]

      together :
          (c : Coordinator W)
          → p.coordinator ≡ some c
          → ((a.coordinated == (find_binding true sel a now (refreshed true p)).0.stale) ≡ true)
            × (free a.excluded (find_binding true sel a now (refreshed true p)).1.states
                < potential sel a p)
      together c e =
          let there : is_some p.coordinator ≡ true = ground (arith, e) in
          (
            rw (stale_coordinated p there h) (eq_refl a.coordinated),
            ground (arith, e, free-refreshed true p, lookup-refreshed p there, h.bound),
          )

  pub drop_stale-Falling :
      (useful : Bool) (p : Pool F W) (w : W)
      → ((find_binding useful sel a now (refreshed useful p)).0.stale == "") ≡ false
      → Falling sel (potential sel a p) (
          drop_stale sel a
            (find_binding useful sel a now (refreshed useful p)).0.stale
            (record { pool = (find_binding useful sel a now (refreshed useful p)).1; world = w }))
  drop_stale-Falling useful p w e =
      elim (find_binding-IsStale sel a now useful (refreshed useful p)) [
        | inl h ↦
            let shut : ("" == "") ≡ false = subst (λ x. (x == "") ≡ false) h e in
            absurd (ground (arith, shut, eq_refl ""))
        | inr h ↦ go useful e h
      ]
    where
      go :
          (b : Bool)
          → ((find_binding b sel a now (refreshed b p)).0.stale == "") ≡ false
          → IsStale sel a now b (refreshed b p)
          → Falling sel (potential sel a p) (
              drop_stale sel a
                (find_binding b sel a now (refreshed b p)).0.stale
                (record { pool = (find_binding b sel a now (refreshed b p)).1; world = w }))
      go true e h = stale-Falling p w h
      go false e h = absurd (ground (arith, h.asked))
