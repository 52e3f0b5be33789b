-- ===== src/Accounts/Reload/Kept.antt =====
-- What reconciling keeps and what it drops.
use grok_go.Base.{
  Option-cases, ℕ, ◌≡◌, inl, inr, refl, not, String, false, Option, none, some, List, [], ◌∷◌,
  eq_iff, arith, map, if◌then◌else◌,
}
use grok_go.Base.Map.{
  Map, lookup, insert, Distinct, lookup-insert, lookup-delete_if, insert-Distinct,
  delete_if-Distinct, lookup-delete_if_keeps,
}
use grok_go.Base.Float.{Float}
use grok_go.Domain.{Account, active, status_eq_iff}
use grok_go.Accounts.Pool.{Pool, RuntimeState, AffinityEntry}
use grok_go.Accounts.Select.{contains}
use grok_go.Accounts.Reload.{merge_item, merge_items, reconcile, is_stale}

module _ {F : Type 0} where
  -- The requests that are under way on an account.
  abbrev pub inflight_in : Option (RuntimeState F) → ℕ
  inflight_in none = 0
  inflight_in (some s) = s.inflight

  abbrev pub inflight_at : String → Map (RuntimeState F) → ℕ
  inflight_at id m = inflight_in (lookup id m)

  -- Every state stands under the id of its account.
  pub record IsKeyed (m : Map (RuntimeState F)) : Type 0 where
    pub at_key : (id : String) (s : RuntimeState F) → lookup id m ≡ some s → s.account.id ≡ id

module _ {F : Type 0} (fl : Float F) where
  merge_item-inflight :
      (item : Account F) (o : Option (RuntimeState F))
      → (merge_item fl item o).inflight ≡ inflight_in o
  unfolding merge_item
  merge_item-inflight item none = refl
  merge_item-inflight item (some s) = refl

  merge_item-id :
      (item : Account F) (o : Option (RuntimeState F)) → (merge_item fl item o).account.id ≡ item.id
  unfolding merge_item
  merge_item-id item o = ground arith

  merge_items-inflight :
      (items : List (Account F)) (m : Map (RuntimeState F)) (id : String)
      → inflight_at id (merge_items fl items m) ≡ inflight_at id m
  unfolding merge_items
  merge_items-inflight [] m id = refl
  merge_items-inflight (item ∷ items) m id =
      let s : RuntimeState F = merge_item fl item (lookup item.id m) in
      ground (
        arith,
        merge_items-inflight items (insert item.id s m) id,
        lookup-insert item.id id s m,
        eq_iff item.id id,
        merge_item-inflight item (lookup item.id m),
      )

  merge_items-Distinct :
      (items : List (Account F)) (m : Map (RuntimeState F))
      → Distinct m
      → Distinct (merge_items fl items m)
  unfolding merge_items
  merge_items-Distinct [] m d = d
  merge_items-Distinct (item ∷ items) m d =
      merge_items-Distinct items _ (insert-Distinct item.id _ m d)

  merge_items-IsKeyed :
      (items : List (Account F)) (m : Map (RuntimeState F))
      → IsKeyed m
      → IsKeyed (merge_items fl items m)
  unfolding merge_items
  merge_items-IsKeyed [] m k = k
  merge_items-IsKeyed (item ∷ items) m k =
      let s : RuntimeState F = merge_item fl item (lookup item.id m) in
      merge_items-IsKeyed items (insert item.id s m) (record {
        at_key = λ id t h. ground (
          arith,
          lookup-insert item.id id s m,
          eq_iff item.id id,
          merge_item-id item (lookup item.id m),
          k.at_key id t,
        );
      })

  active_binding :
      (states : Map (RuntimeState F)) (key : String) (entry : AffinityEntry)
      → is_stale states key entry ≡ false
      → (s : RuntimeState F) × (lookup entry.account_id states ≡ some s)
        × (s.account.status ≡ active)
  unfolding is_stale
  active_binding states key entry h = elim (Option-cases (lookup entry.account_id states)) [
    | inl e ↦ cc (rw (e, is_stale) at h)
    | inr (s, e) ↦ (s, e, ground (arith, status_eq_iff s.account.status active))
  ]

  module _ {W : Type 0} (items : List (Account F)) (p : Pool F W) (d : Distinct p.states) where
    abbrev listed_ids : List String
    listed_ids = map (λ item. item.id) items

    -- A listed account keeps its inflight counter, and one that is not listed leaves the pool.
    pub reconcile-inflight :
        (id : String)
        → inflight_at id (reconcile fl items p).states
          ≡ (if contains (map (λ item. item.id) items) id then inflight_at id p.states else 0)
    unfolding reconcile
    reconcile-inflight id = ground (
      arith,
      lookup-delete_if (λ id state. not (contains listed_ids id)) id (merge_items fl items p.states)
          (merge_items-Distinct items p.states d),
      merge_items-inflight items p.states id,
    )

    pub reconcile-Distinct : Distinct (reconcile fl items p).states
    unfolding reconcile
    reconcile-Distinct = delete_if-Distinct _ _ (merge_items-Distinct items p.states d)

    -- Every binding that is left leads to an active account of the pool.
    pub reconcile_bindings :
        (key : String) (entry : AffinityEntry)
        → lookup key (reconcile fl items p).affinities ≡ some entry
        → (s : RuntimeState F) × (lookup entry.account_id (reconcile fl items p).states ≡ some s)
          × (s.account.status ≡ active)
    unfolding reconcile
    reconcile_bindings key entry h =
        active_binding (reconcile fl items p).states key entry
          (lookup-delete_if_keeps (is_stale (reconcile fl items p).states) key entry p.affinities h)

    -- Every state that is left stands under the id of its account.
    pub reconcile-IsKeyed : IsKeyed p.states → IsKeyed (reconcile fl items p).states
    unfolding reconcile
    reconcile-IsKeyed k = record {
      at_key = λ id s h. (merge_items-IsKeyed items p.states k).at_key id s (
          ground (
            arith,
            lookup-delete_if (λ id state. not (contains listed_ids id)) id
                (merge_items fl items p.states) (merge_items-Distinct items p.states d),
          ));
    }
