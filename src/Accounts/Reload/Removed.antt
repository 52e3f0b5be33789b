-- ===== src/Accounts/Reload/Removed.antt =====
-- Evicting accounts whose deletion has been committed.
use grok_go.Base.{
  ◌≡◌, refl, String, true, false, none, some, List, [], ◌∷◌, arith, if◌then◌else◌, if_cases, leb,
  length,
}
use grok_go.Base.Map.{Map, delete, lookup, lookup-delete, lookup-delete_if_keeps}
use grok_go.Accounts.Pool.{AffinityEntry, Pool, RuntimeState}
use grok_go.Accounts.Select.{contains}
use grok_go.Accounts.Reload.{delete_all, remove_accounts, removed_ids}

module _ {F : Type 0} where
  lookup-delete_all :
      (ids : List String) (id : String) (m : Map (RuntimeState F))
      → lookup id (delete_all ids m) ≡ (if contains ids id then none else lookup id m)
  unfolding delete_all contains
  lookup-delete_all [] id m = refl
  lookup-delete_all (j ∷ ids) id m =
      ground (arith, lookup-delete_all ids id (delete j m), lookup-delete j id m)

module _ {F W : Type 0} (account_ids : List String) (p : Pool F W) where
  -- What removing the accounts `ids` does to the pool.
  record IsRemoved (ids : List String) (q : Pool F W) : Type 0 where
    states :
        (id : String) → lookup id q.states ≡ (if contains ids id then none else lookup id p.states)
    affinities :
        (key : String) (entry : AffinityEntry)
        → leb (length ids) 0 ≡ false
        → lookup key q.affinities ≡ some entry
        → contains ids entry.account_id ≡ false

  contains_none :
      (ids : List String) (id : String) → leb (length ids) 0 ≡ true → contains ids id ≡ false
  unfolding contains
  contains_none [] id h = refl
  contains_none (x ∷ ids) id h = absurd (ground (arith, h))

  remove_accounts-IsRemoved : IsRemoved (removed_ids account_ids) (remove_accounts account_ids p)
  unfolding remove_accounts
  remove_accounts-IsRemoved =
      let ids = removed_ids account_ids in
      if_cases (IsRemoved ids) (leb (length ids) 0) _ _
        (λ none_given. record {
          states = λ id. ground (arith, contains_none ids id none_given);
          affinities = λ key entry some_given h. absurd (ground (arith, none_given, some_given));
        })
        (λ _. record {
          states = λ id. lookup-delete_all ids id p.states;
          affinities = λ key entry some_given h.
              lookup-delete_if_keeps (λ key entry. contains ids entry.account_id) key entry
                p.affinities h;
        })

  -- The accounts that are named leave the pool, and the states of the others are as they were.
  lookup-remove_accounts :
      (id : String)
      → lookup id (remove_accounts account_ids p).states
        ≡ (if contains (removed_ids account_ids) id then none else lookup id p.states)
  lookup-remove_accounts id = remove_accounts-IsRemoved.states id

  -- Where an account is named, no binding is left that leads to one of the accounts that are named.
  pub remove_accounts_unbinds :
      (key : String) (entry : AffinityEntry)
      → leb (length (removed_ids account_ids)) 0 ≡ false
      → lookup key (remove_accounts account_ids p).affinities ≡ some entry
      → contains (removed_ids account_ids) entry.account_id ≡ false
  remove_accounts_unbinds key entry = remove_accounts-IsRemoved.affinities key entry
