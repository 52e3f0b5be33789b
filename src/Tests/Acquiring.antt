-- ===== src/Tests/Acquiring.antt =====
-- The theorems on selecting and leasing an account, at a pool of two accounts.
use grok_go.Base.{◌≡◌, ◌⊎◌, ℕ, refl, true, false, some, [], ◌∷◌, arith, Holds, All, length, none}
use grok_go.Base.Int.{pos, ◌≤ℤ◌}
use grok_go.Base.Map.{delete_if, insert, lookup}
use grok_go.Base.Result.{Result}
use grok_go.Domain.{add_time, active}
use grok_go.Accounts.Policy.{default_policy}
use grok_go.Accounts.Pool.{Lease, System, Selection}
use grok_go.Accounts.Select.{contains, eligible, scan, Candidate}
use grok_go.Accounts.Affinity.{affinity_key, record_affinity}
use grok_go.Accounts.Affinity.Capacity.{record_affinity_bounded}
use grok_go.Accounts.Choose.{choose, select, best_of}
use grok_go.Accounts.Choose.Sound.{IsSelected, select-IsSelected, select-none}
use grok_go.Accounts.Choose.Rank.{AtLeast, best_of-AtLeast}
use grok_go.Accounts.Confirm.Balance.{Counted}
use grok_go.Accounts.Acquire.{acquire}
use grok_go.Accounts.Acquire.Whole.{acquire_total, counters_of}
use grok_go.Accounts.Reload.{ensure_loaded, reconcile, reload}
use grok_go.Tests.Values.{account_of, counters, noon, pool, selection, state_of, states-Steady}
use grok_go.Tests.Scores.{scores, scores-IsOrdered}

-- The pool before its first load.
abbrev unloaded : System ℕ ℕ
unloaded = record { pool = record pool { loaded = false }; world = 0 }

acquire_total_example :
    (r : Result (Lease ℕ)) × (after : System ℕ ℕ) × (acquire scores selection 4 none unloaded
      ≡ some (r, after))
    × Counted (counters_of scores (ensure_loaded scores none unloaded).1.pool) r after
unfolding ensure_loaded reload reconcile delete_if insert lookup contains
acquire_total_example =
    acquire_total scores selection 4 none unloaded counters states-Steady (omega arith)

select-IsSelected_example :
    Holds (IsSelected scores pool selection noon) (select scores pool selection noon).0
select-IsSelected_example = select-IsSelected scores pool selection noon states-Steady.distinct

abbrev nobody : Selection
nobody = record selection { exclude_ids = "a" ∷ "b" ∷ [] }

select-none_example :
    (contains nobody.exclude_ids "b" ≡ true)
    ⊎ ((eligible pool.policy (state_of (account_of "b" active) 0 0) nobody.model noon).1 ≡ false)
unfolding select lookup scan contains choose
select-none_example =
    select-none scores pool nobody noon "b" (state_of (account_of "b" active) 0 0) refl refl

record_affinity_bounded_example :
    (pos (length (record_affinity default_policy "m" "k" "a" noon []))
      ≤ℤ default_policy.max_affinities)
    × (lookup (affinity_key "m" "k") (record_affinity default_policy "m" "k" "a" noon [])
        ≡ some (record {
          account_id = "a";
          expires_at = add_time noon default_policy.affinity_ttl;
          used_at = noon;
        }))
record_affinity_bounded_example =
    record_affinity_bounded default_policy "m" "k" "a" noon [] (omega arith)

abbrev first_one : Candidate ℕ
first_one = ("a", state_of (account_of "a" active) 1 0)

abbrev second_one : Candidate ℕ
second_one = ("b", state_of (account_of "b" active) 0 0)

best_of-AtLeast_example :
    AtLeast scores scores-IsOrdered noon (best_of scores noon first_one (second_one ∷ [])) first_one
    × All
        (λ d.
          AtLeast scores scores-IsOrdered noon (best_of scores noon first_one (second_one ∷ [])) d)
        (second_one ∷ [])
best_of-AtLeast_example = best_of-AtLeast scores scores-IsOrdered noon first_one (second_one ∷ [])
