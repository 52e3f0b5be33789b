-- ===== src/Accounts/Affinity/Shrinks.antt =====
-- Pruning the table of bindings adds none.
use grok_go.Base.{ℕ, zero, suc, ◌≡◌, String, Bool, none, [], ◌∷◌, arith}
use grok_go.Base.Int.{ℤ}
use grok_go.Base.Map.{Map, lookup, delete, delete_if, lookup-delete}
use grok_go.Domain.{Time}
use grok_go.Accounts.Policy.{Policy}
use grok_go.Accounts.Pool.{AffinityEntry}
use grok_go.Accounts.Affinity.{evict, oldest_of, prune}

delete_if_shrinks :
    (drop : String → AffinityEntry → Bool) (k : String) (m : Map AffinityEntry)
    → lookup k m ≡ none
    → lookup k (delete_if drop m) ≡ none
unfolding lookup delete_if
delete_if_shrinks drop k [] h = h
delete_if_shrinks drop k ((j, e) ∷ m) h = ground (arith, delete_if_shrinks drop k m)

evict_shrinks :
    (fuel : ℕ) (limit : ℤ) (k : String) (m : Map AffinityEntry)
    → lookup k m ≡ none
    → lookup k (evict fuel limit m) ≡ none
unfolding evict
evict_shrinks zero limit k m h = h
evict_shrinks (suc fuel) limit k m h = ground (
  arith,
  lookup-delete (oldest_of "" 0 m) k m,
  evict_shrinks fuel limit k (delete (oldest_of "" 0 m) m),
)

pub prune_shrinks :
    (policy : Policy) (now : Time) (k : String) (m : Map AffinityEntry)
    → lookup k m ≡ none
    → lookup k (prune policy now m) ≡ none
unfolding prune
prune_shrinks policy now k m h =
    evict_shrinks _ policy.max_affinities k _ (delete_if_shrinks _ k m h)
