-- ===== src/Accounts/Affinity.antt =====
-- internal/accounts/pool.go: the table that binds a model and a conversation to an account.
pub mod Capacity
pub mod Shrinks
use Prim.Native.String.{◌++◌}
use grok_go.Base.{
  ℕ, zero, suc, ◌||◌, ◌&&◌, not, String, Bool, Option, none, some, List, [], ◌∷◌, ◌==◌, length, ltb,
  leb, if◌then◌else◌,
}
use grok_go.Base.Int.{ℤ, pos, leb_ℤ}
use grok_go.Base.Map.{Map, lookup, insert, delete, delete_if}
use grok_go.Domain.{Time, Duration, add_time, after}
use grok_go.Accounts.Policy.{Policy}
use grok_go.Accounts.Pool.{AffinityEntry, Pool}

unfoldable pub affinity_key : String → String → String
affinity_key model key = model ++ "\0" ++ key

-- The inner loop of pruneAffinitiesLocked: the first entry of those used longest ago.
oldest_of : String → Time → Map AffinityEntry → String
oldest_of key used [] = key
oldest_of key used ((k, e) ∷ m) =
    let older = key == "" || ltb e.used_at used in
    oldest_of (if older then k else key) (if older then e.used_at else used) m

-- The outer loop, with the number of entries as fuel: a round that has none left does nothing.
evict : ℕ → ℤ → Map AffinityEntry → Map AffinityEntry
unfolding oldest_of
evict zero limit m = m
evict (suc fuel) limit m =
    let rest = evict fuel limit (delete (oldest_of "" 0 m) m) in
    if leb_ℤ limit (pos (length m)) then rest else m

unfoldable pub is_expired : Time → String → AffinityEntry → Bool
is_expired now key entry = not (after entry.expires_at now)

unfoldable pub prune : Policy → Time → Map AffinityEntry → Map AffinityEntry
unfolding evict is_expired
prune policy now m =
    let live = delete_if (is_expired now) m in evict (length live) policy.max_affinities live

unfoldable pub set_affinity :
    Policy → String → String → String → Time → Map AffinityEntry → Map AffinityEntry
set_affinity policy model key account_id now = insert (affinity_key model key) (record {
  account_id = account_id;
  expires_at = add_time now policy.affinity_ttl;
  used_at = now;
})

-- recordAffinity
unfoldable pub record_affinity :
    Policy → String → String → String → Time → Map AffinityEntry → Map AffinityEntry
unfolding prune set_affinity
record_affinity policy model key account_id now m =
    set_affinity policy model key account_id now (prune policy now m)

-- clearLocalAffinity and clearLocalAffinityLocked
unfoldable pub clear_local_affinity :
    String → String → String → Map AffinityEntry → Map AffinityEntry
clear_local_affinity model key account_id m =
    if model == "" || key == "" || account_id == ""
    then m
    else elim (lookup (affinity_key model key) m) [
      | none ↦ m
      | some entry ↦ if entry.account_id == account_id then delete (affinity_key model key) m else m
    ]
