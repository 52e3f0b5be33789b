-- ===== src/Accounts/Affinity/Capacity.antt =====
-- Pruning keeps only live bindings and leaves room for one more, by the bindings used longest ago.
use grok_go.Base.{
  ◌||◌, if◌then◌else◌, ◌||◌, ℕ, zero, suc, ◌+◌, ◌<◌, ◌≤◌, ◌≡◌, ◌⊎◌, inl, inr, String, arith, refl,
  some, [], ◌∷◌, length, ◌==◌, eq_iff, eq_refl, Option-cases, false, is_some, true,
}
use grok_go.Base.Int.{ℤ, pos, ◌<ℤ◌, ◌≤ℤ◌}
use grok_go.Base.Map.{
  Map, lookup, delete, delete_if, length-delete_lt, lookup-delete, lookup-delete_if_keeps,
  length-insert, lookup-insert,
}
use grok_go.Domain.{Time}
use grok_go.Accounts.Policy.{Policy}
use grok_go.Accounts.Pool.{AffinityEntry}
use grok_go.Accounts.Affinity.{
  oldest_of, evict, prune, is_expired, record_affinity, affinity_key, add_time, ltb, Bool,
}

abbrev IsKey : String → Map AffinityEntry → Type 0
IsKey k m = is_some (lookup k m) ≡ true

IsKey-cons :
    (b : Bool) (r k key : String) (e : AffinityEntry) (m : Map AffinityEntry)
    → (r ≡ (if b then k else key)) ⊎ IsKey r m
    → (r ≡ key) ⊎ IsKey r ((k, e) ∷ m)
unfolding lookup
IsKey-cons true r k key e m h = ground (arith, eq_iff k r)
IsKey-cons false r k key e m h = ground (arith, eq_iff k r)

-- The key is the one that the scan began with, or one of the table.
oldest_of-IsKey :
    (key : String) (used : Time) (m : Map AffinityEntry)
    → (oldest_of key used m ≡ key) ⊎ IsKey (oldest_of key used m) m
unfolding oldest_of
oldest_of-IsKey key used [] = inl refl
oldest_of-IsKey key used ((k, e) ∷ m) =
    let older = key == "" || ltb e.used_at used in
    IsKey-cons older _ k key e m
      (oldest_of-IsKey (if older then k else key) (if older then e.used_at else used) m)

-- The scan of a table that is not empty finds a key of it.
oldest-IsKey :
    (k : String) (e : AffinityEntry) (m : Map AffinityEntry)
    → IsKey (oldest_of "" 0 ((k, e) ∷ m)) ((k, e) ∷ m)
unfolding oldest_of lookup
oldest-IsKey k e m =
    ground (arith, oldest_of-IsKey k e.used_at m, eq_iff k (oldest_of k e.used_at m))

length-delete-IsKey :
    (k : String) (m : Map AffinityEntry) → IsKey k m → length (delete k m) + 1 ≤ length m
length-delete-IsKey k m h = elim (Option-cases (lookup k m)) [
  | inl e ↦ cc
  | inr (v, e) ↦ length-delete_lt k v m e
]

length-evict :
    (fuel : ℕ) (limit : ℤ) (m : Map AffinityEntry)
    → pos 0 <ℤ limit
    → length m ≤ fuel
    → pos (length (evict fuel limit m)) <ℤ limit
unfolding evict
length-evict zero limit [] h f = h
length-evict zero limit ((k, e) ∷ m) h f = absurd (omega arith)
length-evict (suc fuel) limit [] h f = ground (arith, length-evict fuel limit [] h)
length-evict (suc fuel) limit ((k, e) ∷ m) h f =
    let m' : Map AffinityEntry = (k, e) ∷ m in
    let next : Map AffinityEntry = delete (oldest_of "" 0 m') m' in
    let fewer : length next + 1 ≤ length m' = length-delete-IsKey _ m' (oldest-IsKey k e m) in
    let ih : pos (length (evict fuel limit next)) <ℤ limit =
      length-evict fuel limit next h (omega arith) in
    ground arith

-- Evicting changes no entry that it keeps.
lookup-evict :
    (fuel : ℕ) (limit : ℤ) (m : Map AffinityEntry) (k : String) (e : AffinityEntry)
    → lookup k (evict fuel limit m) ≡ some e
    → lookup k m ≡ some e
unfolding evict
lookup-evict zero limit m k e h = h
lookup-evict (suc fuel) limit m k e h = ground (
  arith,
  lookup-evict fuel limit (delete (oldest_of "" 0 m) m) k e,
  lookup-delete (oldest_of "" 0 m) k m,
)

is_expired-lt :
    (now : Time) (k : String) (e : AffinityEntry) → is_expired now k e ≡ false → now < e.expires_at
unfolding is_expired
is_expired-lt now k e h = ground arith

-- With a positive maximum, after pruning there is room for one more binding, and every binding that
-- is left has not expired.
pub prune_room :
    (policy : Policy) (now : Time) (m : Map AffinityEntry)
    → pos 0 <ℤ policy.max_affinities
    → (pos (length (prune policy now m)) <ℤ policy.max_affinities)
      × ((k : String) (e : AffinityEntry)
          → lookup k (prune policy now m) ≡ some e
          → now < e.expires_at)
unfolding prune
prune_room policy now m h = (
  length-evict _ policy.max_affinities (delete_if (is_expired now) m) h (omega arith),
  λ k e found.
      is_expired-lt now k e
        (lookup-delete_if_keeps (is_expired now) k e m (lookup-evict _ _ _ k e found)),
)

-- With a positive maximum, recording a binding keeps the table within its maximum, whatever its
-- size was before, and the binding that was recorded is the one that is found.
pub record_affinity_bounded :
    (policy : Policy) (model key account_id : String) (now : Time) (m : Map AffinityEntry)
    → pos 0 <ℤ policy.max_affinities
    → (pos (length (record_affinity policy model key account_id now m)) ≤ℤ policy.max_affinities)
      × (lookup (affinity_key model key) (record_affinity policy model key account_id now m)
          ≡ some (record {
            account_id = account_id;
            expires_at = add_time now policy.affinity_ttl;
            used_at = now;
          }))
unfolding record_affinity
record_affinity_bounded policy model key account_id now m h =
    let room = (prune_room policy now m h).0 in
    (
      omega (arith, length-insert (affinity_key model key) _ (prune policy now m)),
      simp (lookup-insert, eq_refl),
    )
