-- ===== src/Database/Leases.antt =====
-- The scripts of AcquireLeaseSlot and ReleaseLeaseSlot keep a table of leases that have not
-- expired, by the laws of IsRanking.
use grok_go.Base.{
  Bool-cases, inl, inr, ℕ, ◌≤◌, ◌<◌, ◌≡◌, refl, ap, sym, ◌∙◌, String, Bool, true, false, Option,
  none, some, [], ◌∷◌, arith, ltb, is_some, ◌||◌, length, if◌then◌else◌, option_cases, eq_iff,
  eq_refl,
}
use grok_go.Base.Int.{ℤ, pos, ◌<ℤ◌, ◌≤ℤ◌, leb_ℤ, ltb_ℤ, ◌+ℤ◌}
use grok_go.Base.Map.{
  Map, lookup, insert, delete, delete_if, Distinct, lookup-insert, length-insert,
}
use grok_go.Base.Result.{Result, ok}
use grok_go.Database.Server.{Server, Reply, integer, now_of, IsRanking}
use grok_go.Database.Scripts.{expire_with_latest, acquire_lease_script, release_lease_script}

-- The leases that have not expired at an instant.
abbrev pub live : ℤ → Map ℤ → Map ℤ
live now table = delete_if (λ owner deadline. leb_ℤ deadline now) table

-- A lease for `owner` until `deadline`: its own one is renewed, a new one needs room.
abbrev pub lease : ℕ → String → ℤ → Map ℤ → Bool × Map ℤ
lease limit owner deadline table =
    if is_some (lookup owner table) || ltb (length table) limit
    then (true, insert owner deadline table)
    else (false, table)

length-insert_known :
    (k : String) (v : ℤ) (m : Map ℤ)
    → is_some (lookup k m) ≡ true
    → length (insert k v m) ≡ length m
unfolding lookup insert
length-insert_known k v [] h = cc
length-insert_known k v ((j, w) ∷ m) h = ground (arith, h, length-insert_known k v m, eq_iff j k)

-- A table within its limit stays within it.
pub lease_bounded :
    (limit : ℕ) (owner : String) (deadline : ℤ) (table : Map ℤ)
    → length table ≤ limit
    → length (lease limit owner deadline table).1 ≤ limit
lease_bounded limit owner deadline table h =
    ground (arith, h, length-insert_known owner deadline table, length-insert owner deadline table)

all_expired :
    (now : ℤ) (table : Map ℤ)
    → Distinct table
    → ((owner : String) (deadline : ℤ) → lookup owner table ≡ some deadline → deadline ≤ℤ now)
    → live now table ≡ []
unfolding delete_if lookup
all_expired now [] d h = refl
all_expired now ((j, v) ∷ table) d h =
    let rest =
      all_expired now table d.1
        (λ owner deadline found. h owner deadline (ground (arith, found, d.0, eq_iff j owner))) in
    ground (arith, rest, h j v (ground (arith, eq_refl j)))

lt_of : (a b : ℤ) → ltb_ℤ a b ≡ true → a <ℤ b
lt_of a b h = ground (arith, h)

le_of : (a b : ℤ) → ltb_ℤ a b ≡ false → b ≤ℤ a
le_of a b h = ground (arith, h)

le_trans_ℤ : (a b c : ℤ) → a ≤ℤ b → b ≤ℤ c → a ≤ℤ c
le_trans_ℤ a b c h k = omega (arith, h, k)

ttl_later : (now ttl : ℕ) → 0 < ttl → pos now <ℤ pos now +ℤ pos ttl
unfolding ◌+ℤ◌
ttl_later now ttl lives = ground (arith, lives)

module _ {S : Type 0} (members : String → S → Map ℤ) where
  -- What the script answered and the leases it left.
  pub record Leaves (k : String) (granted : Bool) (table : Map ℤ) (r : Result Reply × S)
      : Type 0 where
    pub reply : r.0 ≡ ok (integer (if granted then pos 1 else pos 0))
    pub leases : members k r.1 ≡ table

module _ {S : Type 0} (srv : Server S) (members : String → S → Map ℤ)
    (laws : IsRanking srv members) where
  -- A lease that lasts keeps the key.
  expire_with_latest-members :
      (k owner : String) (deadline : ℤ) (s : S)
      → lookup owner (members k s) ≡ some deadline
      → pos (now_of srv s) <ℤ deadline
      → members k (expire_with_latest srv k s) ≡ members k s
  unfolding expire_with_latest
  expire_with_latest-members k owner deadline s found future =
      option_cases (λ t. members k t ≡ members k s) (srv.zlast k s) _ _ (λ _. refl)
        (λ latest last.
          laws.pexpireat_members k latest.1 s
            (ground (arith, future, laws.zlast_top k owner latest deadline s last found)))

  -- The script's choice, from what it read and the states it chooses between.
  Leaves-of :
      (k owner : String) (limit : ℕ) (deadline : ℤ) (table : Map ℤ) (own : Option ℤ) (card : ℤ)
      (taken full : S)
      → own ≡ lookup owner table
      → card ≡ pos (length table)
      → members k taken ≡ insert owner deadline table
      → members k full ≡ table
      → Leaves members k
          (lease limit owner deadline table).0
          (lease limit owner deadline table).1
          (elim own [
            | some score ↦ (ok (integer (pos 1)), taken)
            | none ↦
                if leb_ℤ (pos limit) card
                then (ok (integer (pos 0)), full)
                else (ok (integer (pos 1)), taken)
          ])
  Leaves-of k owner limit deadline table own card taken full same size grown kept = record {
    reply = ground (arith, same, size);
    leases = ground (arith, same, size, grown, kept);
  }

  module _ (k owner : String) (s : S) where
    abbrev now : ℤ
    now = pos (now_of srv s)

    purged_table : members k (srv.zremrangebyscore k now s) ≡ live now (members k s)
    purged_table = laws.zremrangebyscore_members k now s

    added_table :
        (ttl : ℕ)
        → 0 < ttl
        → members k (
            expire_with_latest srv k
              (srv.zadd k (now +ℤ pos ttl) owner (srv.zremrangebyscore k now s)))
          ≡ insert owner (now +ℤ pos ttl) (live now (members k s))
    added_table ttl lives =
        let purged = srv.zremrangebyscore k now s in
        let deadline = now +ℤ pos ttl in
        let added = srv.zadd k deadline owner purged in
        let grown : members k added ≡ insert owner deadline (live now (members k s)) =
          laws.zadd_members k owner deadline purged ∙ ap (insert owner deadline) purged_table in
        let same_time : srv.time added ≡ srv.time s =
          laws.zadd_time k owner deadline purged ∙ laws.zremrangebyscore_time k now s in
        let found : lookup owner (members k added) ≡ some deadline =
          ap (lookup owner) grown ∙ lookup-insert owner owner deadline _ ∙ rw (eq_refl owner) in
        expire_with_latest-members k owner deadline added found
          (rw same_time (ttl_later (now_of srv s) ttl lives))
        ∙ grown

    -- The script refines a lease in the table of the leases that have not expired.
    pub acquire_lease_refines :
        (limit ttl : ℕ)
        → 0 < ttl
        → Leaves members k
            (lease limit owner (now +ℤ pos ttl) (live now (members k s))).0
            (lease limit owner (now +ℤ pos ttl) (live now (members k s))).1
            (acquire_lease_script srv k owner (pos limit) (pos ttl) s)
    unfolding acquire_lease_script
    acquire_lease_refines limit ttl lives =
        let purged = srv.zremrangebyscore k now s in
        Leaves-of k owner limit (now +ℤ pos ttl) (live now (members k s)) _ _ _ _
          (laws.zscore_lookup k owner purged ∙ ap (lookup owner) purged_table)
          (laws.zcard_length k purged ∙ ap (λ table. pos (length table)) purged_table)
          (added_table ttl lives) purged_table

    -- A release takes the owner's lease out, and no other that has not expired.
    pub release_lease_refines :
        live now (members k (release_lease_script srv k owner s).1)
        ≡ live now (delete owner (members k s))
    unfolding release_lease_script delete_if
    release_lease_refines =
        let left = (srv.zrem k owner s).1 in
        let table : members k left ≡ delete owner (members k s) = laws.zrem_members k owner s in
        let same_time : srv.time left ≡ srv.time s = laws.zrem_time k owner s in
        let goal : S → Type 0 =
          λ t. live now (members k t) ≡ live now (delete owner (members k s)) in
        option_cases goal (srv.zlast k left) _ _
          (λ last.
            ap (live now) (laws.del_members k left ∙ sym (laws.zlast_none k left last) ∙ table))
          (λ latest last. elim (Bool-cases (ltb_ℤ now latest.1)) [
            | inl future ↦ ap (live now) (
                laws.pexpireat_members k latest.1 left (rw same_time (lt_of now latest.1 future))
                ∙ table)
            | inr past ↦
                ap (live now)
                  (laws.pexpireat_past k latest.1 left (rw same_time (le_of now latest.1 past)))
                ∙ sym (
                    all_expired now (members k left) (laws.distinct k left) (λ m score found.
                      le_trans_ℤ score latest.1 now
                        (laws.zlast_top k m latest score left last found)
                        (le_of now latest.1 past)))
                ∙ ap (live now) table
          ])

    -- A key whose live leases are within the limit keeps them within it.
    pub acquire_lease_bounded :
        (limit ttl : ℕ)
        → 0 < ttl
        → length (live now (members k s)) ≤ limit
        → length (members k (acquire_lease_script srv k owner (pos limit) (pos ttl) s).1) ≤ limit
    acquire_lease_bounded limit ttl lives h =
        let bounded = lease_bounded limit owner (now +ℤ pos ttl) (live now (members k s)) h in
        rw ((acquire_lease_refines limit ttl lives).leases) bounded
