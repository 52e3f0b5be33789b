-- ===== src/Accounts/Redis.antt =====
-- internal/accounts/redis_coordinator.go: the coordinator over Redis. The commands of Redis are a
-- parameter, as the code takes them by an interface; so are the SHA-256 digest and the random
-- owner.
use Prim.Native.String.{◌++◌}
use Prim.Native.Char.{code}
use grok_go.Base.{
  eqb, ◌&&◌, ℕ, zero, suc, ◌*◌, ◌||◌, ◌==◌, String, Bool, true, false, Option, none, some,
  if◌then◌else◌,
}
use grok_go.Base.Int.{ℤ, pos, leb_ℤ, ltb_ℤ, ◌-ℤ◌, wrap64}
use grok_go.Base.Result.{Error, Result, err, external, ok, wrap}
use grok_go.Base.Text.{parse_int}
use grok_go.Domain.{Duration, Time, add_time, after, second, sub_time}
use grok_go.Accounts.Affinity.{affinity_key}
use grok_go.Accounts.Pool.{CoordinationLease, Coordinator}

-- The commands that the coordinator uses. A cache miss of `get` is `ok none`.
pub record RedisCommands (W : Type 0) : Type 0 where
  pub get : String → W → Result (Option String) × W
  pub set_nx : String → String → Duration → W → Result Bool × W
  pub get_delete : String → W → Result (Option String) × W
  pub compare_delete : String → String → W → Result Bool × W
  pub compare_expire : String → String → Duration → W → Result Bool × W
  pub set_if_greater : String → ℤ → Time → W → Result Bool × W
  pub acquire_lease_slot : String → String → ℤ → Duration → W → Result Bool × W
  pub release_lease_slot : String → String → W → Option Error × W

-- `random` is the hexadecimal text of sixteen random bytes, or the error of the reader.
pub record RedisCoordinator (W : Type 0) : Type 0 where
  pub redis : RedisCommands W
  pub namespace : String
  pub now : W → Time × W
  pub random : W → Result String × W
  pub digest : String → String

trim_colons_left : String → String
trim_colons_left String.[] = ""
trim_colons_left (String.◌∷◌ letter text) =
    let rest = trim_colons_left text in
    if eqb (code letter) b':' then rest else String.◌∷◌ letter text

trim_colons_right : String → String
trim_colons_right String.[] = ""
trim_colons_right (String.◌∷◌ letter text) =
    let rest = trim_colons_right text in
    if eqb (code letter) b':' && rest == "" then "" else String.◌∷◌ letter rest

-- strings.Trim(namespace, ":")
unfoldable pub trim_colons : String → String
unfolding trim_colons_left trim_colons_right
trim_colons text = trim_colons_right (trim_colons_left text)

module _ {W : Type 0} where
  -- NewRedisCoordinatorWithNamespace; the clock, the random reader and the digest are given.
  unfoldable pub new_redis_coordinator_with_namespace :
      RedisCommands W
      → String
      → (W → Time × W)
      → (W → Result String × W)
      → (String → String)
      → RedisCoordinator W
  unfolding trim_colons
  new_redis_coordinator_with_namespace redis namespace now random digest =
      let trimmed = trim_colons namespace in
      record {
        redis = redis;
        namespace = if trimmed == "" then "account-pool" else trimmed;
        now = now;
        random = random;
        digest = digest;
      }

-- The instant of the Unix epoch, and time.Unix(0, n) and t.UnixNano().
abbrev unix_epoch : Time
unix_epoch = 62_135_596_800 * second

abbrev pub of_unix_nano : ℤ → Time
of_unix_nano n = add_time unix_epoch n

abbrev pub unix_nano : Time → ℤ
unix_nano t = wrap64 (pos t -ℤ pos unix_epoch)

module _ {W : Type 0} (c : RedisCoordinator W) where
  abbrev pub lease_key : String → String
  lease_key account_id = c.namespace ++ ":leases:" ++ c.digest account_id

  abbrev pub coordinated_affinity_key : String → String → String
  coordinated_affinity_key model affinity =
      c.namespace ++ ":affinity:" ++ c.digest (affinity_key model affinity)

  abbrev pub cooldown_key : String → String
  cooldown_key account_id = c.namespace ++ ":cooldown:" ++ c.digest account_id

  unfoldable pub acquire_lease : String → ℤ → Duration → W → Result (Option CoordinationLease) × W
  acquire_lease account_id limit ttl w =
      if account_id == ""
      then (err (external "account lease requires an account ID"), w)
      else if leb_ℤ limit (pos 0)
      then (err (external "account lease limit must be positive"), w)
      else if leb_ℤ ttl (pos 0)
      then (err (external "account lease TTL must be positive"), w)
      else (let (drawn, w1) = c.random w in
          elim drawn [
            | err e ↦ (err (wrap "create account lease owner" e), w1)
            | ok owner ↦
                let (taken, w2) =
                  c.redis.acquire_lease_slot (lease_key account_id) owner limit ttl w1 in
                elim taken [
                  | err e ↦ (err (wrap "acquire account lease" e), w2)
                  | ok acquired ↦ (
                    ok (
                        if acquired
                        then some (record { account_id = account_id; slot = pos 0; owner = owner })
                        else none),
                    w2,
                  )
                ]
          ])

  unfoldable pub release_lease : CoordinationLease → W → Option Error × W
  release_lease lease w =
      if lease.account_id == "" || ltb_ℤ lease.slot (pos 0) || lease.owner == ""
      then (some (external "invalid account coordination lease"), w)
      else (let (failed, w') =
            c.redis.release_lease_slot (lease_key lease.account_id) lease.owner w in
          elim failed [ none ↦ (none, w') | some e ↦ (some (wrap "release account lease" e), w') ])

  unfoldable pub get_affinity : String → String → W → Result (Option String) × W
  get_affinity model affinity w =
      let (read, w') = c.redis.get (coordinated_affinity_key model affinity) w in
      elim read [
        | err e ↦ (err (wrap "read account affinity" e), w')
        | ok none ↦ (ok none, w')
        | ok (some value) ↦
            if value == ""
            then (err (external "account affinity is empty"), w')
            else (ok (some value), w')
      ]

  -- The loop of BindAffinity with the attempts that are left.
  pub bind_attempts : ℕ → String → String → Duration → W → Result (String × Bool) × W
  bind_attempts zero key account_id ttl w =
      (err (external "account affinity changed while binding"), w)
  bind_attempts (suc attempts) key account_id ttl w =
      let (set, w1) = c.redis.set_nx key account_id ttl w in
      elim set [
        | err e ↦ (err (wrap "bind account affinity" e), w1)
        | ok true ↦ (ok (account_id, true), w1)
        | ok false ↦
            let (read, w2) = c.redis.get key w1 in
            elim read [
              | err e ↦ (err (wrap "read bound account affinity" e), w2)
              | ok none ↦ bind_attempts attempts key account_id ttl w2
              | ok (some value) ↦ elim (value == "") [
                | true ↦ (err (external "bound account affinity is empty"), w2)
                | false ↦
                    let (refreshed, w3) = c.redis.compare_expire key value ttl w2 in
                    elim refreshed [
                      | err e ↦ (err (wrap "refresh bound account affinity" e), w3)
                      | ok false ↦ bind_attempts attempts key account_id ttl w3
                      | ok true ↦ (ok (value, false), w3)
                    ]
              ]
            ]
      ]

  unfoldable pub bind_affinity :
      String → String → String → Duration → W → Result (String × Bool) × W
  unfolding bind_attempts
  bind_affinity model affinity account_id ttl w =
      if account_id == ""
      then (err (external "account affinity requires an account ID"), w)
      else if leb_ℤ ttl (pos 0)
      then (err (external "account affinity TTL must be positive"), w)
      else bind_attempts 3 (coordinated_affinity_key model affinity) account_id ttl w

  unfoldable pub clear_affinity : String → String → String → W → Option Error × W
  clear_affinity model affinity account_id w =
      if account_id == ""
      then (some (external "account affinity requires an account ID"), w)
      else (let (deleted, w') =
            c.redis.compare_delete (coordinated_affinity_key model affinity) account_id w in
          elim deleted [ err e ↦ (some (wrap "clear account affinity" e), w') | ok b ↦ (none, w') ])

  unfoldable pub cooldown_until : String → W → Result (Option Time) × W
  cooldown_until account_id w =
      let (read, w1) = c.redis.get (cooldown_key account_id) w in
      elim read [
        | err e ↦ (err (wrap "read account cooldown" e), w1)
        | ok none ↦ (ok none, w1)
        | ok (some value) ↦ elim (parse_int value) [
          | none ↦ (err (external "parse account cooldown"), w1)
          | some nanos ↦
              let (now, w2) = c.now w1 in
              let until = of_unix_nano nanos in
              (ok (if after until now then some until else none), w2)
        ]
      ]

  unfoldable pub set_cooldown : String → Time → W → Option Error × W
  set_cooldown account_id until w =
      if account_id == ""
      then (some (external "account cooldown requires an account ID"), w)
      else (let (now, w1) = c.now w in
          if leb_ℤ (sub_time until now) (pos 0)
          then (none, w1)
          else (let (updated, w2) =
                c.redis.set_if_greater (cooldown_key account_id) (unix_nano until) until w1 in
              elim updated [
                | err e ↦ (some (wrap "set account cooldown" e), w2)
                | ok b ↦ (none, w2)
              ]))

  unfoldable pub clear_cooldown : String → W → Option Error × W
  clear_cooldown account_id w =
      if account_id == ""
      then (some (external "account cooldown requires an account ID"), w)
      else (let (deleted, w') = c.redis.get_delete (cooldown_key account_id) w in
          elim deleted [ err e ↦ (some (wrap "clear account cooldown" e), w') | ok b ↦ (none, w') ])

  -- The coordinator as the pool sees it.
  unfoldable pub redis_coordinator : Coordinator W
  unfolding acquire_lease release_lease get_affinity bind_affinity clear_affinity cooldown_until
      set_cooldown clear_cooldown
  redis_coordinator = record {
    acquire_lease = acquire_lease;
    release_lease = release_lease;
    get_affinity = get_affinity;
    bind_affinity = bind_affinity;
    clear_affinity = clear_affinity;
    cooldown_until = cooldown_until;
    set_cooldown = set_cooldown;
    clear_cooldown = clear_cooldown;
  }
