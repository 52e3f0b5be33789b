-- ===== src/Database/Redis.antt =====
-- internal/database/redis.go: the methods of Redis over the client's calls. A nil client, or a nil
-- receiver, is `none`. The connection and the subscriptions are left out.
use Prim.Native.String.{◌++◌}
use grok_go.Base.{
  ◌/◌, suc, String, Bool, true, Option, none, some, List, [], ◌∷◌, ◌==◌, if◌then◌else◌, ◌||◌, map,
}
use grok_go.Base.Int.{ℤ, pos, negsuc, ltb_ℤ, leb_ℤ, eqb_ℤ, ◌-ℤ◌}
use grok_go.Base.Text.{parse_int, trim_space}
use grok_go.Base.Result.{Error, Result, ok, err, external, wrap}
use grok_go.Domain.{Duration, Time}
use grok_go.ApiKey.Windows.{format_int}
use grok_go.ApiKey.Handler.{Counters}
use grok_go.Accounts.Redis.{RedisCommands}
use grok_go.Database.Server.{Server, Client, Script, Reply, null, integer, bulk}
use grok_go.Database.Scripts.{
  get_delete_script, compare_delete_script, compare_expire_script, set_if_greater_script,
  acquire_lease_script, release_lease_script, add_window_script, acquire_slot_script,
  release_slot_script,
}

pub record Redis (S W : Type 0) : Type 0 where
  pub client : Client S W
  pub prefix : String

-- strings.Join
abbrev join_text : String → List String → String
join_text separator [] = ""
join_text separator (part ∷ []) = part
join_text separator (part ∷ parts) = part ++ (separator ++ join_text separator parts)

-- Redis.Key
unfoldable pub key_of : String → List String → String
key_of prefix parts = prefix ++ join_text ":" parts

-- ttl.Milliseconds(), which rounds towards zero, and t.UnixMilli(), which rounds down.
unfoldable pub milliseconds : Duration → ℤ
milliseconds (pos n) = pos (n / 1_000_000)
milliseconds (negsuc n) = pos 0 -ℤ pos (suc n / 1_000_000)

unfoldable pub unix_milli : Time → ℤ
unix_milli t = pos (t / 1_000_000) -ℤ pos 62_135_596_800_000

-- Cmd.Int64 of the client.
abbrev pub int64_of : Reply → Result ℤ
int64_of (integer n) = ok n
int64_of (bulk text) = elim (parse_int text) [
  | none ↦ err (external "invalid integer")
  | some n ↦ ok n
]
int64_of null = err (external "redis: nil")

-- r.Key(key)
abbrev redis_key : {S W : Type 0} → Redis S W → String → String
redis_key r key = key_of r.prefix (key ∷ [])

-- The methods that answer `value == 1`.
abbrev pub is_one : {W : Type 0} → Result ℤ × W → Result Bool × W
is_one (err e, w) = (err e, w)
is_one (ok n, w) = (ok (eqb_ℤ n (pos 1)), w)

module _ {S W : Type 0} (r : Redis S W) where
  -- r.client.Eval(...).Int64() with the text that wraps its error.
  unfoldable pub eval_int64 : String → Script S → W → Result ℤ × W
  eval_int64 text script w =
      let (reply, w') = r.client.eval script w in
      elim reply [
        | err e ↦ (err (wrap text e), w')
        | ok value ↦ elim (int64_of value) [ err e ↦ (err (wrap text e), w') | ok n ↦ (ok n, w') ]
      ]

  -- Eval(...).Err(): the reply is not read.
  unfoldable pub eval_only : String → Script S → W → Option Error × W
  eval_only text script w =
      let (reply, w') = r.client.eval script w in
      elim reply [ err e ↦ (some (wrap text e), w') | ok value ↦ (none, w') ]

  unfoldable pub get : String → W → Result (Option String) × W
  get key w =
      let (value, w') = r.client.get (redis_key r key) w in
      elim value [ err e ↦ (err (wrap "Redis GET" e), w') | ok found ↦ (ok found, w') ]

  unfoldable pub set : String → String → Duration → W → Option Error × W
  set key value ttl w =
      let (failed, w') = r.client.set (redis_key r key) value ttl w in
      elim failed [ none ↦ (none, w') | some e ↦ (some (wrap "Redis SET" e), w') ]

  unfoldable pub set_nx : String → String → Duration → W → Result Bool × W
  set_nx key value ttl w =
      let (set, w') = r.client.set_nx (redis_key r key) value ttl w in
      elim set [ err e ↦ (err (wrap "Redis SETNX" e), w') | ok b ↦ (ok b, w') ]

  -- Delete
  unfoldable pub delete_keys : List String → W → Option Error × W
  delete_keys [] w = (none, w)
  delete_keys (key ∷ keys) w =
      let (failed, w') = r.client.del (map (redis_key r) (key ∷ keys)) w in
      elim failed [ none ↦ (none, w') | some e ↦ (some (wrap "Redis DEL" e), w') ]

  -- Health
  unfoldable pub health : W → Option Error × W
  health w =
      let (failed, w') = r.client.ping w in
      elim failed [ none ↦ (none, w') | some e ↦ (some (wrap "ping Redis" e), w') ]

  unfoldable pub publish : String → String → W → Option Error × W
  unfolding trim_space
  publish channel payload w =
      if trim_space channel == ""
      then (some (external "Redis publish channel is required"), w)
      else (let (failed, w') = r.client.publish (redis_key r (trim_space channel)) payload w in
          elim failed [ none ↦ (none, w') | some e ↦ (some (wrap "Redis PUBLISH" e), w') ])

module _ {S W : Type 0} (srv : Server S) (r : Redis S W) where
  -- The reply of the script is a text or nil; go-redis answers nil as an error of its own.
  unfoldable pub get_delete : String → W → Result (Option String) × W
  get_delete key w =
      let (reply, w') = r.client.eval (get_delete_script srv (redis_key r key)) w in
      elim reply [
        | err e ↦ (err (wrap "Redis GETDEL" e), w')
        | ok null ↦ (ok none, w')
        | ok (bulk value) ↦ (ok (some value), w')
        | ok (integer n) ↦ (err (external "Redis GETDEL returned int64"), w')
      ]

  unfoldable pub compare_delete : String → String → W → Result Bool × W
  unfolding eval_int64
  compare_delete key expected w =
      is_one (
        eval_int64 r "Redis compare-delete" (compare_delete_script srv (redis_key r key) expected)
          w)

  unfoldable pub compare_expire : String → String → Duration → W → Result Bool × W
  unfolding eval_int64 milliseconds
  compare_expire key expected ttl w = is_one (
      eval_int64 r "Redis compare-expire"
        (compare_expire_script srv (redis_key r key) expected (milliseconds ttl)) w)

  unfoldable pub set_if_greater : String → ℤ → Time → W → Result Bool × W
  unfolding eval_int64 format_int unix_milli
  set_if_greater key value expires_at w = is_one (
      eval_int64 r "Redis set-if-greater"
        (set_if_greater_script srv (redis_key r key) (format_int value) (unix_milli expires_at)) w)

  unfoldable pub acquire_lease_slot : String → String → ℤ → Duration → W → Result Bool × W
  unfolding eval_int64 milliseconds trim_space
  acquire_lease_slot key owner limit ttl w =
      if leb_ℤ limit (pos 0) || leb_ℤ ttl (pos 0) || trim_space owner == ""
      then (err (external "Redis lease arguments are invalid"), w)
      else is_one (
          eval_int64 r "Redis acquire owner lease"
            (acquire_lease_script srv (redis_key r key) owner limit (milliseconds ttl)) w)

  unfoldable pub release_lease_slot : String → String → W → Option Error × W
  unfolding eval_only
  release_lease_slot key owner w =
      eval_only r "Redis release owner lease" (release_lease_script srv (redis_key r key) owner) w

  unfoldable pub add_window : String → ℤ → Duration → W → Result ℤ × W
  unfolding eval_int64 milliseconds
  add_window key delta ttl w =
      if ltb_ℤ delta (pos 0)
      then (err (external "Redis window delta must not be negative"), w)
      else eval_int64 r "Redis add window"
          (add_window_script srv (redis_key r key) delta (milliseconds ttl)) w

  -- IncrementWindow
  abbrev pub increment_window : String → Duration → W → Result ℤ × W
  increment_window key ttl w = add_window key (pos 1) ttl w

  unfoldable pub acquire_slot : String → ℤ → Duration → W → Result Bool × W
  unfolding eval_int64 milliseconds
  acquire_slot key limit ttl w =
      if leb_ℤ limit (pos 0)
      then (ok true, w)
      else is_one (
          eval_int64 r "Redis acquire slot"
            (acquire_slot_script srv (redis_key r key) limit (milliseconds ttl)) w)

  unfoldable pub release_slot : String → W → Option Error × W
  unfolding eval_only
  release_slot key w =
      eval_only r "Redis release slot" (release_slot_script srv (redis_key r key)) w

  -- What the client keys and the coordinator of the pool take of it.
  abbrev pub redis_counters : Counters W
  redis_counters = record {
    add_window = add_window;
    acquire_slot = acquire_slot;
    release_slot = release_slot;
  }

  abbrev pub redis_commands : RedisCommands W
  redis_commands = record {
    get = get r;
    set_nx = set_nx r;
    get_delete = get_delete;
    compare_delete = compare_delete;
    compare_expire = compare_expire;
    set_if_greater = set_if_greater;
    acquire_lease_slot = acquire_lease_slot;
    release_lease_slot = release_lease_slot;
  }
