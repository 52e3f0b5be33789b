-- ===== src/Database/Scripts.antt =====
-- internal/database/redis.go: the Lua scripts, over the commands of a server. A comparison with a
-- text that is no number raises an error, which ends the script. Scores and instants are integers
-- of milliseconds below 2^53, which Lua's numbers hold exactly.
use grok_go.Base.{String, Bool, false, Option, none, some, ◌==◌, if◌then◌else◌}
use grok_go.Base.Int.{ℤ, pos, negsuc, ltb_ℤ, leb_ℤ, ◌+ℤ◌}
use grok_go.Base.Result.{Error, ok, err, external}
use grok_go.Database.Server.{now_of, Server, Script, null, integer, bulk, number}

abbrev no_number : Error
no_number = external "attempt to compare nil with number"

module _ {S : Type 0} (srv : Server S) where
  unfoldable pub get_delete_script : String → Script S
  get_delete_script k s = elim (srv.get k s) [
    | none ↦ (ok null, s)
    | some value ↦ (ok (bulk value), (srv.del k s).1)
  ]

  abbrev is_value : Option String → String → Bool
  is_value none expected = false
  is_value (some value) expected = value == expected

  unfoldable pub compare_delete_script : String → String → Script S
  compare_delete_script k expected s =
      if is_value (srv.get k s) expected
      then (let (deleted, s') = srv.del k s in (ok (integer deleted), s'))
      else (ok (integer (pos 0)), s)

  unfoldable pub compare_expire_script : String → String → ℤ → Script S
  compare_expire_script k expected ttl s =
      if is_value (srv.get k s) expected
      then (let (refreshed, s') = srv.pexpire k ttl s in (ok (integer refreshed), s'))
      else (ok (integer (pos 0)), s)

  -- tonumber(redis.call('GET', k)), which is nil for a missing key.
  abbrev pub stored_number : String → S → Option ℤ
  stored_number k s = elim (srv.get k s) [ none ↦ none | some text ↦ srv.tonumber text ]

  -- `current and current >= candidate`
  abbrev pub is_reached : Option ℤ → Option ℤ → Bool
  is_reached (some current) (some candidate) = leb_ℤ candidate current
  is_reached _ _ = false

  -- `text` is the candidate in decimal.
  unfoldable pub set_if_greater_script : String → String → ℤ → Script S
  set_if_greater_script k text expires s =
      if is_reached (stored_number k s) (srv.tonumber text)
      then (ok (integer (pos 0)), s)
      else (ok (integer (pos 1)), (srv.pexpireat k expires (srv.set k text s)).1)

  -- The key expires with its latest member.
  unfoldable pub expire_with_latest : String → S → S
  expire_with_latest k s = elim (srv.zlast k s) [
    | none ↦ s
    | some latest ↦ (srv.pexpireat k latest.1 s).1
  ]

  unfoldable pub acquire_lease_script : String → String → ℤ → ℤ → Script S
  unfolding expire_with_latest
  acquire_lease_script k owner limit ttl s =
      let now = now_of srv s in
      let purged = srv.zremrangebyscore k (pos now) s in
      let added = srv.zadd k (pos now +ℤ ttl) owner purged in
      elim (srv.zscore k owner purged) [
        | some score ↦ (ok (integer (pos 1)), expire_with_latest k added)
        | none ↦
            if leb_ℤ limit (srv.zcard k purged)
            then (ok (integer (pos 0)), purged)
            else (ok (integer (pos 1)), expire_with_latest k added)
      ]

  unfoldable pub release_lease_script : String → String → Script S
  release_lease_script k owner s =
      let (removed, s') = srv.zrem k owner s in
      (
        ok (integer removed),
        elim (srv.zlast k s') [
          | none ↦ (srv.del k s').1
          | some latest ↦ (srv.pexpireat k latest.1 s').1
        ],
      )

  unfoldable pub add_window_script : String → ℤ → ℤ → Script S
  add_window_script k delta ttl s =
      if ltb_ℤ (pos 0) delta
      then (let (counted, s') = srv.incrby k delta s in
          elim counted [
            | err e ↦ (err e, s')
            | ok value ↦ (
              ok (integer value),
              if ltb_ℤ (srv.pttl k s') (pos 0) then (srv.pexpire k ttl s').1 else s',
            )
          ])
      else (elim (number srv k s) [ none ↦ (ok null, s) | some value ↦ (ok (integer value), s) ])

  unfoldable pub acquire_slot_script : String → ℤ → ℤ → Script S
  acquire_slot_script k limit ttl s = elim (number srv k s) [
    | none ↦ (err no_number, s)
    | some current ↦
        if leb_ℤ limit current
        then (ok (integer (pos 0)), s)
        else (let (counted, s') = srv.incrby k (pos 1) s in
            elim counted [
              | err e ↦ (err e, s')
              | ok value ↦ (ok (integer (pos 1)), (srv.pexpire k ttl s').1)
            ])
  ]

  unfoldable pub release_slot_script : String → Script S
  release_slot_script k s = elim (number srv k s) [
    | none ↦ (err no_number, s)
    | some current ↦
        if leb_ℤ current (pos 1)
        then (ok (integer (pos 0)), (srv.del k s).1)
        else (let (counted, s') = srv.incrby k (negsuc 0) s in
            elim counted [ err e ↦ (err e, s') | ok value ↦ (ok (integer value), s') ])
  ]
