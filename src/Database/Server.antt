-- ===== src/Database/Server.antt =====
-- What internal/database/redis.go calls: the commands of a Redis server that its scripts run, and
-- the client that carries them there. Neither is part of the program; both are parameters, and what
-- is relied on is named as laws of the commands that Redis documents.
use grok_go.Base.{
  zero, ℕ, ◌+◌, ◌<◌, ◌^◌, ◌≡◌, String, Bool, Option, none, some, List, ◌==◌, if◌then◌else◌, ◌⊎◌,
  ◌*◌, ◌/◌, length, [], ◌≤◌, suc,
}
use grok_go.Base.Int.{◌≤ℤ◌, leb_ℤ, ℤ, pos, negsuc, ◌<ℤ◌}
use grok_go.Base.Map.{Map, lookup, insert, delete, delete_if, Distinct}
use grok_go.Base.Result.{Error, Result, ok, err}
use grok_go.Domain.{Duration}

-- The reply of a script, as the client reads it.
pub data Reply : Type 0 where
  null : Reply
  integer : ℤ → Reply
  bulk : String → Reply

-- The commands on a server's state. A deletion answers how many keys or members were deleted, an
-- expiry whether it was set, and the last member of a sorted set comes with its score. INCRBY fails
-- on a text that is no integer. `tonumber` is Lua's, on texts of integers.
pub record Server (S : Type 0) : Type 0 where
  pub get : String → S → Option String
  pub set : String → String → S → S
  pub del : String → S → ℤ × S
  pub incrby : String → ℤ → S → Result ℤ × S
  pub pexpire : String → ℤ → S → ℤ × S
  pub pexpireat : String → ℤ → S → ℤ × S
  pub pttl : String → S → ℤ
  pub time : S → ℕ × ℕ
  pub zremrangebyscore : String → ℤ → S → S
  pub zscore : String → String → S → Option ℤ
  pub zadd : String → ℤ → String → S → S
  pub zcard : String → S → ℤ
  pub zlast : String → S → Option (String × ℤ)
  pub zrem : String → String → S → ℤ × S
  pub tonumber : String → Option ℤ

-- A script runs as one command: no other command runs meanwhile.
abbrev pub Script : Type 0 → Type 0
Script S = S → Result Reply × S

-- The client's calls. A key that is missing is `ok none`, as redislib.Nil is told apart by the
-- code.
pub record Client (S W : Type 0) : Type 0 where
  pub eval : Script S → W → Result Reply × W
  pub get : String → W → Result (Option String) × W
  pub set : String → String → Duration → W → Option Error × W
  pub set_nx : String → String → Duration → W → Result Bool × W
  pub del : List String → W → Option Error × W
  pub publish : String → String → W → Option Error × W
  pub ping : W → Option Error × W

module _ {S : Type 0} (srv : Server S) where
  -- tonumber(redis.call('GET', k) or '0')
  abbrev pub number : String → S → Option ℤ
  number k s = elim (srv.get k s) [ none ↦ srv.tonumber "0" | some text ↦ srv.tonumber text ]

  -- The time of the server in milliseconds, from the two parts of TIME, as the script adds them.
  abbrev pub now_of : S → ℕ
  now_of s = (srv.time s).0 * 1_000 + (srv.time s).1 / 1_000

  -- A counter below 2^53, which a double holds exactly.
  pub record IsCounting : Type 0 where
    pub zero_number : srv.tonumber "0" ≡ some (pos 0)
    pub incrby_answer :
        (k : String) (n d : ℕ) (s : S)
        → number k s ≡ some (pos n)
        → n + d < 2 ^ 53
        → (srv.incrby k (pos d) s).0 ≡ ok (pos (n + d))
    pub incrby_number :
        (k j : String) (n d : ℕ) (s : S)
        → number k s ≡ some (pos n)
        → n + d < 2 ^ 53
        → number j (srv.incrby k (pos d) s).1 ≡ (if k == j then some (pos (n + d)) else number j s)
    pub decr_answer :
        (k : String) (n : ℕ) (s : S)
        → number k s ≡ some (pos (n + 1))
        → (srv.incrby k (negsuc 0) s).0 ≡ ok (pos n)
    pub decr_number :
        (k j : String) (n : ℕ) (s : S)
        → number k s ≡ some (pos (n + 1))
        → number j (srv.incrby k (negsuc 0) s).1 ≡ (if k == j then some (pos n) else number j s)
    pub del_number :
        (k j : String) (s : S)
        → number j (srv.del k s).1 ≡ (if k == j then some (pos 0) else number j s)
    -- A positive time to live leaves the values.
    pub pexpire_number :
        (k j : String) (ttl : ℤ) (s : S)
        → pos 0 <ℤ ttl
        → number j (srv.pexpire k ttl s).1 ≡ number j s

-- The sorted sets, which `members` reads off the state as a map from members to scores. Time stands
-- still while a script runs. An expiry that has passed deletes the key.
pub record IsRanking {S : Type 0} (srv : Server S) (members : String → S → Map ℤ) : Type 0 where
  pub distinct : (k : String) (s : S) → Distinct (members k s)
  pub zscore_lookup : (k m : String) (s : S) → srv.zscore k m s ≡ lookup m (members k s)
  pub zcard_length : (k : String) (s : S) → srv.zcard k s ≡ pos (length (members k s))
  pub zadd_members :
      (k m : String) (score : ℤ) (s : S)
      → members k (srv.zadd k score m s) ≡ insert m score (members k s)
  pub zadd_time : (k m : String) (score : ℤ) (s : S) → srv.time (srv.zadd k score m s) ≡ srv.time s
  pub zremrangebyscore_members :
      (k : String) (top : ℤ) (s : S)
      → members k (srv.zremrangebyscore k top s)
        ≡ delete_if (λ m score. leb_ℤ score top) (members k s)
  pub zremrangebyscore_time :
      (k : String) (top : ℤ) (s : S) → srv.time (srv.zremrangebyscore k top s) ≡ srv.time s
  pub zrem_members : (k m : String) (s : S) → members k (srv.zrem k m s).1 ≡ delete m (members k s)
  pub zrem_time : (k m : String) (s : S) → srv.time (srv.zrem k m s).1 ≡ srv.time s
  pub zlast_none : (k : String) (s : S) → srv.zlast k s ≡ none → members k s ≡ []
  pub zlast_top :
      (k m : String) (latest : String × ℤ) (score : ℤ) (s : S)
      → srv.zlast k s ≡ some latest
      → lookup m (members k s) ≡ some score
      → score ≤ℤ latest.1
  pub pexpireat_members :
      (k : String) (t : ℤ) (s : S)
      → pos (now_of srv s) <ℤ t
      → members k (srv.pexpireat k t s).1 ≡ members k s
  pub pexpireat_past :
      (k : String) (t : ℤ) (s : S)
      → t ≤ℤ pos (now_of srv s)
      → members k (srv.pexpireat k t s).1 ≡ []
  pub del_members : (k : String) (s : S) → members k (srv.del k s).1 ≡ []

-- Texts under keys, and Lua's reading of an int64 in decimal, which is rounded to a double: `round`
-- does not turn the order around.
pub record IsRounding {S : Type 0} (srv : Server S) (text_of : ℤ → String) (round : ℕ → ℕ)
    : Type 0 where
  pub tonumber_text : (n : ℕ) → n < 2 ^ 63 → srv.tonumber (text_of (pos n)) ≡ some (pos (round n))
  pub round_mono : (m n : ℕ) → m ≤ n → round m ≤ round n
  pub set_get : (k text : String) (s : S) → srv.get k (srv.set k text s) ≡ some text
  pub set_time : (k text : String) (s : S) → srv.time (srv.set k text s) ≡ srv.time s
  pub pexpireat_get :
      (k : String) (t : ℤ) (s : S)
      → pos (now_of srv s) <ℤ t
      → srv.get k (srv.pexpireat k t s).1 ≡ srv.get k s

-- The state that some runs of a script, one after another, leave.
abbrev pub after_runs : {S : Type 0} → Script S → ℕ → S → S
after_runs script zero s = s
after_runs script (suc runs) s = (script (after_runs script runs s)).1

-- The client carries a script to the server, whose state `server` reads off the world, and tries
-- again where no reply reaches it, with nothing else in between: the answer is that of the last
-- run, after runs whose replies were lost; or it is an error, whatever number of runs there were.
pub record Delivers {S W : Type 0} (client : Client S W) (server : W → S) : Type 0 where
  pub eval_outcome :
      (script : Script S) (w : W)
      → ((lost : ℕ) × ((client.eval script w).0 ≡ (script (after_runs script lost (server w))).0)
          × (server (client.eval script w).1 ≡ after_runs script (suc lost) (server w)))
        ⊎ ((e : Error) × (runs : ℕ) × ((client.eval script w).0 ≡ err e)
            × (server (client.eval script w).1 ≡ after_runs script runs (server w)))
