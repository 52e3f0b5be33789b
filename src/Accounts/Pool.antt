-- ===== src/Accounts/Pool.antt =====
-- internal/accounts/pool.go: the state of the pool, and what it asks of its store and coordinator.
-- `W` is the state of everything outside the pool; each call returns it anew. `F` is float64.
use grok_go.Base.{ℕ, String, Bool, Option, List}
use grok_go.Base.Int.{ℤ}
use grok_go.Base.Map.{Map}
use grok_go.Base.Result.{Error, Result}
use grok_go.Domain.{Time, Duration, Account, Credentials, ModelSpec, QuotaSnapshot}
use grok_go.Accounts.Policy.{Policy}

pub record CoordinationLease : Type 0 where
  pub account_id : String
  pub slot : ℤ
  pub owner : String

pub record Store (F W : Type 0) : Type 0 where
  pub list_accounts : W → Result (List (Account F)) × W
  pub credentials : String → W → Result Credentials × W
  pub update_account : Account F → W → Option Error × W

pub record Coordinator (W : Type 0) : Type 0 where
  pub acquire_lease : String → ℤ → Duration → W → Result (Option CoordinationLease) × W
  pub release_lease : CoordinationLease → W → Option Error × W
  pub get_affinity : String → String → W → Result (Option String) × W
  pub bind_affinity : String → String → String → Duration → W → Result (String × Bool) × W
  pub clear_affinity : String → String → String → W → Option Error × W
  pub cooldown_until : String → W → Result (Option Time) × W
  pub set_cooldown : String → Time → W → Option Error × W
  pub clear_cooldown : String → W → Option Error × W

pub record Selection : Type 0 where
  pub model : ModelSpec
  pub affinity_key : String
  pub exclude_ids : List String

-- A request that failed with context.DeadlineExceeded or context.Canceled, or otherwise.
pub data RequestError : Type 0 where
  deadline_exceeded canceled transport : RequestError

pub record Feedback : Type 0 where
  pub status_code : ℕ
  pub retry_after : Duration
  pub quota : Option QuotaSnapshot
  pub request_error : Option RequestError

pub record RuntimeState (F : Type 0) : Type 0 where
  pub account : Account F
  pub inflight : ℕ
  pub health : F
  pub failures : ℤ
  pub cooldown_till : Time
  pub last_used_persisted : Time

pub record AffinityEntry : Type 0 where
  pub account_id : String
  pub expires_at : Time
  pub used_at : Time

-- `loaded`, `states`, `affinities` and `round_robin` are what the mutex guards. A nil coordinator
-- or notifier is `none`.
pub record Pool (F W : Type 0) : Type 0 where
  pub store : Store F W
  pub policy : Policy
  pub coordinator : Option (Coordinator W)
  pub now : W → Time × W
  pub loaded : Bool
  pub states : Map (RuntimeState F)
  pub affinities : Map AffinityEntry
  pub round_robin : Map ℕ
  pub notifier : Option (W → Option Error × W)

-- The pool and the world beside it, which a method reads and changes.
pub record System (F W : Type 0) : Type 0 where
  pub pool : Pool F W
  pub world : W

pub record Lease (F : Type 0) : Type 0 where
  pub account : Account F
  pub credentials : Credentials
  pub cache_identity_applied : Bool
  pub affinity_reused : Bool
  pub cache_affinity_established : Bool
  pub coordination : Option CoordinationLease
  pub affinity_model : String
  pub affinity_key : String
