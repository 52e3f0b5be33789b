-- ===== src/Domain.antt =====
-- internal/domain/types.go: the types that the modelled components share. An instant (time.Time) is
-- the number of nanoseconds since Go's zero time, and a duration is an integer of nanoseconds.
use grok_go.Base.{
  ℕ, ◌+◌, ◌-◌, ◌≡◌, String, Bool, true, false, Option, List, arith, ltb, eqb, leb, if◌then◌else◌,
}
use grok_go.Base.Int.{ℤ, pos, negsuc, pos_part, neg_part}

abbrev pub Time : Type 0
Time = ℕ

abbrev pub Duration : Type 0
Duration = ℤ

-- time.Time{}, t.IsZero(), t.After(u), t.Before(u).
abbrev pub zero_time : Time
zero_time = 0

abbrev pub is_zero : Time → Bool
is_zero t = eqb t 0

abbrev pub after : Time → Time → Bool
after t u = ltb u t

-- t.Add(d). Instants before Go's zero time do not occur.
abbrev pub add_time : Time → Duration → Time
add_time t d = t + pos_part d - neg_part d

-- t.Sub(u), which Go clamps to the range of an `int64`.
abbrev pub max_duration : ℕ
max_duration = 0x7fffffffffffffff

unfoldable pub sub_time : Time → Time → Duration
sub_time t u =
    if leb u t
    then pos (if ltb max_duration (t - u) then max_duration else t - u)
    else negsuc (if ltb max_duration (u - t - 1) then max_duration else u - t - 1)

abbrev pub second : ℕ
second = 1_000_000_000

abbrev pub minute : ℕ
minute = 60_000_000_000

abbrev pub hour : ℕ
hour = 3_600_000_000_000

pub data CredentialKind : Type 0 where
  cli_oauth console_sso grok_sso : CredentialKind

abbrev pub kind_eq : CredentialKind → CredentialKind → Bool
kind_eq cli_oauth cli_oauth = true
kind_eq console_sso console_sso = true
kind_eq grok_sso grok_sso = true
kind_eq _ _ = false

pub data AccountStatus : Type 0 where
  active cooldown expired disabled error : AccountStatus

abbrev pub status_eq : AccountStatus → AccountStatus → Bool
status_eq active active = true
status_eq cooldown cooldown = true
status_eq expired expired = true
status_eq disabled disabled = true
status_eq error error = true
status_eq _ _ = false

pub data Capability : Type 0 where
  chat responses messages image image_edit video : Capability

abbrev pub capability_eq : Capability → Capability → Bool
capability_eq chat chat = true
capability_eq responses responses = true
capability_eq messages messages = true
capability_eq image image = true
capability_eq image_edit image_edit = true
capability_eq video video = true
capability_eq _ _ = false

pub record Credentials : Type 0 where
  pub access_token : String
  pub refresh_token : String
  pub id_token : String
  pub token_type : String
  pub expires_at : Time
  pub client_id : String
  pub scope : String
  pub sso : String
  pub sso_rw : String
  pub user_id : String
  pub cf_clearance : String
  pub user_agent : String
  pub base_url : String
  pub email : String
  pub subscription : String
  pub entitlement : String

pub record QuotaSnapshot : Type 0 where
  pub requests_limit : ℤ
  pub requests_remaining : ℤ
  pub requests_unlimited : Bool
  pub tokens_limit : ℤ
  pub tokens_remaining : ℤ
  pub tokens_unlimited : Bool
  pub reset_at : Option Time
  pub observed_at : Time

-- The columns of an account that the pool carries along and never reads.
pub record AccountDetails : Type 0 where
  pub name : String
  pub email : String
  pub credential_expires_at : Option Time
  pub proxy_id : String
  pub tags : List String
  pub created_at : Time
  pub updated_at : Time

-- `F` is the type of float64 values.
pub record Account (F : Type 0) : Type 0 where
  pub id : String
  pub kind : CredentialKind
  pub tier : String
  pub status : AccountStatus
  pub credential_cipher : List ℕ
  pub credential_fingerprint : List ℕ
  pub models : List String
  pub priority : ℤ
  pub concurrency_limit : ℤ
  pub health_score : F
  pub failure_count : ℤ
  pub quota : QuotaSnapshot
  pub cooldown_until : Option Time
  pub last_used_at : Option Time
  pub last_error : String
  pub details : AccountDetails

pub record ModelSpec : Type 0 where
  pub id : String
  pub upstream_model : String
  pub display_name : String
  pub capability : Capability
  pub credential_kinds : List CredentialKind
  pub minimum_tier : String
  pub aliases : List String
  pub prefer_best : Bool
  pub catalog_managed : Bool
  pub enabled : Bool
  pub created_at : Time
  pub updated_at : Time

pub record ClientKey : Type 0 where
  pub id : String
  pub name : String
  pub prefix : String
  pub digest : List ℕ
  pub secret_cipher : List ℕ
  pub secret_available : Bool
  pub enabled : Bool
  pub rpm : ℤ
  pub concurrency_limit : ℤ
  pub daily_request_limit : ℤ
  pub monthly_token_limit : ℤ
  pub last_used_at : Option Time
  pub expires_at : Option Time
  pub created_at : Time
  pub updated_at : Time

pub status_eq_iff : (a b : AccountStatus) → status_eq a b ≡ true → a ≡ b
status_eq_iff a b h = ground arith
