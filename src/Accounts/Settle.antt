-- ===== src/Accounts/Settle.antt =====
-- internal/accounts/pool.go: the part of `release` that holds the lock.
pub mod Counters
pub mod Health
pub mod Recovery
pub mod Bounds
pub mod Steady
use grok_go.Base.{
  ℕ, ◌-◌, ◌||◌, ◌&&◌, not, String, Bool, true, false, Option, none, some, List, [], ◌∷◌, ◌==◌, leb,
  ltb, is_some, if◌then◌else◌, ◌*◌,
}
use grok_go.Base.Int.{ℤ, pos, leb_ℤ}
use grok_go.Base.Map.{Map, lookup, insert}
use grok_go.Base.Float.{Float}
use grok_go.Base.Result.{Error, join_errors}
use grok_go.Base.Text.{codes_eq}
use grok_go.Domain.{
  Time, Account, active, status_eq, after, is_zero, zero_time, add_time, sub_time, second,
}
use grok_go.Accounts.Policy.{Policy, cooldown_of}
use grok_go.Accounts.Quota.{quota_unavailable_until}
use grok_go.Accounts.Affinity.{clear_local_affinity}
use grok_go.Accounts.Pool.{
  Pool, System, RuntimeState, Lease, Feedback, Coordinator, CoordinationLease,
}
use grok_go.Accounts.Reload.{reload}
use grok_go.Accounts.Feedback.{Outcome, judge, decide, later, is_terminal_account_status}

module _ {F : Type 0} where
  -- state.inflight--, unless it is zero already.
  unfoldable pub end_request : RuntimeState F → RuntimeState F
  end_request s = record s { inflight = if ltb 0 s.inflight then s.inflight - 1 else s.inflight }

  -- The credentials of the account were replaced while the request ran.
  unfoldable pub credentials_changed : Account F → Account F → Bool
  credentials_changed now_held leased =
      not (codes_eq now_held.credential_cipher leased.credential_cipher)
      || not (codes_eq now_held.credential_fingerprint leased.credential_fingerprint)

  unfoldable pub needs_touch : RuntimeState F → Time → Bool
  needs_touch s now =
      is_zero s.last_used_persisted
      || leb_ℤ (pos (30 * second)) (sub_time now s.last_used_persisted)

  quota_until : Policy → Account F → Time → Time
  quota_until policy account now =
      quota_unavailable_until account.quota now (cooldown_of policy account.kind)

  -- The branch for replaced credentials: is the account unavailable, and until when.
  unfoldable pub is_unavailable : Policy → RuntimeState F → Time → Bool
  unfolding quota_until
  is_unavailable policy s now =
      not (status_eq s.account.status active)
      || after s.cooldown_till now
      || after (quota_until policy s.account now) now

  unfoldable pub coordinated_until : Policy → RuntimeState F → Time → Time
  unfolding quota_until
  coordinated_until policy s now =
      let until = later s.cooldown_till (quota_until policy s.account now) in
      if is_terminal_account_status s.account.status && not (after until now)
      then add_time now policy.forbidden_cooldown
      else until

  unfoldable pub clear_binding : {W : Type 0} → Bool → Lease F → Pool F W → Pool F W
  clear_binding clear lease p =
      if clear
      then record p {
        affinities =
            clear_local_affinity lease.affinity_model lease.affinity_key lease.account.id
              p.affinities;
      }
      else p

-- What the locked part of `release` leaves to be done without the lock.
pub record Settled (F W : Type 0) : Type 0 where
  pub pool : Pool F W
  pub to_update : Option (Account F)
  pub publish_change : Bool
  pub invalidate_affinity : Bool
  pub cooldown_until : Time

module _ {F : Type 0} where
  -- The state of the account after the request, and the account as it is persisted.
  unfoldable pub settled_account : Outcome F → Account F
  settled_account o = record o.account { health_score = o.health; failure_count = o.failures }

  unfoldable pub settled_state : RuntimeState F → Time → Outcome F → RuntimeState F
  unfolding settled_account needs_touch
  settled_state s now o = record s {
    account = settled_account o;
    health = o.health;
    failures = o.failures;
    cooldown_till = o.cooldown_till;
    last_used_persisted = if needs_touch s now then now else s.last_used_persisted;
  }

module _ {F : Type 0} (fl : Float F) where
  -- The outcome before the switch: the time of use and the reported quota are noted.
  unfoldable pub observed : RuntimeState F → Time → Feedback → Outcome F
  unfolding needs_touch
  observed s now f = record {
    health = s.health;
    failures = s.failures;
    cooldown_till = s.cooldown_till;
    account = elim f.quota [ none ↦ s.account | some q ↦ record s.account { quota = q } ];
    persist = needs_touch s now || is_some f.quota;
    publish_change = is_some f.quota;
    invalidate_affinity = false;
    cooldown_until = zero_time;
  }

  unfoldable pub outcome_of : Policy → Time → RuntimeState F → Lease F → Feedback → Outcome F
  unfolding observed
  outcome_of policy now s lease f =
      let o = observed s now f in
      decide fl policy now s o.account f o (judge policy now lease.account.status s o.account f)

  -- The locked part, for an account of the pool whose credentials are the leased ones.
  unfoldable pub settle_known :
      {W : Type 0} → Pool F W → Time → RuntimeState F → Lease F → Feedback → Settled F W
  settle_known p now s lease f =
      let o = outcome_of p.policy now s lease f in
      let p' = record p { states = insert lease.account.id (settled_state s now o) p.states } in
      record {
        pool = clear_binding o.invalidate_affinity lease p';
        to_update = if o.persist then some (settled_account o) else none;
        publish_change = o.publish_change;
        invalidate_affinity = o.invalidate_affinity;
        cooldown_until = o.cooldown_until;
      }

  -- The same, for an account that has left the pool.
  unfoldable pub settle_missing : {W : Type 0} → Pool F W → Lease F → Settled F W
  unfolding clear_binding
  settle_missing p lease = record {
    pool = clear_binding true lease p;
    to_update = none;
    publish_change = false;
    invalidate_affinity = true;
    cooldown_until = zero_time;
  }

-- How the locked part ends: `replaced` is the early return for replaced credentials, with the state
-- of the account; `finished` goes on to the effects.
pub data Settlement (F W : Type 0) : Type 0 where
  replaced : RuntimeState F → Pool F W → Settlement F W
  finished : Settled F W → Settlement F W

module _ {F W : Type 0} where
  abbrev pub pool_after : Settlement F W → Pool F W
  pool_after (replaced s p) = p
  pool_after (finished t) = t.pool

module _ {F W : Type 0} (fl : Float F) where
  unfoldable pub settle_found :
      Pool F W → Time → RuntimeState F → Lease F → Feedback → Settlement F W
  settle_found p now before lease f =
      let s = end_request before in
      if credentials_changed s.account lease.account
      then replaced s (
          clear_binding (is_unavailable p.policy s now) lease
            (record p { states = insert lease.account.id s p.states }))
      else finished (settle_known fl p now s lease f)

  unfoldable pub settle : Pool F W → Time → Lease F → Feedback → Settlement F W
  settle p now lease f = elim (lookup lease.account.id p.states) [
    | none ↦ finished (settle_missing fl p lease)
    | some before ↦ settle_found p now before lease f
  ]
