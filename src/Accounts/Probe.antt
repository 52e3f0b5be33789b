-- ===== src/Accounts/Probe.antt =====
-- internal/accounts/probe.go: a lease on a given account for an administrative probe, whatever its
-- status and its cooldown.
pub mod Balance
use grok_go.Base.{◌==◌, not, String, Bool, false, Option, none, some, if◌then◌else◌}
use grok_go.Base.Float.{Float}
use grok_go.Base.Int.{pos, leb_ℤ}
use grok_go.Base.Map.{lookup}
use grok_go.Base.Result.{Error, Result, ok, err, no_account, account_busy, join_errors, join}
use grok_go.Base.Text.{trim_space}
use grok_go.Domain.{Account, Credentials, zero_time}
use grok_go.Accounts.Pool.{CoordinationLease, Lease, System}
use grok_go.Accounts.Select.{limit_of}
use grok_go.Accounts.Reload.{ensure_loaded}
use grok_go.Accounts.Release.{return_lease}
use grok_go.Accounts.Reserve.{reserve, reserved}
use grok_go.Accounts.Confirm.{roll_back}

module _ {F : Type 0} where
  unfoldable pub probe_lease : Account F → Credentials → Option CoordinationLease → Lease F
  probe_lease account credentials lease = record {
    account = account;
    credentials = credentials;
    cache_identity_applied = false;
    affinity_reused = false;
    cache_affinity_established = false;
    coordination = lease;
    affinity_model = "";
    affinity_key = "";
  }

module _ {F W : Type 0} where
  -- The reservation is given back, and the coordinated lease too.
  unfoldable pub abandon :
      Account F → Option CoordinationLease → Error → System F W → Result (Lease F) × System F W
  abandon account lease e s =
      let (released, s') = return_lease lease (roll_back account.id zero_time s) in
      elim released [ none ↦ (err e, s') | some e' ↦ (err (join e e'), s') ]

  unfoldable pub probe_credentials :
      Account F → Option CoordinationLease → System F W → Result (Lease F) × System F W
  unfolding abandon probe_lease
  probe_credentials account lease s =
      let (found, w) = s.pool.store.credentials account.id s.world in
      let s' = record s { world = w } in
      elim found [
        | err e ↦ abandon account lease e s'
        | ok credentials ↦ (ok (probe_lease account credentials lease), s')
      ]

  -- The part of AcquireForProbe after the lock.
  unfoldable pub probe_reserved : Account F → System F W → Result (Lease F) × System F W
  unfolding probe_credentials
  probe_reserved account s = elim s.pool.coordinator [
    | none ↦ probe_credentials account none s
    | some c ↦
        let (taken, w) =
          c.acquire_lease account.id (limit_of s.pool.policy account) s.pool.policy.lease_ttl
            s.world in
        let s' = record s { world = w } in
        elim taken [
          | err e ↦ (err e, roll_back account.id zero_time s')
          | ok none ↦ (err account_busy, roll_back account.id zero_time s')
          | ok (some lease) ↦ probe_credentials account (some lease) s'
        ]
  ]

  unfoldable pub probe_loaded : String → System F W → Result (Lease F) × System F W
  unfolding probe_reserved reserve reserved
  probe_loaded id s =
      let (now, w) = s.pool.now s.world in
      elim (lookup id s.pool.states) [
        | none ↦ (err no_account, record s { world = w })
        | some state ↦
            if leb_ℤ (limit_of s.pool.policy state.account) (pos state.inflight)
            then (err account_busy, record s { world = w })
            else probe_reserved (reserved state now).account
                (record { pool = reserve id state now s.pool; world = w })
      ]

module _ {F W : Type 0} (fl : Float F) where
  -- Pool.AcquireForProbe.
  unfoldable pub acquire_for_probe :
      Option Error → String → System F W → Result (Lease F) × System F W
  unfolding probe_loaded
  acquire_for_probe cancelled account_id s =
      let id = trim_space account_id in
      if id == ""
      then (err no_account, s)
      else (let (failed, s') = ensure_loaded fl cancelled s in
          elim failed [ some e ↦ (err e, s') | none ↦ probe_loaded id s' ])
