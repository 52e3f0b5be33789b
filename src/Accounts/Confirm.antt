-- ===== src/Accounts/Confirm.antt =====
-- internal/accounts/pool.go: the part of a round of Acquire that runs without the lock.
pub mod Balance
use grok_go.Base.{◌&&◌, not, String, Bool, false, Option, none, some, [], ◌∷◌, ◌==◌, if◌then◌else◌}
use grok_go.Base.Result.{Error, Result, ok, err, wrap, join}
use grok_go.Domain.{Time, Account, Credentials, zero_time}
use grok_go.Accounts.Affinity.{clear_local_affinity, record_affinity}
use grok_go.Accounts.Pool.{System, Selection, Coordinator, CoordinationLease, Lease}
use grok_go.Accounts.Select.{limit_of}
use grok_go.Accounts.Release.{return_lease}
use grok_go.Accounts.Reserve.{Attempt, rollback}

-- How a round ends: with a result, or with another round.
pub data Step (F W : Type 0) : Type 0 where
  done : Result (Lease F) → System F W → Step F W
  again : Attempt → System F W → Step F W

-- What the rest of a round knows: the account that it reserved, and the conversation's binding.
pub record Reservation (F : Type 0) : Type 0 where
  pub account : Account F
  pub now : Time
  pub use_affinity : Bool
  pub preferred : String
  pub reused : Bool
  pub preserve : Bool

abbrev pub exclude : Attempt → String → Attempt
exclude a id = record a { excluded = id ∷ a.excluded }

abbrev pub first_attempt : Selection → String → Attempt
first_attempt sel coordinated = record {
  coordinated = coordinated;
  excluded = sel.exclude_ids;
  capacity_excluded = [];
}

module _ {F : Type 0} where
  unfoldable pub lease_of :
      Selection → Reservation F → Credentials → Option CoordinationLease → Bool → Lease F
  lease_of sel r credentials lease established = record {
    account = r.account;
    credentials = credentials;
    cache_identity_applied = r.use_affinity;
    affinity_reused = r.reused;
    cache_affinity_established = established;
    coordination = lease;
    affinity_model = if r.use_affinity then sel.model.id else "";
    affinity_key = if r.use_affinity then sel.affinity_key else "";
  }

module _ {F W : Type 0} where
  unfoldable pub roll_back : String → Time → System F W → System F W
  roll_back id until s = record s { pool = rollback id until s.pool }

  -- A round that fails after the reservation: it is given back, and the coordinated lease too.
  -- `wrapped` is what fmt.Errorf makes of the joined errors.
  unfoldable pub fail :
      Reservation F → Option CoordinationLease → (Error → Error) → Error → System F W → Step F W
  fail r lease wrapped e s =
      let (released, s') = return_lease lease (roll_back r.account.id zero_time s) in
      elim released [
        | none ↦ done (err (wrapped e)) s'
        | some e' ↦ done (err (wrapped (join e e'))) s'
      ]

  abbrev pub recorded : Selection → Reservation F → String → System F W → System F W
  recorded sel r id s = record s {
    pool = record s.pool {
      affinities =
          record_affinity s.pool.policy sel.model.id sel.affinity_key id r.now s.pool.affinities;
    };
  }

  -- The last part of a round: the conversation is bound to the account.
  unfoldable pub bind :
      Selection → Reservation F → Credentials → Option CoordinationLease → System F W → Step F W
  unfolding fail lease_of
  bind sel r credentials lease s =
      if not r.use_affinity
      then done (ok (lease_of sel r credentials lease false)) s
      else elim s.pool.coordinator [
        | none ↦
            let id = if r.preserve then r.preferred else r.account.id in
            done (ok (lease_of sel r credentials lease (id == r.account.id && not r.reused)))
              (recorded sel r id s)
        | some c ↦
            let (bound, w) =
              c.bind_affinity sel.model.id sel.affinity_key r.account.id s.pool.policy.affinity_ttl
                s.world in
            let s' = record s { world = w } in
            elim bound [
              | err e ↦ fail r lease (λ x. x) (wrap "bind coordinated account affinity" e) s'
              | ok (resolved, established) ↦
                  done
                    (ok
                      (lease_of sel r credentials lease (established && resolved == r.account.id)))
                    (recorded sel r resolved s')
            ]
      ]

  -- A coordinated binding to another account is cleared first, unless that account is only full.
  unfoldable pub unbind_then_bind :
      Selection
      → Attempt
      → Reservation F
      → Credentials
      → Option CoordinationLease
      → System F W
      → Step F W
  unfolding bind
  unbind_then_bind sel a r credentials lease s = elim s.pool.coordinator [
    | none ↦ bind sel r credentials lease s
    | some c ↦
        if not (a.coordinated == "") && not (r.account.id == a.coordinated) && not r.preserve
        then (let (failed, w) =
              c.clear_affinity sel.model.id sel.affinity_key a.coordinated s.world in
            let s' = record s { world = w } in
            elim failed [
              | some e ↦ fail r lease (λ x. wrap "clear stale account affinity" x) e s'
              | none ↦ bind sel r credentials lease s'
            ])
        else bind sel r credentials lease s
  ]

  unfoldable pub with_credentials :
      Selection → Attempt → Reservation F → Option CoordinationLease → System F W → Step F W
  unfolding unbind_then_bind
  with_credentials sel a r lease s =
      let (found, w) = s.pool.store.credentials r.account.id s.world in
      let s' = record s { world = w } in
      elim found [
        | err e ↦ fail r lease (λ x. x) e s'
        | ok credentials ↦ unbind_then_bind sel a r credentials lease s'
      ]

  -- The coordinator says that the account is cooling down.
  unfoldable pub cooling_down :
      Selection → Attempt → Reservation F → Coordinator W → Time → System F W → Step F W
  cooling_down sel a r c until s =
      let s1 = roll_back r.account.id until s in
      let a1 = exclude a r.account.id in
      if not (a.coordinated == "") && r.account.id == a.coordinated
      then (let local =
            clear_local_affinity sel.model.id sel.affinity_key a.coordinated s1.pool.affinities in
          let (failed, w) = c.clear_affinity sel.model.id sel.affinity_key a.coordinated s1.world in
          let s2 : System F W = record {
            pool = record s1.pool { affinities = local };
            world = w;
          } in
          elim failed [
            | some e ↦ done (err (wrap "clear cooling account affinity" e)) s2
            | none ↦ again (record a1 { coordinated = "" }) s2
          ])
      else again a1 s1

  -- The coordinated slot of the account.
  unfoldable pub take_slot :
      Selection → Attempt → Reservation F → Coordinator W → System F W → Step F W
  unfolding with_credentials
  take_slot sel a r c s =
      let (taken, w) =
        c.acquire_lease r.account.id (limit_of s.pool.policy r.account) s.pool.policy.lease_ttl
          s.world in
      let s' = record s { world = w } in
      elim taken [
        | err e ↦
            done (err (wrap "acquire coordinated account lease" e))
              (roll_back r.account.id zero_time s')
        | ok none ↦
            again
              (record a {
                excluded = r.account.id ∷ a.excluded;
                capacity_excluded = r.account.id ∷ a.capacity_excluded;
              })
              (roll_back r.account.id zero_time s')
        | ok (some lease) ↦ with_credentials sel a r (some lease) s'
      ]

  -- The part of a round after the lock is given up.
  unfoldable pub confirm : Selection → Attempt → Reservation F → System F W → Step F W
  unfolding take_slot cooling_down
  confirm sel a r s = elim s.pool.coordinator [
    | none ↦ with_credentials sel a r none s
    | some c ↦
        let (cooling, w) = c.cooldown_until r.account.id s.world in
        let s' = record s { world = w } in
        elim cooling [
          | err e ↦
              done (err (wrap "read coordinated account cooldown" e))
                (roll_back r.account.id zero_time s')
          | ok (some until) ↦ cooling_down sel a r c until s'
          | ok none ↦ take_slot sel a r c s'
        ]
  ]

  -- A stale binding is cleared at the coordinator too, and another round begins.
  unfoldable pub drop_stale : Selection → Attempt → String → System F W → Step F W
  drop_stale sel a stale s = elim s.pool.coordinator [
    | none ↦ again a s
    | some c ↦
        if a.coordinated == stale
        then (let (failed, w) = c.clear_affinity sel.model.id sel.affinity_key stale s.world in
            let s' = record s { world = w } in
            elim failed [
              | some e ↦ done (err (wrap "clear unavailable account affinity" e)) s'
              | none ↦ again (record a { coordinated = "" }) s'
            ])
        else again a s
  ]
