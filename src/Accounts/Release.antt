-- ===== src/Accounts/Release.antt =====
-- internal/accounts/pool.go: returning a lease, with its effects on the coordinator and the store.
pub mod Returns
use grok_go.Base.{◌&&◌, not, String, Bool, Option, none, some, ◌==◌, if◌then◌else◌}
use grok_go.Base.Float.{Float}
use grok_go.Base.Result.{Error, join_errors}
use grok_go.Domain.{Time, Account, after, is_zero}
use grok_go.Accounts.Policy.{Policy}
use grok_go.Accounts.Pool.{System, RuntimeState, Lease, Feedback, Coordinator, CoordinationLease}
use grok_go.Accounts.Reload.{reload}
use grok_go.Accounts.Settle.{settle, replaced, finished, Settled, is_unavailable, coordinated_until}

-- Effects whose errors are joined, as `release` joins them.
abbrev pub Effect : Type 0 → Type 0 → Type 0
Effect F W = System F W → Option Error × System F W

module _ {F W : Type 0} where
  infixl 20 ◌also◌
  abbrev pub ◌also◌ : Effect F W → Effect F W → Effect F W
  ◌also◌ m n s = let (d, s') = m s in let (e, s'') = n s' in (join_errors d e, s'')

  abbrev pub skip : Effect F W
  skip s = (none, s)

  -- A call of the coordinator, if the pool has one.
  unfoldable pub coordinate : (Coordinator W → W → Option Error × W) → Effect F W
  coordinate call s = elim s.pool.coordinator [
    | none ↦ (none, s)
    | some c ↦ let (e, w) = call c s.world in (e, record s { world = w })
  ]

  unfoldable pub set_cooldown : Bool → String → Time → Effect F W
  unfolding coordinate
  set_cooldown wanted id until = if wanted then coordinate (λ c. c.set_cooldown id until) else skip

  unfoldable pub clear_affinity : Bool → Lease F → Effect F W
  unfolding coordinate
  clear_affinity wanted lease =
      if wanted && not (lease.affinity_model == "") && not (lease.affinity_key == "")
      then coordinate
          (λ c. c.clear_affinity lease.affinity_model lease.affinity_key lease.account.id)
      else skip

  unfoldable pub return_lease : Option CoordinationLease → Effect F W
  unfolding coordinate
  return_lease none = skip
  return_lease (some l) = coordinate (λ c. c.release_lease l)

  unfoldable pub notify : Effect F W
  notify s = elim s.pool.notifier [
    | none ↦ (none, s)
    | some tell ↦ let (e, w) = tell s.world in (e, record s { world = w })
  ]

module _ {F W : Type 0} (fl : Float F) where
  -- Persisting the account; peers are told once the pool has been reloaded.
  unfoldable pub persist_account : Option Error → Bool → Option (Account F) → Effect F W
  unfolding notify
  persist_account cancelled publish none s = (none, s)
  persist_account cancelled publish (some account) s =
      let (failed, w) = s.pool.store.update_account account s.world in
      let updated = record s { world = w } in
      elim failed [
        | some e ↦ (some e, updated)
        | none ↦
            if not publish
            then (none, updated)
            else (let (reloaded, s') = reload fl cancelled updated in
                elim reloaded [ some e ↦ (some e, s') | none ↦ notify s' ])
      ]

  unfoldable pub finish : Option Error → Lease F → Settled F W → Effect F W
  unfolding persist_account set_cooldown clear_affinity return_lease
  finish cancelled lease t =
      set_cooldown (not (is_zero t.cooldown_until)) lease.account.id t.cooldown_until
      also clear_affinity t.invalidate_affinity lease
      also persist_account cancelled t.publish_change t.to_update
      also return_lease lease.coordination

  -- The early return for replaced credentials.
  unfoldable pub finish_replaced : Policy → Time → RuntimeState F → Lease F → Effect F W
  unfolding set_cooldown clear_affinity return_lease
  finish_replaced policy now s lease =
      let unavailable = is_unavailable policy s now in
      let until = coordinated_until policy s now in
      set_cooldown (unavailable && after until now) lease.account.id until
      also clear_affinity unavailable lease
      also return_lease lease.coordination

  -- Pool.release.
  unfoldable pub release : Option Error → Lease F → Feedback → Effect F W
  unfolding finish finish_replaced
  release cancelled lease f sys =
      let (now, w) = sys.pool.now sys.world in
      elim (settle fl sys.pool now lease f) [
        | replaced s p ↦ finish_replaced p.policy now s lease (record { pool = p; world = w })
        | finished t ↦ finish cancelled lease t (record { pool = t.pool; world = w })
      ]

-- A lease with what sync.Once keeps: the error of the first release.
pub record Handle (F : Type 0) : Type 0 where
  pub lease : Lease F
  pub released : Option (Option Error)

-- Lease.Release: later calls return what the first one did.
unfoldable pub release_once :
    {F W : Type 0}
    → Float F
    → Option Error
    → Handle F
    → Feedback
    → System F W
    → Option Error × Handle F × System F W
unfolding release
release_once fl cancelled h f sys = elim h.released [
  | some e ↦ (e, h, sys)
  | none ↦
      let (e, sys') = release fl cancelled h.lease f sys in
      (e, record h { released = some e }, sys')
]
