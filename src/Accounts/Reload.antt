-- ===== src/Accounts/Reload.antt =====
-- internal/accounts/pool.go: reconciling the pool with its store, evicting accounts and changing
-- the strategy.
pub mod Kept
pub mod Removed
use grok_go.Base.{
  ℕ, ◌||◌, not, String, Bool, true, false, Option, none, some, List, [], ◌∷◌, ◌==◌, leb,
  if◌then◌else◌, map, length,
}
use grok_go.Base.Int.{ℤ, pos}
use grok_go.Base.Map.{Map, lookup, insert, delete, delete_if}
use grok_go.Base.Float.{Float}
use grok_go.Base.Result.{Error, Result, ok, err}
use grok_go.Base.Text.{trim_space}
use grok_go.Domain.{Time, Account, active, status_eq, after, zero_time}
use grok_go.Accounts.Policy.{Policy, parse_strategy}
use grok_go.Accounts.Pool.{Pool, System, RuntimeState, AffinityEntry, Coordinator}
use grok_go.Accounts.Select.{contains}

-- What Reload does with the persisted instants of an item.
unfoldable pub later_used : Time → Option Time → Time
later_used persisted none = persisted
later_used persisted (some used) = if after used persisted then used else persisted

unfoldable pub reloaded_cooldown : Time → Option Time → Time
reloaded_cooldown till none = zero_time
reloaded_cooldown till (some until) = if after until till then until else till

-- The ids that RemoveAccounts is given, trimmed, without the empty ones.
unfoldable pub removed_ids : List String → List String
removed_ids [] = []
removed_ids (id ∷ ids) =
    let rest = removed_ids ids in if trim_space id == "" then rest else trim_space id ∷ rest

module _ {F : Type 0} where
  -- `state == nil || state.account.Status != domain.AccountActive` for the account of a binding.
  unfoldable pub is_stale : Map (RuntimeState F) → String → AffinityEntry → Bool
  is_stale states key entry = elim (lookup entry.account_id states) [
    | none ↦ true
    | some s ↦ not (status_eq s.account.status active)
  ]

  delete_all : List String → Map (RuntimeState F) → Map (RuntimeState F)
  delete_all [] m = m
  delete_all (id ∷ ids) m = delete_all ids (delete id m)

  unfoldable pub remove_accounts : {W : Type 0} → List String → Pool F W → Pool F W
  unfolding removed_ids delete_all
  remove_accounts account_ids p =
      let removed = removed_ids account_ids in
      if leb (length removed) 0 then p else record p {
        states = delete_all removed p.states;
        affinities = delete_if (λ key entry. contains removed entry.account_id) p.affinities;
      }

  unfoldable pub set_strategy : {W : Type 0} → String → Pool F W → Option Error × Pool F W
  set_strategy strategy p = elim (parse_strategy strategy) [
    | err e ↦ (some e, p)
    | ok parsed ↦ if p.policy.strategy == parsed then (none, p) else (
      none,
      record p {
        policy = record p.policy { strategy = parsed };
        affinities = [];
        round_robin = [];
      },
    )
  ]

  unfoldable pub clear_cooldown : {W : Type 0} → String → System F W → Option Error × System F W
  clear_cooldown id s = elim s.pool.coordinator [
    | none ↦ (none, s)
    | some c ↦ let (e, w) = c.clear_cooldown id s.world in (e, record s { world = w })
  ]

module _ {F : Type 0} (fl : Float F) where
  -- A missing or worthless health score counts as full health.
  unfoldable pub with_health : Account F → Account F
  with_health item =
      if fl.lt item.health_score (fl.hundredths 0) || fl.eq item.health_score (fl.hundredths 0)
      then record item { health_score = fl.hundredths 100 }
      else item

  -- &runtimeState{}
  unfoldable pub new_state : Account F → RuntimeState F
  new_state item = record {
    account = item;
    inflight = 0;
    health = fl.hundredths 0;
    failures = pos 0;
    cooldown_till = zero_time;
    last_used_persisted = zero_time;
  }

  unfoldable pub state_or_new : Option (RuntimeState F) → Account F → RuntimeState F
  unfolding new_state
  state_or_new none item = new_state item
  state_or_new (some s) item = s

  unfoldable pub merge_item : Account F → Option (RuntimeState F) → RuntimeState F
  unfolding with_health state_or_new later_used reloaded_cooldown
  merge_item listed known =
      let item = with_health listed in
      let state = state_or_new known item in
      record state {
        account = item;
        health = item.health_score;
        failures = item.failure_count;
        last_used_persisted = later_used state.last_used_persisted item.last_used_at;
        cooldown_till = reloaded_cooldown state.cooldown_till item.cooldown_until;
      }

  merge_items : List (Account F) → Map (RuntimeState F) → Map (RuntimeState F)
  unfolding merge_item
  merge_items [] m = m
  merge_items (item ∷ items) m =
      merge_items items (insert item.id (merge_item item (lookup item.id m)) m)

  -- The part of Reload that holds the lock.
  unfoldable pub reconcile : {W : Type 0} → List (Account F) → Pool F W → Pool F W
  unfolding merge_items is_stale
  reconcile items p =
      let seen = map (λ item. item.id) items in
      let states = delete_if (λ id state. not (contains seen id)) (merge_items items p.states) in
      record p {
        states = states;
        affinities = delete_if (is_stale states) p.affinities;
        loaded = true;
      }

  -- `cancelled` is the error of a context that ended before the reload token was had.
  unfoldable pub reload : {W : Type 0} → Option Error → System F W → Option Error × System F W
  unfolding reconcile
  reload (some e) s = (some e, s)
  reload none s =
      let (listed, w) = s.pool.store.list_accounts s.world in
      elim listed [
        | err e ↦ (some e, record s { world = w })
        | ok items ↦ (none, record { pool = reconcile items s.pool; world = w })
      ]

  unfoldable pub ensure_loaded :
      {W : Type 0} → Option Error → System F W → Option Error × System F W
  unfolding reload
  ensure_loaded cancelled s = if s.pool.loaded then (none, s) else reload cancelled s
