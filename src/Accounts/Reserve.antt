-- ===== src/Accounts/Reserve.antt =====
-- internal/accounts/pool.go: the steps of Acquire that hold the lock.
pub mod Steady
use grok_go.Base.{
  ◌+◌, ◌-◌, ◌||◌, ◌&&◌, not, String, Bool, false, none, some, List, ◌==◌, ltb, if◌then◌else◌,
}
use grok_go.Base.Int.{pos, leb_ℤ}
use grok_go.Base.Map.{lookup, insert, delete}
use grok_go.Domain.{Time, after}
use grok_go.Accounts.Policy.{strategy_affinity}
use grok_go.Accounts.Affinity.{affinity_key, prune, set_affinity}
use grok_go.Accounts.Pool.{Pool, RuntimeState, AffinityEntry, Selection}
use grok_go.Accounts.Select.{contains, durably_eligible, limit_of}

-- The local variables of Acquire that live across its rounds.
pub record Attempt : Type 0 where
  pub coordinated : String
  pub excluded : List String
  pub capacity_excluded : List String

-- What a round learns of the conversation's binding.
pub record Binding : Type 0 where
  pub preferred : String
  pub at_capacity : Bool
  pub stale : String

abbrev pub no_binding : Binding
no_binding = record { preferred = ""; at_capacity = false; stale = "" }

module _ {F : Type 0} where
  -- state.inflight++ and the time of use, on the state that was selected.
  unfoldable pub reserved : RuntimeState F → Time → RuntimeState F
  reserved s now = record s {
    inflight = s.inflight + 1;
    account = record s.account { last_used_at = some now };
  }

  -- The state of an account whose reservation is given back.
  unfoldable pub rolled_back : RuntimeState F → Time → RuntimeState F
  rolled_back s until = record s {
    inflight = if ltb 0 s.inflight then s.inflight - 1 else s.inflight;
    cooldown_till = if after until s.cooldown_till then until else s.cooldown_till;
  }

module _ {F W : Type 0} where
  unfoldable pub uses_affinity : Pool F W → Selection → Bool
  uses_affinity p sel = p.policy.strategy == strategy_affinity && not (sel.affinity_key == "")

  -- The table of bindings at the start of a round; `checked` says that the coordinator was asked.
  unfoldable pub refresh_bindings : Bool → Selection → Attempt → Time → Pool F W → Pool F W
  refresh_bindings checked sel a now p =
      let live = prune p.policy now p.affinities in
      record p {
        affinities =
            if not checked
            then live
            else if a.coordinated == ""
            then delete (affinity_key sel.model.id sel.affinity_key) live
            else set_affinity p.policy sel.model.id sel.affinity_key a.coordinated now live;
      }

  -- The bound account: it may be used, it may be full, or the binding is stale and goes.
  unfoldable pub examine :
      Selection → Attempt → Time → AffinityEntry → Pool F W → Binding × Pool F W
  examine sel a now entry p = elim (lookup entry.account_id p.states) [
    | none ↦ (
      record { preferred = ""; at_capacity = false; stale = entry.account_id },
      record p { affinities = delete (affinity_key sel.model.id sel.affinity_key) p.affinities },
    )
    | some state ↦
        let (s, durable) = durably_eligible p.policy state sel.model now in
        let tested = record p { states = insert entry.account_id s p.states } in
        if not durable
        then (
          record { preferred = ""; at_capacity = false; stale = entry.account_id },
          record tested {
            affinities = delete (affinity_key sel.model.id sel.affinity_key) p.affinities;
          },
        )
        else (
          record {
            preferred = entry.account_id;
            at_capacity =
                leb_ℤ (limit_of p.policy s.account) (pos s.inflight)
                || contains a.capacity_excluded entry.account_id;
            stale = "";
          },
          tested,
        )
  ]

  unfoldable pub find_binding : Bool → Selection → Attempt → Time → Pool F W → Binding × Pool F W
  find_binding useful sel a now p =
      if useful
      then elim (lookup (affinity_key sel.model.id sel.affinity_key) p.affinities) [
        | none ↦ (no_binding, p)
        | some entry ↦
            if after entry.expires_at now then examine sel a now entry p else (no_binding, p)
      ]
      else (no_binding, p)

  -- The reservation of the selected account.
  unfoldable pub reserve : String → RuntimeState F → Time → Pool F W → Pool F W
  unfolding reserved
  reserve id s now p = record p { states = insert id (reserved s now) p.states }

  -- rollbackReservation
  unfoldable pub rollback : String → Time → Pool F W → Pool F W
  unfolding rolled_back
  rollback id until p = elim (lookup id p.states) [
    | none ↦ p
    | some s ↦ record p { states = insert id (rolled_back s until) p.states }
  ]
