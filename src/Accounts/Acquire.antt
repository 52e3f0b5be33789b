-- ===== src/Accounts/Acquire.antt =====
-- internal/accounts/pool.go: Acquire, round by round. Other goroutines may change the coordinator's
-- state between the calls, which `W` covers; the pool itself is changed by this call alone.
pub mod Balance
mod Progress
pub mod Falling
pub mod Stale
pub mod Locked
pub mod Ends
pub mod Total
pub mod Whole
use grok_go.Base.{ℕ, zero, suc, ◌&&◌, not, Bool, Option, none, some, ◌==◌, is_some, if◌then◌else◌}
use grok_go.Base.Float.{Float}
use grok_go.Base.Result.{Error, Result, ok, err, no_account, wrap}
use grok_go.Domain.{Time}
use grok_go.Accounts.Pool.{System, Selection, Lease}
use grok_go.Accounts.Choose.{select}
use grok_go.Accounts.Reload.{ensure_loaded}
use grok_go.Accounts.Reserve.{
  Attempt, Binding, uses_affinity, refresh_bindings, find_binding, reserve, reserved,
}
use grok_go.Accounts.Select.{Candidate}
use grok_go.Accounts.Confirm.{Reservation, Step, done, again, confirm, drop_stale, first_attempt}

module _ {F : Type 0} where
  -- What a round remembers of its choice.
  abbrev pub reservation_of : Bool → Binding → Time → Candidate F → Reservation F
  reservation_of useful b now c =
      let account = (reserved c.1 now).account in
      record {
        account = account;
        now = now;
        use_affinity = useful;
        preferred = b.preferred;
        reused = not (b.preferred == "") && b.preferred == account.id;
        preserve = not (b.preferred == "") && not (account.id == b.preferred) && b.at_capacity;
      }

module _ {F W : Type 0} (fl : Float F) (sel : Selection) where
  -- The choice of an account in a round, and its reservation.
  unfoldable pub choose_and_confirm : Bool → Attempt → Binding → Time → System F W → Step F W
  unfolding confirm
  choose_and_confirm useful a b now s =
      let (chosen, p) = select fl s.pool (record sel { exclude_ids = a.excluded }) now in
      elim chosen [
        | none ↦ done (err no_account) (record s { pool = p })
        | some (id, state) ↦
            confirm sel a (reservation_of useful b now (id, state))
              (record s { pool = reserve id state now p })
      ]

  -- One round of the loop.
  unfoldable pub round : Bool → Attempt → System F W → Step F W
  unfolding choose_and_confirm drop_stale
  round useful a s =
      let (now, w) = s.pool.now s.world in
      let checked = is_some s.pool.coordinator && useful in
      let (b, p) = find_binding useful sel a now (refresh_bindings checked sel a now s.pool) in
      let s' : System F W = record { pool = p; world = w } in
      if not (b.stale == "")
      then drop_stale sel a b.stale s'
      else choose_and_confirm useful a b now s'

  -- `none` means that the fuel ran out.
  unfoldable pub rounds : ℕ → Bool → Attempt → System F W → Option (Result (Lease F) × System F W)
  unfolding round
  rounds zero useful a s = none
  rounds (suc fuel) useful a s = elim (round useful a s) [
    | done r s' ↦ some (r, s')
    | again a' s' ↦ rounds fuel useful a' s'
  ]

  -- Asking the coordinator for the conversation's binding, and the rounds.
  unfoldable pub acquire_loaded : ℕ → System F W → Option (Result (Lease F) × System F W)
  unfolding rounds
  acquire_loaded fuel s =
      let useful = uses_affinity s.pool sel in
      elim s.pool.coordinator [
        | none ↦ rounds fuel useful (first_attempt sel "") s
        | some c ↦
            if not useful
            then rounds fuel useful (first_attempt sel "") s
            else (let (known, w) = c.get_affinity sel.model.id sel.affinity_key s.world in
                let s' = record s { world = w } in
                elim known [
                  | err e ↦ some (err (wrap "read coordinated account affinity" e), s')
                  | ok none ↦ rounds fuel useful (first_attempt sel "") s'
                  | ok (some id) ↦ rounds fuel useful (first_attempt sel id) s'
                ])
      ]

  -- Pool.Acquire.
  unfoldable pub acquire : ℕ → Option Error → System F W → Option (Result (Lease F) × System F W)
  unfolding acquire_loaded
  acquire fuel cancelled s =
      let (failed, s') = ensure_loaded fl cancelled s in
      elim failed [ some e ↦ some (err e, s') | none ↦ acquire_loaded fuel s' ]
