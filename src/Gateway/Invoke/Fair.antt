-- ===== src/Gateway/Invoke/Fair.antt =====
-- What holds between two attempts of a request, and what a whole request did to the pool.
use grok_go.Base.{
  ℕ, ◌+◌, ◌≤◌, ◌≡◌, String, Bool, true, false, Option, none, some, List, ◌∷◌, ◌==◌, if◌then◌else◌,
  arith, eq_iff, eq_refl,
}
use grok_go.Base.Result.{Error, Result, ok, err}
use grok_go.Accounts.Pool.{Feedback, Lease}
use grok_go.Gateway.{retryable}
use grok_go.Gateway.Response.{Response}
use grok_go.Gateway.Invoke.{Tries, failed_on, is_among, renewed}
use grok_go.Gateway.Invoke.Ledger.{
  Event, asked, granted, given_back, note_return, note_renewal, count, grants, returns, renews,
  asks, covers, leaves_out, covers_more,
}

-- The log between two attempts.
pub record Fair (t : Tries) (log : List Event) : Type 0 where
  pub balanced : (id : String) → count (returns id) log ≡ count (grants id) log
  pub covered : covers t.excluded log ≡ true
  pub left_out : leaves_out log ≡ true
  pub once : (id : String) → count (renews id) log ≤ (if is_among t.refreshed id then 1 else 0)

module _ {F : Type 0} where
  -- The lease that the result hands on.
  abbrev pub handed_on : String → Result (Response × Lease F) → ℕ
  handed_on id (err e) = 0
  handed_on id (ok (response, lease)) = if lease.account.id == id then 1 else 0

  abbrev pub may_retry : Result (Response × Lease F) → Bool
  may_retry (err e) = false
  may_retry (ok (response, lease)) = retryable response.status_code

  -- What a whole request did to the pool, with `max` attempts.
  pub record IsSettled (max : ℕ) (result : Result (Response × Lease F)) (log : List Event)
      : Type 0 where
    pub held : (id : String) → count (returns id) log + handed_on id result ≡ count (grants id) log
    pub left_out : leaves_out log ≡ true
    pub once : (id : String) → count (renews id) log ≤ 1
    pub bounded : count asks log ≤ max
    pub persistent : may_retry result ≡ true → count asks log ≡ max

  pub failed-Fair :
      (lease : Lease F) (f : Feedback) (e : Error) (t : Tries) (log : List Event)
      → Fair t log
      → Fair
          (failed_on lease.account.id e t)
          (note_return lease f (granted lease.account.id ∷ asked t.excluded ∷ log))
  failed-Fair lease f e t log h = record {
    balanced = λ id. ground (arith, h.balanced id);
    covered =
        ground
          (arith, h.covered, covers_more lease.account.id t.excluded log, eq_refl lease.account.id);
    left_out = ground (arith, h.covered, h.left_out);
    once = λ id. ground (arith, h.once id);
  }

  pub renewed-Fair :
      (lease : Lease F) (e : Option Error) (t : Tries) (log : List Event)
      → is_among t.refreshed lease.account.id ≡ false
      → Fair t log
      → Fair (renewed lease.account.id e t) (
          given_back lease.account.id
          ∷ note_renewal lease.account.id e (granted lease.account.id ∷ asked t.excluded ∷ log))
  renewed-Fair lease none t log fresh h = record {
    balanced = λ id. ground (arith, h.balanced id);
    covered = h.covered;
    left_out = ground (arith, h.covered, h.left_out);
    once = λ id. ground (arith, h.once id, fresh, eq_iff lease.account.id id);
  }
  renewed-Fair lease (some d) t log fresh h = record {
    balanced = λ id. ground (arith, h.balanced id);
    covered =
        ground
          (arith, h.covered, covers_more lease.account.id t.excluded log, eq_refl lease.account.id);
    left_out = ground (arith, h.covered, h.left_out);
    once = λ id. ground (arith, h.once id, fresh, eq_iff lease.account.id id);
  }

pub asked-Fair : (t : Tries) (log : List Event) → Fair t log → Fair t (asked t.excluded ∷ log)
asked-Fair t log h = record {
  balanced = λ id. omega (arith, h.balanced id);
  covered = h.covered;
  left_out = ground (arith, h.covered, h.left_out);
  once = λ id. ground (arith, h.once id);
}
