-- ===== src/Gateway/Invoke/Ledger.antt =====
-- What the attempts of a request do to the pool, written down in a log, the last event first.
use grok_go.Base.{
  ℕ, ◌+◌, ◌≡◌, String, Bool, true, false, Option, none, some, List, [], ◌∷◌, ◌==◌, ◌&&◌, eqb,
  if◌then◌else◌, arith,
}
use grok_go.Base.Result.{Error, Result, ok, err}
use grok_go.Accounts.Pool.{Feedback, Lease}
use grok_go.Gateway.Invoke.{Accounts, Config, is_among}

-- A lease was asked for with the accounts to leave out, and granted; it was given back with a
-- report, or handed to a delivery; a renewal of an account's credentials was tried; an account
-- failed.
pub data Event : Type 0 where
  asked : List String → Event
  granted given_back renewing : String → Event
  failing : String → Event

module _ {F : Type 0} where
  abbrev pub note_lease : Result (Lease F) → List Event → List Event
  note_lease (err e) log = log
  note_lease (ok lease) log = granted lease.account.id ∷ log

  -- A report other than the 499 after a renewal is a failure of the account.
  abbrev pub note_return : Lease F → Feedback → List Event → List Event
  note_return lease f log =
      if eqb f.status_code 499
      then given_back lease.account.id ∷ log
      else given_back lease.account.id ∷ failing lease.account.id ∷ log

-- A renewal that fails is a failure of the account too.
abbrev pub note_renewal : String → Option Error → List Event → List Event
note_renewal id none log = renewing id ∷ log
note_renewal id (some e) log = failing id ∷ renewing id ∷ log

module _ {W : Type 0} where
  abbrev pub logged_renewal :
      (String → W → Option Error × W) → String → List Event × W → Option Error × (List Event × W)
  logged_renewal refresh id s =
      let (failed, w) = refresh id s.1 in (failed, (note_renewal id failed s.0, w))

  abbrev pub logged_refresh :
      Option (String → W → Option Error × W)
      → Option (String → List Event × W → Option Error × (List Event × W))
  logged_refresh none = none
  logged_refresh (some refresh) = some (logged_renewal refresh)

  abbrev pub unlogged : {A B : Type 0} → (A → W → B × W) → A → List Event × W → B × (List Event × W)
  unlogged f a s = let (b, w) = f a s.1 in (b, (s.0, w))

  abbrev pub unlogged_proxy :
      Option (String → W → Result String × W)
      → Option (String → List Event × W → Result String × (List Event × W))
  unlogged_proxy none = none
  unlogged_proxy (some f) = some (unlogged f)

-- The gateway with each of these calls written down.
module _ {F W : Type 0} where
  abbrev pub logged_accounts : Accounts F W → Accounts F (List Event × W)
  logged_accounts a = record {
    acquire = λ selection s.
        let (lease, w) = a.acquire selection s.1 in
        (lease, (note_lease lease (asked selection.exclude_ids ∷ s.0), w));
    release = λ lease f s. (note_return lease f s.0, a.release lease f s.1);
  }

  abbrev pub logged : Config F W → Config F (List Event × W)
  logged c = record {
    accounts = logged_accounts c.accounts;
    upstream = unlogged c.upstream;
    proxy_url = unlogged_proxy c.proxy_url;
    refresh_account = logged_refresh c.refresh_account;
    max_attempts = c.max_attempts;
    now = λ s. let (now, w) = c.now s.1 in (now, (s.0, w));
    parsers = c.parsers;
    read_json = c.read_json;
  }

abbrev pub count : (Event → Bool) → List Event → ℕ
count p [] = 0
count p (e ∷ log) = (if p e then 1 else 0) + count p log

abbrev pub grants : String → Event → Bool
grants id (granted j) = j == id
grants id _ = false

abbrev pub returns : String → Event → Bool
returns id (given_back j) = j == id
returns id _ = false

abbrev pub renews : String → Event → Bool
renews id (renewing j) = j == id
renews id _ = false

abbrev pub asks : Event → Bool
asks (asked ids) = true
asks _ = false

-- Every account that failed is among `ids`.
abbrev pub covers : List String → List Event → Bool
covers ids [] = true
covers ids (failing id ∷ log) = is_among ids id && covers ids log
covers ids (_ ∷ log) = covers ids log

-- Whenever a lease was asked for, the accounts that had failed by then were left out.
abbrev pub leaves_out : List Event → Bool
leaves_out [] = true
leaves_out (asked ids ∷ log) = covers ids log && leaves_out log
leaves_out (_ ∷ log) = leaves_out log

pub covers_more :
    (id : String) (ids : List String) (log : List Event)
    → covers ids log ≡ true
    → covers (id ∷ ids) log ≡ true
covers_more id ids [] h = h
covers_more id ids (failing j ∷ log) h = ground (arith, h, covers_more id ids log)
covers_more id ids (asked js ∷ log) h = covers_more id ids log h
covers_more id ids (granted j ∷ log) h = covers_more id ids log h
covers_more id ids (given_back j ∷ log) h = covers_more id ids log h
covers_more id ids (renewing j ∷ log) h = covers_more id ids log h
