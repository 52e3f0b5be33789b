-- ===== src/Accounts/Create.antt =====
-- internal/accounts/pool.go: making a pool, its strategy and its notifier.
pub mod Fresh
use grok_go.Base.{String, Bool, false, Option, none, [], some}
use grok_go.Base.Result.{Error}
use grok_go.Domain.{Time}
use grok_go.Accounts.Policy.{Policy, complete_policy}
use grok_go.Accounts.Pool.{Coordinator, Pool, Store}

module _ {F W : Type 0} where
  -- NewPoolWithCoordinator. `now` stands for time.Now; the reload token is a lock and is left out.
  unfoldable pub new_pool_with_coordinator :
      Store F W → Policy → Option (Coordinator W) → (W → Time × W) → Pool F W
  new_pool_with_coordinator store policy coordinator now = record {
    store = store;
    policy = complete_policy policy;
    coordinator = coordinator;
    now = now;
    loaded = false;
    states = [];
    affinities = [];
    round_robin = [];
    notifier = none;
  }

  -- NewPool
  unfoldable pub new_pool : Store F W → Policy → (W → Time × W) → Pool F W
  unfolding new_pool_with_coordinator
  new_pool store policy now = new_pool_with_coordinator store policy none now

  abbrev pub set_change_notifier : Option (W → Option Error × W) → Pool F W → Pool F W
  set_change_notifier notifier p = record p { notifier = notifier }

  abbrev pub current_strategy : Pool F W → String
  current_strategy p = p.policy.strategy
