-- ===== src/Accounts/Memory.antt =====
-- internal/accounts/memory_store.go: the store in memory, an implementation of the interface Store.
-- It is the world of the pool that uses it.
use grok_go.Base.{String, Option, none, some, List, [], ◌∷◌, map}
use grok_go.Base.Map.{Map, insert, lookup}
use grok_go.Base.Result.{Error, Result, err, external, ok}
use grok_go.Domain.{Account, Credentials}
use grok_go.Accounts.Pool.{Store}

insert_credentials : Map Credentials → Map Credentials → Map Credentials
insert_credentials [] m = m
insert_credentials ((id, value) ∷ given) m = insert_credentials given (insert id value m)

pub record MemoryStore (F : Type 0) : Type 0 where
  pub accounts : Map (Account F)
  pub credentials_by_account : Map Credentials

module _ {F : Type 0} where
  insert_accounts : List (Account F) → Map (Account F) → Map (Account F)
  insert_accounts [] m = m
  insert_accounts (item ∷ items) m = insert_accounts items (insert item.id item m)

  unfoldable pub new_memory_store : List (Account F) → Map Credentials → MemoryStore F
  unfolding insert_accounts insert_credentials
  new_memory_store items credentials = record {
    accounts = insert_accounts items [];
    credentials_by_account = insert_credentials credentials [];
  }

  unfoldable pub list_memory_accounts : MemoryStore F → Result (List (Account F)) × MemoryStore F
  list_memory_accounts s = (ok (map (λ e. e.1) s.accounts), s)

  unfoldable pub memory_credentials : String → MemoryStore F → Result Credentials × MemoryStore F
  memory_credentials id s = elim (lookup id s.credentials_by_account) [
    | none ↦ (err (external "credentials not found"), s)
    | some value ↦ (ok value, s)
  ]

  unfoldable pub set_credentials : String → Credentials → MemoryStore F → MemoryStore F
  set_credentials id value s = record s {
    credentials_by_account = insert id value s.credentials_by_account;
  }

  unfoldable pub get_account : String → MemoryStore F → Result (Account F)
  get_account id s = elim (lookup id s.accounts) [
    | none ↦ err (external "account not found")
    | some value ↦ ok value
  ]

  unfoldable pub update_memory_account : Account F → MemoryStore F → Option Error × MemoryStore F
  update_memory_account account s =
      (none, record s { accounts = insert account.id account s.accounts })

  -- The store as the pool sees it.
  unfoldable pub memory_store : Store F (MemoryStore F)
  unfolding list_memory_accounts memory_credentials update_memory_account
  memory_store = record {
    list_accounts = list_memory_accounts;
    credentials = memory_credentials;
    update_account = update_memory_account;
  }
