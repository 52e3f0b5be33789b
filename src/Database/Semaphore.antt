-- ===== src/Database/Semaphore.antt =====
-- AcquireSlot and ReleaseSlot refine a counting semaphore, over a client that tries again where a
-- reply is lost.
use grok_go.Base.{suc, ℕ, ◌≡◌, ◌⊎◌, String, Option, some, [], ◌∷◌}
use grok_go.Base.Int.{ℤ, pos}
use grok_go.Base.Result.{Error, Result, ok, err}
use grok_go.Database.Server.{Server, number}
use grok_go.Database.Redis.{Redis, key_of}
use grok_go.Database.Slots.{times, Answers, Answers}

module _ {S W : Type 0} (srv : Server S) (r : Redis S W) (server : W → S) (key : String) where
  abbrev pub slots_in : W → Option ℤ
  slots_in w = number srv (key_of r.prefix (key ∷ [])) (server w)

  -- The answer is the semaphore's after as many changes as replies were lost, and the slots are
  -- those after one more; or the answer is an error, after some number of changes.
  pub record Refines {A : Type 0} (answer : ℕ → A) (step : ℕ → ℕ) (before : ℕ) (result : Result A)
      (w : W) : Type 0 where
    pub outcome :
        ((lost : ℕ) × (result ≡ ok (answer (times lost step before)))
          × (slots_in w ≡ some (pos (times (suc lost) step before))))
        ⊎ ((e : Error) × (runs : ℕ) × (result ≡ err e)
            × (slots_in w ≡ some (pos (times runs step before))))
