-- ===== src/RequestLog/Steps.antt =====
-- The steps of the callers and of the workers, in any order.
use grok_go.Base.{◌<◌, ◌≡◌, Bool, true, Option, List, [], ◌∷◌, ◌++◌}
use grok_go.Base.Int.{ℤ}
use grok_go.Base.Result.{Error}
use grok_go.RequestLog.{
  AsyncSink, close, create_request_log, end_worker, new_async_sink, take_entry, write_entry,
}

-- One call of a caller, or one step of a worker: it receives from the queue, its write returns, or
-- it ends, which the loop over a closed channel does once the queue is empty.
pub data Step {A : Type 0} (s : AsyncSink A) : AsyncSink A → Type 0 where
  create :
      (cancelled : Option Error) (prefers : Bool) (entry : A)
      → Step s (create_request_log cancelled prefers entry s).1
  shut : Step s (close s)
  take :
      (entry : A) (rest : List A)
      → 0 < s.idle
      → s.queue ≡ entry ∷ rest
      → Step s (take_entry entry rest s)
  write :
      (before after : List A) (entry : A)
      → s.busy ≡ before ++ (entry ∷ after)
      → Step s (write_entry before entry after s)
  leave : 0 < s.idle → s.closed ≡ true → s.queue ≡ [] → Step s (end_worker s)

-- The states that a new sink reaches.
pub data Reached {A : Type 0} : AsyncSink A → Type 0 where
  start : (capacity workers : ℤ) → Reached (new_async_sink capacity workers)
  proceed : {s t : AsyncSink A} → Reached s → Step s t → Reached t
