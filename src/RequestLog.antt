-- ===== src/RequestLog.antt =====
-- internal/requestlog/async_sink.go: the bounded queue in front of the request log, and its
-- workers. `A` is the type of log entries, of which the sink keeps copies.
pub mod Steps
pub mod Drained
use grok_go.Base.{
  ℕ, ◌+◌, ◌-◌, ◌*◌, ◌%◌, ◌^◌, ◌&&◌, not, Bool, true, false, Option, none, some, List, [], ◌∷◌, ◌++◌,
  length, ltb, if◌then◌else◌,
}
use grok_go.Base.Int.{ℤ, pos, leb_ℤ, pos_part}
use grok_go.Base.Result.{Error, external}

-- The queue and the flag of the code, and its goroutines: `idle` of them wait for an entry, each
-- entry of `busy` is being handed on by one, and `exited` have ended. `accepted` and `written` are
-- the entries that were ever queued and handed on, the latest first in `accepted`.
pub record AsyncSink (A : Type 0) : Type 0 where
  pub capacity : ℕ
  pub queue : List A
  pub closed : Bool
  pub dropped : ℕ
  pub workers : ℕ
  pub idle : ℕ
  pub busy : List A
  pub exited : ℕ
  pub accepted : List A
  pub written : List A

abbrev pub positive_number_or : ℤ → ℕ → ℕ
positive_number_or n default = if leb_ℤ n (pos 0) then default else pos_part n

module _ {A : Type 0} where
  -- NewAsyncSink
  unfoldable pub new_async_sink : ℤ → ℤ → AsyncSink A
  new_async_sink capacity workers = record {
    capacity = positive_number_or capacity 4096;
    queue = [];
    closed = false;
    dropped = 0;
    workers = positive_number_or workers 4;
    idle = positive_number_or workers 4;
    busy = [];
    exited = 0;
    accepted = [];
    written = [];
  }

  abbrev pub enqueue : A → AsyncSink A → AsyncSink A
  enqueue entry s = record s { queue = s.queue ++ (entry ∷ []); accepted = entry ∷ s.accepted }

  -- CreateRequestLog, with a configured sink and an entry. `cancelled` is the error of a context
  -- that has ended; where the queue has room too, `select` takes either way, as `prefers` says.
  unfoldable pub create_request_log :
      Option Error → Bool → A → AsyncSink A → Option Error × AsyncSink A
  create_request_log cancelled prefers entry s =
      if s.closed then (some (external "request log sink is closed"), s) else elim cancelled [
        | none ↦ if ltb (length s.queue) s.capacity then (none, enqueue entry s) else (
          some (external "request log sink queue is full"),
          record s { dropped = (s.dropped + 1) % 2 ^ 64 },
        )
        | some e ↦
            if ltb (length s.queue) s.capacity && not prefers
            then (none, enqueue entry s)
            else (some e, s)
      ]

  -- Dropped
  abbrev pub dropped_count : AsyncSink A → ℕ
  dropped_count s = s.dropped

  -- The first part of Close.
  unfoldable pub close : AsyncSink A → AsyncSink A
  close s = record s { closed = true }

  -- `<-s.done`: every worker has ended.
  unfoldable pub is_done : AsyncSink A → Bool
  is_done s = not (ltb s.exited s.workers)

  -- A worker takes an entry, hands it to the sink behind, and ends.
  unfoldable pub take_entry : A → List A → AsyncSink A → AsyncSink A
  take_entry entry rest s = record s {
    queue = rest;
    idle = s.idle - 1;
    busy = s.busy ++ (entry ∷ []);
  }

  unfoldable pub write_entry : List A → A → List A → AsyncSink A → AsyncSink A
  write_entry before entry after s = record s {
    busy = before ++ after;
    idle = s.idle + 1;
    written = s.written ++ (entry ∷ []);
  }

  unfoldable pub end_worker : AsyncSink A → AsyncSink A
  end_worker s = record s { idle = s.idle - 1; exited = s.exited + 1 }
