-- ===== src/Tests/Logging.antt =====
-- The theorems on the asynchronous request log, at a run of a sink with one worker.
use mathlib.Core.List.{Perm}
use grok_go.Base.{ℕ, refl, false, none, [], arith}
use grok_go.Base.Int.{pos}
use grok_go.RequestLog.{
  AsyncSink, close, create_request_log, end_worker, is_done, new_async_sink, take_entry,
  write_entry,
}
use grok_go.RequestLog.Steps.{Reached, create, leave, proceed, shut, start, take, write}
use grok_go.RequestLog.Drained.{reached_drained}

-- One entry is accepted, the sink is closed, and the worker writes the entry and ends.
abbrev queued : AsyncSink ℕ
queued = (create_request_log none false 7 (new_async_sink (pos 1) (pos 1))).1

abbrev written_out : AsyncSink ℕ
written_out = end_worker (write_entry [] 7 [] (take_entry 7 [] (close queued)))

queued-Reached : Reached queued
queued-Reached = proceed (start (pos 1) (pos 1)) (create none false 7)

written_out-Reached : Reached written_out
unfolding create_request_log new_async_sink close take_entry write_entry
written_out-Reached =
    proceed
      (proceed (proceed (proceed queued-Reached shut) (take 7 [] (omega arith) refl))
        (write [] [] 7 refl))
      (leave (omega arith) refl refl)

reached_drained_example : Perm written_out.accepted written_out.written
unfolding create_request_log new_async_sink close take_entry write_entry end_worker is_done
reached_drained_example = reached_drained written_out written_out-Reached refl
