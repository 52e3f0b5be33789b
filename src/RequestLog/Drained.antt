-- ===== src/RequestLog/Drained.antt =====
-- No accepted entry is lost: when Close returns, all of them have been handed on.
use mathlib.Core.List.{Perm, perm_middle, append-nil, append_assoc}
use mathlib.Core.List.Perm
use grok_go.Base.{
  ◌%◌, ◌^◌, length-append, ℕ, ◌+◌, ◌≤◌, ◌<◌, ◌≡◌, refl, sym, ◌∙◌, ap, subst, Bool, true, false, not,
  ◌&&◌, Option, List, [], ◌∷◌, ◌++◌, length, ltb, arith, if_cases, option_cases, ◌⊎◌, inl, inr,
}
use grok_go.Base.Int.{ℤ}
use grok_go.Base.Result.{Error}
use grok_go.RequestLog.{
  AsyncSink, close, create_request_log, end_worker, enqueue, is_done, new_async_sink, take_entry,
  write_entry,
}
use grok_go.RequestLog.Steps.{Reached, Step, create, leave, shut, start, take, proceed, write}

module _ {A : Type 0} where
  -- The invariant: an entry that was accepted is in the queue, in the hands of a worker or written,
  -- the queue is within its capacity, and a worker ends only on a closed and empty queue.
  pub record IsSound (s : AsyncSink A) : Type 0 where
    pub kept : Perm s.accepted (s.written ++ s.busy ++ s.queue)
    pub bounded : length s.queue ≤ s.capacity
    pub staffed : s.idle + length s.busy + s.exited ≡ s.workers
    pub staff : 0 < s.workers
    pub ended : (s.exited ≡ 0) ⊎ ((s.closed ≡ true) × (s.queue ≡ []))

  -- Where the parts of a list of three stand.
  perm_end :
      (entry : A) (acc w b q : List A)
      → Perm acc (w ++ b ++ q)
      → Perm (entry ∷ acc) (w ++ b ++ (q ++ (entry ∷ [])))
  perm_end entry acc w b q h =
      let all = w ++ b ++ q in
      let m =
        subst (λ y. Perm (all ++ (entry ∷ [])) (entry ∷ y)) (append-nil all)
          (perm_middle {a = entry} all []) in
      Perm.trans (Perm.cons entry h)
        (Perm.symm (subst (λ x. Perm x (entry ∷ all)) (append_assoc (w ++ b) q (entry ∷ [])) m))

  perm_write :
      (entry : A) (acc w before after q : List A)
      → Perm acc (w ++ (before ++ (entry ∷ after)) ++ q)
      → Perm acc ((w ++ (entry ∷ [])) ++ (before ++ after) ++ q)
  perm_write entry acc w before after q h = Perm.trans h (
      Perm.append_right q (
        subst (λ x. Perm (w ++ (before ++ (entry ∷ after))) x)
          (sym (append_assoc w (entry ∷ []) (before ++ after)))
          (Perm.append_left w (perm_middle before after))))

  perm_take :
      (entry : A) (acc w b q rest : List A)
      → q ≡ entry ∷ rest
      → Perm acc (w ++ b ++ q)
      → Perm acc (w ++ (b ++ (entry ∷ [])) ++ rest)
  perm_take entry acc w b q rest e h =
      subst (λ x. Perm acc x)
        (sym (append_assoc (w ++ b) (entry ∷ []) rest)
          ∙ ap (λ x. x ++ rest) (append_assoc w b (entry ∷ [])))
        (subst (λ x. Perm acc (w ++ b ++ x)) e h)

  enqueue-IsSound :
      (entry : A) (s : AsyncSink A)
      → s.closed ≡ false
      → ltb (length s.queue) s.capacity ≡ true
      → IsSound s
      → IsSound (enqueue entry s)
  enqueue-IsSound entry s opened room h = record {
    kept = perm_end entry s.accepted s.written s.busy s.queue h.kept;
    bounded = ground (arith, room, length-append s.queue (entry ∷ []));
    staffed = h.staffed;
    staff = h.staff;
    ended = elim h.ended [ inl e ↦ inl e | inr e ↦ absurd (ground (arith, e.0, opened)) ];
  }

  dropped-IsSound : (n : ℕ) (s : AsyncSink A) → IsSound s → IsSound (record s { dropped = n })
  dropped-IsSound n s h = record {
    kept = h.kept;
    bounded = h.bounded;
    staffed = h.staffed;
    staff = h.staff;
    ended = h.ended;
  }

  record LeavesSound (x : Option Error × AsyncSink A) : Type 0 where
    sound : IsSound x.1

  create-LeavesSound :
      (cancelled : Option Error) (prefers : Bool) (entry : A) (s : AsyncSink A)
      → IsSound s
      → LeavesSound (create_request_log cancelled prefers entry s)
  unfolding create_request_log
  create-LeavesSound cancelled prefers entry s h =
      if_cases LeavesSound s.closed _ _ (λ _. record { sound = h })
        (λ opened.
          option_cases LeavesSound cancelled _ _
            (λ _.
              if_cases LeavesSound (ltb (length s.queue) s.capacity) _ _
                (λ room. record { sound = enqueue-IsSound entry s opened room h })
                (λ _. record { sound = dropped-IsSound ((s.dropped + 1) % 2 ^ 64) s h }))
            (λ e _.
              if_cases LeavesSound (ltb (length s.queue) s.capacity && not prefers) _ _
                (λ both. record { sound = enqueue-IsSound entry s opened (ground (arith, both)) h })
                (λ _. record { sound = h })))

  close-IsSound : (s : AsyncSink A) → IsSound s → IsSound (close s)
  unfolding close
  close-IsSound s h = record {
    kept = h.kept;
    bounded = h.bounded;
    staffed = h.staffed;
    staff = h.staff;
    ended = elim h.ended [ inl e ↦ inl e | inr e ↦ inr (refl, e.1) ];
  }

  take-IsSound :
      (entry : A) (rest : List A) (s : AsyncSink A)
      → 0 < s.idle
      → s.queue ≡ entry ∷ rest
      → IsSound s
      → IsSound (take_entry entry rest s)
  unfolding take_entry
  take-IsSound entry rest s some_idle e h = record {
    kept = perm_take entry s.accepted s.written s.busy s.queue rest e h.kept;
    bounded = ground (arith, h.bounded, ap length e);
    staffed = ground (arith, h.staffed, length-append s.busy (entry ∷ []));
    staff = h.staff;
    ended = elim h.ended [ inl x ↦ inl x | inr x ↦ absurd (ground (arith, x.1, e)) ];
  }

  write-IsSound :
      (before after : List A) (entry : A) (s : AsyncSink A)
      → s.busy ≡ before ++ (entry ∷ after)
      → IsSound s
      → IsSound (write_entry before entry after s)
  unfolding write_entry
  write-IsSound before after entry s e h = record {
    kept =
        perm_write entry s.accepted s.written before after s.queue
          (subst (λ b. Perm s.accepted (s.written ++ b ++ s.queue)) e h.kept);
    bounded = h.bounded;
    staffed = ground (
      arith,
      h.staffed,
      ap length e,
      length-append before (entry ∷ after),
      length-append before after,
    );
    staff = h.staff;
    ended = h.ended;
  }

  leave-IsSound :
      (s : AsyncSink A)
      → 0 < s.idle
      → s.closed ≡ true
      → s.queue ≡ []
      → IsSound s
      → IsSound (end_worker s)
  unfolding end_worker
  leave-IsSound s some_idle shut_down drained h = record {
    kept = h.kept;
    bounded = h.bounded;
    staffed = ground (arith, h.staffed, some_idle);
    staff = h.staff;
    ended = inr (shut_down, drained);
  }

  step-IsSound : (s t : AsyncSink A) → Step s t → IsSound s → IsSound t
  step-IsSound s _ (create cancelled prefers entry) h =
      (create-LeavesSound cancelled prefers entry s h).sound
  step-IsSound s _ shut h = close-IsSound s h
  step-IsSound s _ (take entry rest some_idle e) h = take-IsSound entry rest s some_idle e h
  step-IsSound s _ (write before after entry e) h = write-IsSound before after entry s e h
  step-IsSound s _ (leave some_idle shut_down drained) h =
      leave-IsSound s some_idle shut_down drained h

  start-IsSound : (capacity workers : ℤ) → IsSound (new_async_sink capacity workers)
  unfolding new_async_sink
  start-IsSound capacity workers = record {
    kept = Perm.refl [];
    bounded = omega arith;
    staffed = omega arith;
    staff = ground arith;
    ended = inl refl;
  }

  Reached-IsSound : (s : AsyncSink A) → Reached s → IsSound s
  Reached-IsSound _ (start capacity workers) = start-IsSound capacity workers
  Reached-IsSound t (proceed {s} r step) = step-IsSound s t step (Reached-IsSound s r)

  none_left : (xs : List A) → length xs ≡ 0 → xs ≡ []
  none_left [] e = refl
  none_left (x ∷ xs) e = absurd (omega (arith, e))

  drained_lem : (s : AsyncSink A) → IsSound s → is_done s ≡ true → Perm s.accepted s.written
  unfolding is_done
  drained_lem s h e =
      let idle_hands : s.busy ≡ [] = none_left s.busy (ground (arith, e, h.staffed)) in
      elim h.ended [
        | inl none_ended ↦ absurd (ground (arith, e, none_ended, h.staff))
        | inr (shut_down, empty) ↦
            subst (λ x. Perm s.accepted x) (append-nil s.written)
              (subst (λ x. Perm s.accepted x) (append-nil (s.written ++ []))
                (subst (λ q. Perm s.accepted (s.written ++ [] ++ q)) empty
                  (subst (λ b. Perm s.accepted (s.written ++ b ++ s.queue)) idle_hands h.kept)))
      ]

  -- In whatever order the callers and the workers proceed, once every worker has ended, which Close
  -- waits for, each accepted entry has been handed on, as often as it was accepted.
  pub reached_drained : (s : AsyncSink A) → Reached s → is_done s ≡ true → Perm s.accepted s.written
  reached_drained s r e = drained_lem s (Reached-IsSound s r) e
