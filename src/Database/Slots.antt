-- ===== src/Database/Slots.antt =====
-- The scripts of AcquireSlot and ReleaseSlot are a counting semaphore, by the laws of IsCounting.
use grok_go.Base.{
  zero, ℕ, ◌+◌, ◌-◌, ◌^◌, ◌<◌, ◌≡◌, String, Bool, true, false, some, arith, ltb, if◌then◌else◌,
  eq_refl, eqb, ◌≤◌, ap, ◌∙◌, sym, suc,
}
use grok_go.Base.Int.{ℤ, pos, ◌<ℤ◌}
use grok_go.Base.Result.{Result, ok}
use grok_go.Database.Server.{Server, Reply, integer, number, IsCounting}
use grok_go.Database.Scripts.{acquire_slot_script, release_slot_script}

-- The semaphore: whether a slot is granted, and the slots then held.
abbrev pub take : ℕ → ℕ → Bool × ℕ
take limit held = if ltb held limit then (true, held + 1) else (false, held)

abbrev pub give : ℕ → ℕ
give held = held - 1

-- A change of the slots, made some times.
abbrev pub times : ℕ → (ℕ → ℕ) → ℕ → ℕ
times zero step slots = slots
times (suc n) step slots = step (times n step slots)

abbrev pub one_if : Bool → ℤ
one_if b = if b then pos 1 else pos 0

module _ {S : Type 0} (srv : Server S) where
  -- What a script answered and left: the reply, and the slots held under a key.
  pub record Answers (k : String) (answer : ℤ) (slots : ℕ) (r : Result Reply × S) : Type 0 where
    pub reply : r.0 ≡ ok (integer answer)
    pub held : number srv k r.1 ≡ some (pos slots)

module _ {S : Type 0} (srv : Server S) (laws : IsCounting srv) where
  pub acquire_slot_script-Answers :
      (k : String) (limit slots : ℕ) (ttl : ℤ) (s : S)
      → limit < 2 ^ 53
      → pos 0 <ℤ ttl
      → number srv k s ≡ some (pos slots)
      → Answers srv k
          (one_if (take limit slots).0)
          (take limit slots).1
          (acquire_slot_script srv k (pos limit) ttl s)
  unfolding acquire_slot_script
  acquire_slot_script-Answers k limit slots ttl s small lives now =
      let counted = laws.incrby_answer k slots 1 s now in
      let left = laws.incrby_number k k slots 1 s now in
      let live = laws.pexpire_number k k ttl (srv.incrby k (pos 1) s).1 lives in
      record {
        reply = ground (arith, now, counted, small);
        held = ground (arith, now, counted, left, live, small, eq_refl k);
      }

  pub release_slot_script-Answers :
      (k : String) (slots : ℕ) (s : S)
      → number srv k s ≡ some (pos slots)
      → Answers srv k (pos (give slots)) (give slots) (release_slot_script srv k s)
  unfolding release_slot_script
  release_slot_script-Answers k slots s now =
      let counted = laws.decr_answer k (slots - 1) s in
      let left = laws.decr_number k k (slots - 1) s in
      let gone = laws.del_number k k s in
      record {
        reply = ground (arith, now, counted);
        held = ground (arith, now, counted, left, gone, eq_refl k);
      }

-- The slots of one key as the holders see them: the state of the server, and how many slots were
-- granted and not given back.
pub record Slots (S : Type 0) : Type 0 where
  pub server : S
  pub holders : ℕ

-- One more holder where the script answered 1.
abbrev pub granted : Result Reply → ℕ → ℕ
granted (ok (integer (pos n))) holders = if eqb n 1 then holders + 1 else holders
granted _ holders = holders

granted_take : (limit n : ℕ) → granted (ok (integer (one_if (take limit n).0))) n ≡ (take limit n).1
granted_take limit n = ground arith

take_bounded : (limit n : ℕ) → n ≤ limit → (take limit n).1 ≤ limit
take_bounded limit n h = ground arith

module _ {S : Type 0} (srv : Server S) (k : String) (limit : ℕ) (ttl : ℤ) where
  -- The processes take and give slots in any order; only a holder gives one back. `other` is
  -- whatever leaves the key alone, the passing of time included.
  pub data Step (s t : Slots S) : Type 0 where
    grant :
        t ≡ record {
          server = (acquire_slot_script srv k (pos limit) ttl s.server).1;
          holders = granted (acquire_slot_script srv k (pos limit) ttl s.server).0 s.holders;
        }
        → Step s t
    hand_back :
        0 < s.holders
        → t ≡ record { server = (release_slot_script srv k s.server).1; holders = s.holders - 1 }
        → Step s t
    other : number srv k t.server ≡ number srv k s.server → t.holders ≡ s.holders → Step s t

  pub data Reached : Slots S → Type 0 where
    start : (s : S) → number srv k s ≡ some (pos 0) → Reached (record { server = s; holders = 0 })
    proceed : {s t : Slots S} → Reached s → Step s t → Reached t

  -- The counter under the key is the number of holders, which the limit bounds.
  pub record IsCounted (s : Slots S) : Type 0 where
    pub counter : number srv k s.server ≡ some (pos s.holders)
    pub bounded : s.holders ≤ limit

  Step-IsCounted :
      {s t : Slots S}
      → IsCounting srv
      → limit < 2 ^ 53
      → pos 0 <ℤ ttl
      → Step s t
      → IsCounted s
      → IsCounted t
  Step-IsCounted {s = s} laws small lives (grant e) h =
      let done =
        acquire_slot_script-Answers srv laws k limit s.holders ttl s.server small lives h.counter in
      let same = ap (λ reply. granted reply s.holders) done.reply ∙ granted_take limit s.holders in
      rw e (record {
        counter = done.held ∙ ap (λ n. some (pos n)) (sym same);
        bounded = omega (arith, same, take_bounded limit s.holders h.bounded);
      })
  Step-IsCounted {s = s} laws small lives (hand_back holds e) h =
      let done = release_slot_script-Answers srv laws k s.holders s.server h.counter in
      rw e (record { counter = done.held; bounded = omega (arith, h.bounded) })
  Step-IsCounted laws small lives (other same kept) h = record {
    counter = ground (arith, same, kept, h.counter);
    bounded = ground (arith, kept, h.bounded);
  }

  -- In whatever order processes take and give the slots of a key, the counter in Redis is the
  -- number of holders and never exceeds the limit, while the counter does not expire.
  pub Reached-IsCounted :
      (s : Slots S) → IsCounting srv → limit < 2 ^ 53 → pos 0 <ℤ ttl → Reached s → IsCounted s
  Reached-IsCounted s laws small lives (start server fresh) = record {
    counter = fresh;
    bounded = omega arith;
  }
  Reached-IsCounted t laws small lives (proceed {s = s} r step) =
      Step-IsCounted laws small lives step (Reached-IsCounted s laws small lives r)
