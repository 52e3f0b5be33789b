-- ===== src/Tests/Servers.antt =====
-- Two small servers that meet the laws of Redis: one of counters, one of a sorted set.
use grok_go.Base.{
  ℕ, zero, suc, ◌+◌, ◌-◌, ◌≡◌, ap, refl, String, none, some, arith, Option, [], true, ◌∷◌,
  if◌then◌else◌, inl, length,
}
use grok_go.Base.Int.{leb_ℤ, ltb_ℤ, ◌≤ℤ◌, ℤ, pos, negsuc, pos_part, neg_part, ◌≤ℤ◌, ltb_ℤ}
use grok_go.Base.Map.{
  Map, lookup, insert, delete, lookup-insert, lookup-delete, Distinct, delete_if,
  delete_if-Distinct, insert-Distinct, delete-Distinct,
}
use grok_go.Base.Result.{ok}
use grok_go.Database.Server.{Server, number, IsCounting, Client, Delivers, IsRanking}

abbrev pub size : String → ℕ
size String.[] = 0
size (String.◌∷◌ letter text) = suc (size text)

-- A number as a text of one letter more, so that "0" is zero.
abbrev pub tally : ℕ → String
tally zero = "0"
tally (suc n) = String.◌∷◌ "1" (tally n)

pub size-tally : (n : ℕ) → size (tally n) ≡ suc n
size-tally zero = refl
size-tally (suc n) = ap suc (size-tally n)

abbrev tallied : String → Map String → ℕ
tallied k s = elim (lookup k s) [ none ↦ 0 | some text ↦ size text - 1 ]

abbrev changed : ℤ → ℕ → ℕ
changed d n = n + pos_part d - neg_part d

abbrev pub counter_server : Server (Map String)
counter_server = record {
  get = λ k s. lookup k s;
  set = λ k text s. insert k text s;
  del = λ k s. (pos 1, delete k s);
  incrby =
      λ k d s. (ok (pos (changed d (tallied k s))), insert k (tally (changed d (tallied k s))) s);
  pexpire = λ k ttl s. (pos 1, s);
  pexpireat = λ k t s. (pos 1, s);
  pttl = λ k s. pos 1;
  time = λ s. (0, 0);
  zremrangebyscore = λ k top s. s;
  zscore = λ k m s. none;
  zadd = λ k score m s. s;
  zcard = λ k s. pos 0;
  zlast = λ k s. none;
  zrem = λ k m s. (pos 0, s);
  tonumber = λ text. some (pos (size text - 1));
}

tallied_of :
    (k : String) (n : ℕ) (s : Map String)
    → number counter_server k s ≡ some (pos n)
    → tallied k s ≡ n
tallied_of k n s h = ground (arith, h)

pub counter_server-IsCounting : IsCounting counter_server
counter_server-IsCounting = record {
  zero_number = refl;
  incrby_answer = λ k n d s h small. ground (arith, tallied_of k n s h);
  incrby_number = λ k j n d s h small. ground (
    arith,
    lookup-insert k j (tally (changed (pos d) (tallied k s))) s,
    tallied_of k n s h,
    size-tally (changed (pos d) (tallied k s)),
  );
  decr_answer = λ k n s h. ground (arith, tallied_of k (n + 1) s h);
  decr_number = λ k j n s h. ground (
    arith,
    lookup-insert k j (tally (changed (negsuc 0) (tallied k s))) s,
    tallied_of k (n + 1) s h,
    size-tally (changed (negsuc 0) (tallied k s)),
  );
  del_number = λ k j s. ground (arith, lookup-delete k j s);
  pexpire_number = λ k j ttl s h. refl;
}

-- The client that never fails, on a world that is the server.
abbrev pub client_of : {S : Type 0} → Client S S
client_of = record {
  eval = λ script s. script s;
  get = λ k s. (ok none, s);
  set = λ k text ttl s. (none, s);
  set_nx = λ k text ttl s. (ok true, s);
  del = λ ks s. (none, s);
  publish = λ channel payload s. (none, s);
  ping = λ s. (none, s);
}

pub client_of-Delivers : {S : Type 0} → Delivers {S = S} client_of (λ s. s)
client_of-Delivers = record { eval_outcome = λ script s. inl (0, refl, refl) }

-- The member with the highest score.
abbrev higher : String × ℤ → String × ℤ → String × ℤ
higher best entry = if ltb_ℤ best.1 entry.1 then entry else best

abbrev top_from : String × ℤ → Map ℤ → String × ℤ
top_from best [] = best
top_from best (entry ∷ m) = top_from (higher best entry) m

abbrev top : Map ℤ → Option (String × ℤ)
top [] = none
top (entry ∷ m) = some (top_from entry m)

higher_first : (best entry : String × ℤ) → best.1 ≤ℤ (higher best entry).1
higher_first best entry = ground arith

higher_second : (best entry : String × ℤ) → entry.1 ≤ℤ (higher best entry).1
higher_second best entry = ground arith

top_from_best : (best : String × ℤ) (m : Map ℤ) → best.1 ≤ℤ (top_from best m).1
top_from_best best [] = omega arith
top_from_best best (entry ∷ m) =
    omega (arith, higher_first best entry, top_from_best (higher best entry) m)

top_from_bound :
    (best : String × ℤ) (m : Map ℤ) (k : String) (score : ℤ)
    → lookup k m ≡ some score
    → score ≤ℤ (top_from best m).1
unfolding lookup
top_from_bound best [] k score found = absurd (ground (arith, found))
top_from_bound best ((j, v) ∷ m) k score found =
    let later = top_from_bound (higher best (j, v)) m k score in
    ground (arith, found, later, higher_second best (j, v), top_from_best (higher best (j, v)) m)

top_bound :
    (m : Map ℤ) (latest : String × ℤ) (k : String) (score : ℤ)
    → top m ≡ some latest
    → lookup k m ≡ some score
    → score ≤ℤ latest.1
unfolding lookup
top_bound [] latest k score last found = absurd (ground (arith, found))
top_bound ((j, v) ∷ m) latest k score last found =
    ground (arith, last, found, top_from_best (j, v) m, top_from_bound (j, v) m k score)

top-none : (m : Map ℤ) → top m ≡ none → m ≡ []
top-none [] h = refl
top-none (entry ∷ m) h = absurd (ground (arith, h))

abbrev pub Table : Type 0
Table = (m : Map ℤ) × Distinct m

abbrev pub table_server : Server Table
table_server = record {
  get = λ k s. none;
  set = λ k text s. s;
  del = λ k s. (pos 1, ([], tt));
  incrby = λ k d s. (ok d, s);
  pexpire = λ k ttl s. (pos 1, s);
  pexpireat = λ k t s. (pos 1, if ltb_ℤ (pos 10_000) t then s else ([], tt));
  pttl = λ k s. pos 1;
  time = λ s. (10, 0);
  zremrangebyscore = λ k top s. (
    delete_if (λ m score. leb_ℤ score top) s.0,
    delete_if-Distinct (λ m score. leb_ℤ score top) s.0 s.1,
  );
  zscore = λ k m s. lookup m s.0;
  zadd = λ k score m s. (insert m score s.0, insert-Distinct m score s.0 s.1);
  zcard = λ k s. pos (length s.0);
  zlast = λ k s. top s.0;
  zrem = λ k m s. (pos 1, (delete m s.0, delete-Distinct m s.0 s.1));
  tonumber = λ text. none;
}

abbrev pub table_of : String → Table → Map ℤ
table_of k s = s.0

pub table_server-IsRanking : IsRanking table_server table_of
table_server-IsRanking = record {
  distinct = λ k s. s.1;
  zscore_lookup = λ k m s. refl;
  zcard_length = λ k s. refl;
  zadd_members = λ k m score s. refl;
  zadd_time = λ k m score s. refl;
  zremrangebyscore_members = λ k top s. refl;
  zremrangebyscore_time = λ k top s. refl;
  zrem_members = λ k m s. refl;
  zrem_time = λ k m s. refl;
  zlast_none = λ k s last. top-none s.0 last;
  zlast_top = λ k m latest score s last found. top_bound s.0 latest m score last found;
  pexpireat_members = λ k t s future. ground (arith, future);
  pexpireat_past = λ k t s past. ground (arith, past);
  del_members = λ k s. refl;
}
