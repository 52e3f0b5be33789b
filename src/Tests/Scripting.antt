-- ===== src/Tests/Scripting.antt =====
-- The theorems on the scripts of Redis, at the small servers.
use grok_go.Base.{ℕ, ◌≤◌, ◌≡◌, ap, refl, String, none, some, Option, [], ◌∷◌, arith, length}
use grok_go.Base.Int.{ℤ, pos, ◌+ℤ◌}
use grok_go.Base.Map.{Distinct, Map, lookup, delete, delete_if}
use grok_go.Base.Result.{ok}
use grok_go.Base.Text.{read_unsigned}
use grok_go.Accounts.Message.Decimal.{read_unsigned-itoa}
use grok_go.ApiKey.Windows.{format_int}
use grok_go.Database.Server.{Server, IsRounding}
use grok_go.Database.Scripts.{
  acquire_slot_script, acquire_lease_script, release_lease_script, set_if_greater_script,
}
use grok_go.Database.Redis.{Redis}
use grok_go.Database.Slots.{Slots, Reached, start, proceed, grant, IsCounted, Reached-IsCounted}
use grok_go.Database.Leases.{
  Leaves, lease, live, acquire_lease_refines, acquire_lease_bounded, release_lease_refines,
}
use grok_go.Database.Deadlines.{Raises, set_if_greater-Raises}
use grok_go.Tests.Servers.{
  counter_server, counter_server-IsCounting, client_of, table_server, table_of,
  table_server-IsRanking, Table,
}

-- One slot of two is taken.
abbrev slot_taken : Slots (Map String)
slot_taken = record {
  server = (acquire_slot_script counter_server "k" (pos 2) (pos 1_000) []).1;
  holders = 1;
}

slot_taken-Reached : Reached counter_server "k" 2 (pos 1_000) slot_taken
unfolding acquire_slot_script lookup
slot_taken-Reached = proceed (start [] refl) (grant refl)

Reached-IsCounted_example : IsCounted counter_server "k" 2 (pos 1_000) slot_taken
Reached-IsCounted_example =
    Reached-IsCounted counter_server "k" 2 (pos 1_000) slot_taken counter_server-IsCounting
      (omega arith) (omega arith) slot_taken-Reached

abbrev redis : Redis (Map String) (Map String)
redis = record { client = client_of; prefix = "grok:" }

-- A set with a lease that has expired and one that has not, at the instant 10,000.
leased-Distinct : Distinct (("old", pos 9_000) ∷ ("held", pos 12_000) ∷ [])
unfolding lookup
leased-Distinct = (refl, (refl, tt))

abbrev leased : Table
leased = (("old", pos 9_000) ∷ ("held", pos 12_000) ∷ [], leased-Distinct)

acquire_lease_refines_example :
    Leaves table_of "k"
      (lease 2 "new" (pos 10_000 +ℤ pos 500) (live (pos 10_000) leased.0)).0
      (lease 2 "new" (pos 10_000 +ℤ pos 500) (live (pos 10_000) leased.0)).1
      (acquire_lease_script table_server "k" "new" (pos 2) (pos 500) leased)
acquire_lease_refines_example =
    acquire_lease_refines table_server table_of table_server-IsRanking "k" "new" leased 2 500
      (omega arith)

acquire_lease_bounded_example :
    length (acquire_lease_script table_server "k" "new" (pos 2) (pos 500) leased).1.0 ≤ 2
unfolding delete_if
acquire_lease_bounded_example =
    acquire_lease_bounded table_server table_of table_server-IsRanking "k" "new" leased 2 500
      (omega arith) (omega arith)

release_lease_refines_example :
    live (pos 10_000) (release_lease_script table_server "k" "held" leased).1.0
    ≡ live (pos 10_000) (delete "held" leased.0)
release_lease_refines_example =
    release_lease_refines table_server table_of table_server-IsRanking "k" "held" leased

-- A server of one text, which is read as the number it is.
abbrev read_number : Option ℕ → Option ℤ
read_number none = none
read_number (some n) = some (pos n)

abbrev text_server : Server (Option String)
text_server = record {
  get = λ k s. s;
  set = λ k text s. some text;
  del = λ k s. (pos 1, none);
  incrby = λ k d s. (ok d, s);
  pexpire = λ k ttl s. (pos 1, s);
  pexpireat = λ k t s. (pos 1, s);
  pttl = λ k s. pos 1;
  time = λ s. (10, 0);
  zremrangebyscore = λ k top s. s;
  zscore = λ k m s. none;
  zadd = λ k score m s. s;
  zcard = λ k s. pos 0;
  zlast = λ k s. none;
  zrem = λ k m s. (pos 0, s);
  tonumber = λ text. read_number (read_unsigned text);
}

text_server-IsRounding : IsRounding text_server format_int (λ n. n)
unfolding format_int
text_server-IsRounding = record {
  tonumber_text = λ n small. ap read_number (read_unsigned-itoa n (omega (arith, small)));
  round_mono = λ m n le. le;
  set_get = λ k text s. refl;
  set_time = λ k text s. refl;
  pexpireat_get = λ k t s future. refl;
}

set_if_greater-Raises_example :
    Raises text_server
      (λ n. n)
      "k"
      5
      7
      (set_if_greater_script text_server "k"
        (format_int (pos 7))
        (pos 20_000)
        (some (format_int (pos 5))))
set_if_greater-Raises_example =
    set_if_greater-Raises text_server (λ n. n) text_server-IsRounding "k" 5 7 (pos 20_000)
      (some (format_int (pos 5))) (omega arith) (omega arith) refl (omega arith)
