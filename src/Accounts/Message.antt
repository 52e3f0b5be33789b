-- ===== src/Accounts/Message.antt =====
-- internal/accounts/pool.go: the text that an account keeps of its last failure.
pub mod Decimal
use Prim.Native.String.{◌++◌}
use grok_go.Base.{ℕ, zero, suc, ◌/◌, ◌%◌, String, Option, none, some, ltb, eqb, if◌then◌else◌}
use grok_go.Accounts.Pool.{Feedback, RequestError, deadline_exceeded, canceled, transport}

digit : ℕ → String
digit n =
    if eqb n 0
    then "0"
    else if eqb n 1
    then "1"
    else if eqb n 2
    then "2"
    else if eqb n 3
    then "3"
    else if eqb n 4
    then "4"
    else if eqb n 5
    then "5"
    else if eqb n 6
    then "6"
    else if eqb n 7
    then "7"
    else if eqb n 8
    then "8"
    else "9"

-- The loop of itoa over its buffer of twenty bytes, which the digits of an `int` do not fill.
itoa_loop : ℕ → ℕ → String → String
unfolding digit
itoa_loop zero v text = text
itoa_loop (suc room) v text =
    let rest = itoa_loop room (v / 10) (digit (v % 10) ++ text) in if ltb 0 v then rest else text

unfoldable pub itoa : ℕ → String
unfolding itoa_loop
itoa v = if eqb v 0 then "0" else itoa_loop 20 v ""

error_message : Option RequestError → String
error_message none = ""
error_message (some deadline_exceeded) = "upstream request timed out"
error_message (some canceled) = "upstream request was canceled"
error_message (some transport) = "upstream transport failed"

unfoldable pub feedback_message : Feedback → String
unfolding itoa error_message
feedback_message f =
    if ltb 0 f.status_code
    then "upstream status " ++ itoa f.status_code
    else error_message f.request_error
