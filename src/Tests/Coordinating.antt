-- ===== src/Tests/Coordinating.antt =====
-- The theorems on probes and on the response headers, at concrete values.
use grok_go.Base.{none, if◌then◌else◌, ◌==◌, Holds}
use grok_go.Accounts.Probe.{probe_loaded}
use grok_go.Accounts.Probe.Balance.{ProbeCounted, probe_loaded_balanced}
use grok_go.Accounts.HttpFeedback.{Header, TimeParsers, quota_from_http_headers}
use grok_go.Accounts.HttpFeedback.Quota.{IsNonNegative, quota_from_http_headers-IsNonNegative}
use grok_go.Tests.Values.{counters, noon, states-Steady, system}

probe_loaded_balanced_example : ProbeCounted counters (probe_loaded "b" system)
probe_loaded_balanced_example = probe_loaded_balanced counters "b" system states-Steady

abbrev no_parsers : TimeParsers
no_parsers = record {
  parse_duration = λ text. none;
  parse_http_time = λ text. none;
  parse_rfc3339 = λ text. none;
}

abbrev headers : Header
headers name =
    if name == "X-RateLimit-Remaining-Requests"
    then "-3"
    else if name == "X-RateLimit-Reset-Requests"
    then "60"
    else ""

quota_from_http_headers-IsNonNegative_example :
    Holds IsNonNegative (quota_from_http_headers no_parsers headers noon)
quota_from_http_headers-IsNonNegative_example =
    quota_from_http_headers-IsNonNegative no_parsers headers noon
