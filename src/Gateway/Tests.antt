-- ===== src/Gateway/Tests.antt =====
-- A run of the gateway's requests, and the theorems at concrete inputs.
use codex_pooler.Prelude.{
  ℕ, ◌+◌, ◌≤◌, ◌≡◌, ◌≢◌, refl, String, Bool, true, false, Option, none, some, [], ◌∷◌, keep, length,
  or_else, not, ◌&&◌, In, is_some,
}
use codex_pooler.Spending.{set_spending_cap, pricing_snapshot}
use codex_pooler.Gateway.{Database, Request, Reply, thrown, returned, database_of}
use codex_pooler.Gateway.Usage.{
  TokenUsage, UsageReport, add_gateway_usage, tokens_of, cached_of, safe_cost, empty_entry, is_for,
  earliest_day,
}
use codex_pooler.Gateway.Operations.{
  Reservation, reserve_gateway_request, begin_gateway_attempt, RetryInput, retry_gateway_attempt,
  is_failure,
}
use codex_pooler.Gateway.Finalizing.{FinalizeInput, success, finalize_gateway_request, Finalized}
use codex_pooler.Gateway.Invariant.{Inv}
use codex_pooler.Gateway.Steps.{Reaches, here, next, reserve, begin, retry, Reaches-Inv}
use codex_pooler.Gateway.Finality.{Refuses, finalize_gateway_request_final}
use codex_pooler.Gateway.History.{finalize_gateway_request-history}
use codex_pooler.Gateway.Booking.{Slot, booked, stored, in_slot, knows_attempt, is_known, when}
use codex_pooler.Gateway.Counting.{add_gateway_usage-total}

abbrev start : Database
start = record {
  scopes = "default" ∷ [];
  api_keys = record { id = "key"; scope_id = "default" } ∷ [];
  upstreams =
      record { id = "account"; scope_id = "default"; spending = set_spending_cap 5 1000 } ∷ [];
  gateway_requests = [];
  gateway_attempts = [];
  gateway_usage = [];
}

abbrev reservation : Reservation
reservation = record {
  id = "request";
  scope_id = "default";
  api_key_id = "key";
  endpoint = "/v1/responses";
  model = "gpt";
  transport = "http_json";
  admitted_at = 2000;
}

abbrev token_usage : TokenUsage
token_usage = record {
  total_tokens = none;
  input_tokens = some 70;
  output_tokens = some 30;
  cached_input_tokens = some 20;
}

abbrev retry_input : RetryInput
retry_input = record {
  response_status_code = some 503;
  error_code = some (101 ∷ 114 ∷ 114 ∷ []);
  completed_at = 3000;
}

abbrev input : FinalizeInput
input = record {
  request_id = "request";
  attempt_id = some "second";
  ending = some success;
  response_status_code = some 200;
  error_code = none;
  termination = none;
  exclusion_reasons = [];
  usage = some token_usage;
  settled_cost_micros = some 9000;
  cost_source = some pricing_snapshot;
  completed_at = 4000;
}

abbrev reserved_db : Database
reserved_db = database_of (reserve_gateway_request start reservation)

abbrev begun_db : Database
begun_db = database_of (begin_gateway_attempt reserved_db "request" "first" "account" 2100)

abbrev retried_db : Database
retried_db = database_of (retry_gateway_attempt begun_db "request" "first" retry_input)

abbrev second_db : Database
second_db = database_of (begin_gateway_attempt retried_db "request" "second" "account" 3100)

start-Inv : Inv start
start-Inv = record { distinct = tt; owned = tt; numbered = λ _. tt }

path : Reaches start second_db
path =
    next
      (next
        (next (next here (reserve start reservation refl))
          (begin reserved_db "request" "first" "account" 2100))
        (retry begun_db "request" "first" retry_input))
      (begin retried_db "request" "second" "account" 3100)

Reaches-Inv_example : Inv second_db
Reaches-Inv_example = Reaches-Inv start-Inv path

abbrev result : Reply Finalized
result = finalize_gateway_request second_db 5000 input

abbrev result_of : Reply Finalized → Option Finalized
result_of (thrown db e) = none
result_of (returned db a) = some a

ends :
    ((database_of result).gateway_requests ≡ [])
    × ((database_of result).gateway_attempts ≡ [])
    × (is_some (result_of result) ≡ true)
unfolding reserve_gateway_request begin_gateway_attempt retry_gateway_attempt
    finalize_gateway_request
ends = (refl, refl, refl)

abbrev is_returned : {A : Type 0} → Reply A → Bool
is_returned (thrown db e) = false
is_returned (returned db a) = true

what_returned :
    {A : Type 0} (reply : Reply A)
    → is_returned reply ≡ true
    → (a : A) × (reply ≡ returned (database_of reply) a)
what_returned (thrown db e) h = cc
what_returned (returned db a) h = (a, refl)

finalized : (a : Finalized) × (result ≡ returned (database_of result) a)
unfolding reserve_gateway_request begin_gateway_attempt retry_gateway_attempt
    finalize_gateway_request
finalized = what_returned result refl

finalize_gateway_request_final_example :
    ((id upstream_id : String) (started_at : ℕ)
      → Refuses
          (begin_gateway_attempt (database_of result) "request" id upstream_id started_at)
          (database_of result))
    × ((attempt_id : String) (retry : RetryInput)
        → Refuses
            (retry_gateway_attempt (database_of result) "request" attempt_id retry)
            (database_of result))
    × ((later : ℕ) (again : FinalizeInput)
        → again.request_id ≡ "request"
        → Refuses (finalize_gateway_request (database_of result) later again) (database_of result))
finalize_gateway_request_final_example =
    finalize_gateway_request_final second_db 5000 input (database_of result) finalized.0
      (Reaches-Inv start-Inv path) finalized.1

finalize_gateway_request-history_example :
    (length (keep is_failure (database_of result).gateway_requests) ≤ 100)
    × ((r : Request)
        → In r second_db.gateway_requests
        → r.completed_at ≡ none
        → r.id ≢ "request"
        → In r (database_of result).gateway_requests)
finalize_gateway_request-history_example =
    finalize_gateway_request-history second_db 5000 input (database_of result) finalized.0
      finalized.1

abbrev report : UsageReport
report = record {
  scope_id = some "default";
  api_key_id = some "key";
  attempt_id = "second";
  started_at = some 3100;
  usage = some token_usage;
  settled_cost_micros = some 9000;
}

abbrev reported_day : ℕ
reported_day = 0

-- Reported twice, the attempt is counted once.
counted_once :
    (booked
        (λ e. e.request_count)
        (some "default", some "key", reported_day)
        (add_gateway_usage 5000 (add_gateway_usage 5000 [] report).0 report).0
      ≡ 1)
    × ((add_gateway_usage 5000 (add_gateway_usage 5000 [] report).0 report).1 ≡ false)
unfolding add_gateway_usage
counted_once = (refl, refl)

add_gateway_usage-total_example :
    let s : Slot = (some "default", some "key", reported_day) in
    let before = (add_gateway_usage 5000 [] report).0 in
    let after = (add_gateway_usage 5000 before report).0 in
    let own =
      in_slot s (empty_entry report.scope_id report.api_key_id reported_day)
      && not (is_known 5000 before report) in
    ((add_gateway_usage 5000 before report).1 ≡ not (is_known 5000 before report))
    × (knows_attempt report (keep (is_for report.scope_id report.api_key_id reported_day) after)
        ≡ true)
    × (booked (λ e. e.request_count) s after
        ≡ stored (λ e. e.request_count) s (earliest_day 5000) before + when own 1)
    × (booked (λ e. e.total_tokens) s after
        ≡ stored (λ e. e.total_tokens) s (earliest_day 5000) before
          + when own (tokens_of report.usage))
    × (booked (λ e. e.cached_input_tokens) s after
        ≡ stored (λ e. e.cached_input_tokens) s (earliest_day 5000) before
          + when own (cached_of report.usage))
    × (booked (λ e. e.total_cost_micros) s after
        ≡ stored (λ e. e.total_cost_micros) s (earliest_day 5000) before
          + when own (or_else (safe_cost report.settled_cost_micros) 0))
add_gateway_usage-total_example =
    add_gateway_usage-total 5000 (add_gateway_usage 5000 [] report).0 report
      (some "default", some "key", reported_day)
