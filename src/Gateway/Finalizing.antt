-- ===== src/Gateway/Finalizing.antt =====
-- node/src/store.js: `finalizeGatewayRequest`.
use codex_pooler.Prelude.{
  ℕ, String, Bool, true, false, ◌||◌, Option, none, some, List, ◌++◌, if◌then◌else◌, str_eq,
  is_some,
}
use codex_pooler.Spending.{Spending, CostSource, UsageResult, refused, recorded, record_usage}
use codex_pooler.Gateway.Usage.{TokenUsage, UsageReport, add_gateway_usage, safe_cost}
use codex_pooler.Gateway.{
  Database, Request, succeeded, failed, UsageStatus, usage_known, usage_unknown, not_applicable,
  Attempt, attempt_succeeded, attempt_failed, Code, Account, request_not_found, attempt_not_found,
  request_finalized, attempt_finalized, upstream_not_found, bad_status, attempt_required,
  usage_refused, Reply, thrown, returned, find, replace_where, has_request_id, is_attempt,
  gateway_attempts_of, find_gateway_request, find_gateway_attempt, safe_status_code,
  safe_diagnostic_code, safe_stream_termination, sanitize_exclusion_reasons, error_codes,
}
use codex_pooler.Gateway.Operations.{
  is_account, is_open_attempt, prune_gateway_history, delete_gateway_request,
}

-- How a request ends.
pub data Ending : Type 0 where
  success failure : Ending

-- An ending is absent where the status is neither of the two.
pub record FinalizeInput : Type 0 where
  pub request_id : String
  pub attempt_id : Option String
  pub ending : Option Ending
  pub response_status_code : Option ℕ
  pub error_code : Option Code
  pub termination : Option String
  pub exclusion_reasons : List Code
  pub usage : Option TokenUsage
  pub settled_cost_micros : Option ℕ
  pub cost_source : Option CostSource
  pub completed_at : ℕ

abbrev pub is_success : Ending → Bool
is_success success = true
is_success failure = false

abbrev pub observed_termination : FinalizeInput → Attempt → Option String
observed_termination input a = elim (safe_stream_termination input.termination) [
  | some t ↦ some t
  | none ↦ a.termination
]

abbrev pub finish_attempt : FinalizeInput → Ending → Attempt → Attempt
finish_attempt input e a = record a {
  status = if is_success e then attempt_succeeded else attempt_failed;
  retryable = false;
  response_status_code = safe_status_code input.response_status_code;
  error_code = safe_diagnostic_code input.error_code;
  completed_at = some input.completed_at;
  termination = observed_termination input a;
  upstream_id = if is_success e then a.upstream_id else none;
}

abbrev pub usage_status_of : FinalizeInput → Ending → UsageStatus
usage_status_of input e =
    if is_some input.usage
    then usage_known
    else if is_success e
    then usage_unknown
    else not_applicable

abbrev pub finish_request : FinalizeInput → Ending → List Code → Request → Request
finish_request input e attempt_reasons r = record r {
  status = if is_success e then succeeded else failed;
  usage_status = usage_status_of input e;
  response_status_code = safe_status_code input.response_status_code;
  last_error_code = safe_diagnostic_code input.error_code;
  exclusion_reasons = sanitize_exclusion_reasons (input.exclusion_reasons ++ attempt_reasons);
  completed_at = some input.completed_at;
  scope_id = if is_success e then r.scope_id else none;
  api_key_id = if is_success e then r.api_key_id else none;
  model = if is_success e then r.model else none;
}

abbrev pub non_empty : Option String → Option String
non_empty none = none
non_empty (some s) = if str_eq s "" then none else some s

abbrev pub find_account : Database → String → Option Account
find_account db id = find (is_account id) db.upstreams

-- The account that an attempt's safe cost is charged to.
abbrev pub charged_upstream : FinalizeInput → Option Attempt → Option String
charged_upstream input none = none
charged_upstream input (some a) =
    if is_some (safe_cost input.settled_cost_micros) then non_empty a.upstream_id else none

abbrev pub report_of : FinalizeInput → Request → Attempt → UsageReport
report_of input r a = record {
  scope_id = r.scope_id;
  api_key_id = r.api_key_id;
  attempt_id = a.id;
  started_at = some a.started_at;
  usage = input.usage;
  settled_cost_micros = input.settled_cost_micros;
}

abbrev pub set_spending : Spending → Account → Account
set_spending sp u = record u { spending = sp }

abbrev pub store_spending : Database → Account → UsageResult → Reply Unit
store_spending db u (refused e) = thrown db usage_refused
store_spending db u (recorded sp r) =
    returned
      (record db { upstreams = replace_where (is_account u.id) (set_spending sp) db.upstreams }) tt

abbrev pub charge_account : Database → FinalizeInput → Attempt → Option Account → Reply Unit
charge_account db input a none = thrown db upstream_not_found
charge_account db input a (some u) = store_spending db u (
    record_usage u.spending (record {
      attempt_id = a.id;
      cost_source = input.cost_source;
      settled_cost_micros = safe_cost input.settled_cost_micros;
      started_at = some a.started_at;
    }))

abbrev pub charge : Database → FinalizeInput → Attempt → Option String → Reply Unit
charge db input a none = returned db tt
charge db input a (some upstream_id) = charge_account db input a (find_account db upstream_id)

abbrev pub count_usage :
    Database → ℕ → FinalizeInput → Ending → Request → Option Attempt → Reply Unit
count_usage db now input e r none = returned db tt
count_usage db now input e r (some a) =
    if is_success e || is_some input.usage
    then charge
        (record db {
          gateway_usage = (add_gateway_usage now db.gateway_usage (report_of input r a)).0;
        })
        input a (charged_upstream input (some a))
    else returned db tt

-- The account that is saved last must be there.
abbrev pub save_account : {A : Type 0} → Database → Option String → A → Reply A
save_account db none result = returned db result
save_account db (some id) result =
    if is_some (find_account db id) then returned db result else thrown db upstream_not_found

abbrev pub remove_finished : Database → FinalizeInput → Ending → Database
remove_finished db input e =
    prune_gateway_history true
      (if is_success e then delete_gateway_request input.request_id db else db)

abbrev pub Finalized : Type 0
Finalized = Request × Option Attempt

abbrev pub finish_history :
    FinalizeInput → Ending → Option Attempt → Finalized → Reply Unit → Reply Finalized
finish_history input e attempt result (thrown db error) = thrown db error
finish_history input e attempt result (returned db _) =
    save_account (remove_finished db input e) (charged_upstream input attempt) result

abbrev pub map_attempt : (Attempt → Attempt) → Option Attempt → Option Attempt
map_attempt f none = none
map_attempt f (some a) = some (f a)

abbrev pub store_attempt : Database → FinalizeInput → Ending → Option Attempt → Database
store_attempt db input e none = db
store_attempt db input e (some a) = record db {
  gateway_attempts =
      replace_where (is_attempt input.request_id a.id) (finish_attempt input e) db.gateway_attempts;
}

abbrev pub store_request : Database → FinalizeInput → Ending → List Code → Database
store_request db input e reasons = record db {
  gateway_requests =
      replace_where (has_request_id input.request_id) (finish_request input e reasons)
        db.gateway_requests;
}

abbrev pub close_request :
    Database → ℕ → FinalizeInput → Ending → Request → Option Attempt → Reply Finalized
close_request db now input e r attempt =
    let with_attempt = store_attempt db input e attempt in
    let reasons = error_codes (gateway_attempts_of with_attempt input.request_id) in
    let closed = store_request with_attempt input e reasons in
    finish_history input e attempt
      (finish_request input e reasons r, map_attempt (finish_attempt input e) attempt)
      (count_usage closed now input e r attempt)

abbrev pub finalize_attempt_of :
    Database → ℕ → FinalizeInput → Ending → Request → Option Attempt → Reply Finalized
finalize_attempt_of db now input e r none = thrown db attempt_not_found
finalize_attempt_of db now input e r (some a) =
    if is_open_attempt a
    then close_request db now input e r (some a)
    else thrown db attempt_finalized

abbrev pub finalize_with :
    Database → ℕ → FinalizeInput → Ending → Request → Option String → Reply Finalized
finalize_with db now input e r none =
    if is_success e then thrown db attempt_required else close_request db now input e r none
finalize_with db now input e r (some id) =
    finalize_attempt_of db now input e r (find_gateway_attempt db input.request_id id)

abbrev pub finalize_request_of :
    Database → ℕ → FinalizeInput → Ending → Option Request → Reply Finalized
finalize_request_of db now input e none = thrown db request_not_found
finalize_request_of db now input e (some r) =
    if is_some r.completed_at
    then thrown db request_finalized
    else finalize_with db now input e r (non_empty input.attempt_id)

abbrev pub finalize_ending : Database → ℕ → FinalizeInput → Option Ending → Reply Finalized
finalize_ending db now input none = thrown db bad_status
finalize_ending db now input (some e) =
    finalize_request_of db now input e (find_gateway_request db input.request_id)

-- `finalizeGatewayRequest`; `now` is the present time, by which old days are dropped.
unfoldable pub finalize_gateway_request : Database → ℕ → FinalizeInput → Reply Finalized
unfolding prune_gateway_history delete_gateway_request record_usage add_gateway_usage
    sanitize_exclusion_reasons
finalize_gateway_request db now input = finalize_ending db now input input.ending
