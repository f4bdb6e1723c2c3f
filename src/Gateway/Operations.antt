-- ===== src/Gateway/Operations.antt =====
-- node/src/store.js: the operations on the gateway's requests and attempts.
use codex_pooler.Prelude.{
  ℕ, ◌+◌, String, Bool, true, false, not, ◌&&◌, ◌||◌, Option, none, some, List, [], ◌∷◌, ◌++◌,
  if◌then◌else◌, any, keep, length, str_eq, is_some,
}
use codex_pooler.Gateway.Usage.{UsageReport, add_gateway_usage, take_last}
use codex_pooler.Gateway.{
  Database, Request, RequestStatus, accepted, in_progress, failed, usage_pending, Attempt,
  attempt_in_progress, retryable_failed, attempt_succeeded, Code, ApiKey, Account, key_required,
  scope_not_found, key_not_found, request_not_found, attempt_not_found, request_finalized,
  attempt_finalized, upstream_not_found, Reply, thrown, returned, gateway_error_history_limit,
  replace_where, scoped, has_request_id, is_attempt, belongs_to, find_gateway_request,
  find_gateway_attempt, safe_status_code, safe_diagnostic_code,
}

abbrev pub is_open_request : Request → Bool
is_open_request r = elim r.status [ accepted ↦ true | in_progress ↦ true | _ ↦ false ]

abbrev pub is_open_attempt : Attempt → Bool
is_open_attempt a = elim a.status [ attempt_in_progress ↦ true | _ ↦ false ]

-- `recordGatewayUsage`, for usage outside of a request.
abbrev pub record_gateway_usage : Database → ℕ → UsageReport → Database
record_gateway_usage db now r =
    if str_eq r.attempt_id ""
    then db
    else record db { gateway_usage = (add_gateway_usage now db.gateway_usage r).0 }

pub record Reservation : Type 0 where
  pub id : String
  pub scope_id : String
  pub api_key_id : String
  pub endpoint : String
  pub model : String
  pub transport : String
  pub admitted_at : ℕ

abbrev pub new_request : Reservation → Request
new_request v = record {
  id = v.id;
  scope_id = some v.scope_id;
  api_key_id = some v.api_key_id;
  endpoint = v.endpoint;
  model = some v.model;
  transport = v.transport;
  status = accepted;
  usage_status = usage_pending;
  admitted_at = v.admitted_at;
  completed_at = none;
  response_status_code = none;
  last_error_code = none;
  retry_count = 0;
  exclusion_reasons = [];
}

abbrev pub is_key : Reservation → ApiKey → Bool
is_key v k = str_eq k.id v.api_key_id && str_eq k.scope_id v.scope_id

-- The identifier of the reservation is the one that `randomUUID` has drawn.
unfoldable pub reserve_gateway_request : Database → Reservation → Reply Request
reserve_gateway_request db v =
    if str_eq v.api_key_id ""
    then thrown db key_required
    else if not (any (λ s. str_eq s v.scope_id) db.scopes)
    then thrown db scope_not_found
    else if not (any (is_key v) db.api_keys)
    then thrown db key_not_found
    else returned (record db { gateway_requests = db.gateway_requests ++ new_request v ∷ [] })
        (new_request v)

abbrev pub is_account : String → Account → Bool
is_account id u = str_eq u.id id

abbrev pub new_attempt : Database → Request → String → String → ℕ → Attempt
new_attempt db r id upstream_id started_at = record {
  id = id;
  request_id = r.id;
  upstream_id = some upstream_id;
  attempt_number = length (keep (belongs_to r.id) db.gateway_attempts) + 1;
  transport = r.transport;
  status = attempt_in_progress;
  retryable = false;
  started_at = started_at;
  completed_at = none;
  response_status_code = none;
  error_code = none;
  termination = none;
}

abbrev pub set_status : RequestStatus → Request → Request
set_status s r = record r { status = s }

abbrev pub begin_attempt_of : Database → Option Request → String → String → ℕ → Reply Attempt
begin_attempt_of db none id upstream_id started_at = thrown db request_not_found
begin_attempt_of db (some r) id upstream_id started_at =
    if is_some r.completed_at || not (is_open_request r)
    then thrown db request_finalized
    else if not (any (is_account upstream_id) (scoped db.upstreams r.scope_id))
    then thrown db upstream_not_found
    else returned
        (record db {
          gateway_requests =
              replace_where (has_request_id r.id) (set_status in_progress) db.gateway_requests;
          gateway_attempts = db.gateway_attempts ++ new_attempt db r id upstream_id started_at ∷ [];
        })
        (new_attempt db r id upstream_id started_at)

-- `id` is the identifier that `randomUUID` has drawn for the attempt.
unfoldable pub begin_gateway_attempt : Database → String → String → String → ℕ → Reply Attempt
begin_gateway_attempt db request_id id upstream_id started_at =
    begin_attempt_of db (find_gateway_request db request_id) id upstream_id started_at

pub record RetryInput : Type 0 where
  pub response_status_code : Option ℕ
  pub error_code : Option Code
  pub completed_at : ℕ

abbrev pub fail_attempt : RetryInput → Attempt → Attempt
fail_attempt input a = record a {
  status = retryable_failed;
  retryable = true;
  response_status_code = safe_status_code input.response_status_code;
  error_code = safe_diagnostic_code input.error_code;
  completed_at = some input.completed_at;
  upstream_id = none;
}

abbrev pub count_retry : Request → Request
count_retry r = record r { status = in_progress; retry_count = r.retry_count + 1 }

abbrev pub retry_attempt_of :
    Database → Option Request → String → Option Attempt → RetryInput → Reply Attempt
retry_attempt_of db none request_id attempt input = thrown db request_not_found
retry_attempt_of db (some r) request_id none input = thrown db attempt_not_found
retry_attempt_of db (some r) request_id (some a) input =
    if is_some r.completed_at || not (is_open_attempt a)
    then thrown db attempt_finalized
    else returned
        (record db {
          gateway_requests =
              replace_where (has_request_id request_id) count_retry db.gateway_requests;
          gateway_attempts =
              replace_where (is_attempt request_id a.id) (fail_attempt input) db.gateway_attempts;
        })
        (fail_attempt input a)

unfoldable pub retry_gateway_attempt : Database → String → String → RetryInput → Reply Attempt
retry_gateway_attempt db request_id attempt_id input =
    retry_attempt_of db (find_gateway_request db request_id) request_id
      (find_gateway_attempt db request_id attempt_id) input

abbrev pub has_request : List Request → String → Bool
has_request rs id = any (has_request_id id) rs

-- A failure that is over.
abbrev pub is_failure : Request → Bool
is_failure r = elim r.status [ failed ↦ is_some r.completed_at | _ ↦ false ]

abbrev pub is_over : Attempt → Bool
is_over a = elim a.status [ attempt_in_progress ↦ false | attempt_succeeded ↦ false | _ ↦ true ]

unfoldable pub prune_gateway_history : Bool → Database → Database
prune_gateway_history keep_active db =
    let requests =
      (if keep_active then keep (λ r. not (is_some r.completed_at)) db.gateway_requests else [])
      ++ take_last gateway_error_history_limit (keep is_failure db.gateway_requests) in
    record db {
      gateway_requests = requests;
      gateway_attempts =
          keep (λ a. has_request requests a.request_id && (keep_active || is_over a))
            db.gateway_attempts;
    }

unfoldable pub delete_gateway_request : String → Database → Database
delete_gateway_request id db = record db {
  gateway_requests = keep (λ r. not (has_request_id id r)) db.gateway_requests;
  gateway_attempts = keep (λ a. not (belongs_to id a)) db.gateway_attempts;
}
