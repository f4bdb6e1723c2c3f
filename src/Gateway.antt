-- ===== src/Gateway.antt =====
-- node/src/store.js: the requests that the gateway accounts for, their attempts and the daily usage:
-- `reserveGatewayRequest`, `beginGatewayAttempt`, `retryGatewayAttempt`, `finalizeGatewayRequest` and
-- `recordGatewayUsage`. The store hands out its live objects, so what an operation has written before
-- it throws stays: a result carries the database also where it is an error. Instants are
-- milliseconds, a day is a number of days, codes are lists of code points. The timings of attempts
-- and the diagnostics that are kept beside the database are left out.
pub mod Usage
pub mod Operations
pub mod Finalizing
pub mod Rows
pub mod Invariant
pub mod Preserving
pub mod Steps
pub mod Endings
pub mod Finality
pub mod History
pub mod Booking
pub mod Counting
mod Tests
use codex_pooler.Prelude.{
  ℕ, zero, suc, ◌+◌, ◌-◌, ◌*◌, ◌≤◌, String, Bool, true, false, not, ◌&&◌, ◌||◌, Option, none, some,
  List, [], ◌∷◌, ◌++◌, map, leb, ltb, ◌==◌, if◌then◌else◌, any, all, keep, length, take, drop,
  str_eq, is_some, or_else,
}
use codex_pooler.Spending.{Spending}
use codex_pooler.Gateway.Usage.{UsageEntry, take_last}

pub data RequestStatus : Type 0 where
  accepted in_progress succeeded failed : RequestStatus

pub data UsageStatus : Type 0 where
  usage_pending usage_known usage_unknown not_applicable : UsageStatus

pub data AttemptStatus : Type 0 where
  attempt_in_progress retryable_failed attempt_succeeded attempt_failed : AttemptStatus

abbrev pub Code : Type 0
Code = List ℕ

-- A failed request forgets its scope, its key and its model.
pub record Request : Type 0 where
  pub id : String
  pub scope_id : Option String
  pub api_key_id : Option String
  pub endpoint : String
  pub model : Option String
  pub transport : String
  pub status : RequestStatus
  pub usage_status : UsageStatus
  pub admitted_at : ℕ
  pub completed_at : Option ℕ
  pub response_status_code : Option ℕ
  pub last_error_code : Option Code
  pub retry_count : ℕ
  pub exclusion_reasons : List Code

pub record Attempt : Type 0 where
  pub id : String
  pub request_id : String
  pub upstream_id : Option String
  pub attempt_number : ℕ
  pub transport : String
  pub status : AttemptStatus
  pub retryable : Bool
  pub started_at : ℕ
  pub completed_at : Option ℕ
  pub response_status_code : Option ℕ
  pub error_code : Option Code
  pub termination : Option String

pub record ApiKey : Type 0 where
  pub id : String
  pub scope_id : String

pub record Account : Type 0 where
  pub id : String
  pub scope_id : String
  pub spending : Spending

pub record Database : Type 0 where
  pub scopes : List String
  pub api_keys : List ApiKey
  pub upstreams : List Account
  pub gateway_requests : List Request
  pub gateway_attempts : List Attempt
  pub gateway_usage : List UsageEntry

pub data GatewayError : Type 0 where
  key_required scope_not_found key_not_found request_not_found attempt_not_found : GatewayError
  request_finalized attempt_finalized upstream_not_found bad_status attempt_required : GatewayError
  usage_refused : GatewayError

pub data Reply (A : Type 0) : Type 0 where
  thrown : Database → GatewayError → Reply A
  returned : Database → A → Reply A

abbrev pub database_of : {A : Type 0} → Reply A → Database
database_of (thrown db e) = db
database_of (returned db a) = db

abbrev pub gateway_error_history_limit : ℕ
gateway_error_history_limit = 100

abbrev pub stream_terminations : List String
stream_terminations =
    "http_body_done" ∷ "http_transport_error" ∷ "http_protocol_error" ∷ "http_receive_timeout"
    ∷ "downstream_closed" ∷ "pooler_stream_cancel" ∷ []

abbrev pub find : {A : Type 0} → (A → Bool) → List A → Option A
find p [] = none
find p (x ∷ xs) = if p x then some x else find p xs

abbrev pub replace_where : {A : Type 0} → (A → Bool) → (A → A) → List A → List A
replace_where p f [] = []
replace_where p f (x ∷ xs) = if p x then f x ∷ xs else x ∷ replace_where p f xs

-- `items.filter((item) => item.scopeId === scopeId)`, or all where there is no scope.
abbrev pub scoped : List Account → Option String → List Account
scoped us none = us
scoped us (some s) = if str_eq s "" then us else keep (λ u. str_eq u.scope_id s) us

abbrev pub has_request_id : String → Request → Bool
has_request_id id r = str_eq r.id id

abbrev pub is_attempt : String → String → Attempt → Bool
is_attempt request_id id a = str_eq a.id id && str_eq a.request_id request_id

abbrev pub belongs_to : String → Attempt → Bool
belongs_to id a = str_eq a.request_id id

abbrev pub find_gateway_request : Database → String → Option Request
find_gateway_request db id = find (has_request_id id) db.gateway_requests

abbrev pub find_gateway_attempt : Database → String → String → Option Attempt
find_gateway_attempt db request_id id = find (is_attempt request_id id) db.gateway_attempts

abbrev pub safe_status_code : Option ℕ → Option ℕ
safe_status_code none = none
safe_status_code (some s) = if leb 100 s && leb s 599 then some s else none

-- `/^[a-z0-9][a-z0-9_.-]{0,79}$/`.
abbrev pub is_alphanumeric : ℕ → Bool
is_alphanumeric c = (leb 97 c && leb c 122) || (leb 48 c && leb c 57)

abbrev pub is_code_char : ℕ → Bool
is_code_char c = is_alphanumeric c || c == 95 || c == 46 || c == 45

abbrev pub is_code : Code → Bool
is_code [] = false
is_code (c ∷ cs) = is_alphanumeric c && leb (length cs) 79 && all is_code_char cs

abbrev pub safe_diagnostic_code : Option Code → Option Code
safe_diagnostic_code none = none
safe_diagnostic_code (some c) = if is_code c then some c else none

abbrev pub safe_stream_termination : Option String → Option String
safe_stream_termination none = none
safe_stream_termination (some t) = if any (str_eq t) stream_terminations then some t else none

abbrev pub code_eq : Code → Code → Bool
code_eq [] [] = true
code_eq [] (_ ∷ _) = false
code_eq (_ ∷ _) [] = false
code_eq (a ∷ more) (b ∷ others) = a == b && code_eq more others

-- `[...new Set(codes)]`: each code at its first place.
unfoldable pub distinct_codes : List Code → List Code
distinct_codes [] = []
distinct_codes (c ∷ cs) = c ∷ keep (λ d. not (code_eq c d)) (distinct_codes cs)

unfoldable pub sanitize_exclusion_reasons : List Code → List Code
unfolding distinct_codes
sanitize_exclusion_reasons cs = distinct_codes (take 32 (keep is_code cs))

-- The codes that are there and not empty.
abbrev pub code_of : Option Code → List Code
code_of none = []
code_of (some []) = []
code_of (some (c ∷ cs)) = (c ∷ cs) ∷ []

abbrev pub error_codes : List Attempt → List Code
error_codes [] = []
error_codes (a ∷ more) = code_of a.error_code ++ error_codes more

-- `gatewayRequest` and `gatewayAttempts`.
abbrev pub gateway_attempts_of : Database → String → List Attempt
gateway_attempts_of db request_id = keep (belongs_to request_id) db.gateway_attempts
