-- ===== src/Outcomes/Status.antt =====
-- node/src/upstream-outcomes.js: `classifyHttpResponse`, `classifySseEvent` and what they share. An
-- answer arrives as its status and the fields that `structuredError` reads; the texts that a verdict
-- carries along for reports are left out.
use codex_pooler.Prelude.{
  ℕ, String, Bool, true, false, not, ◌&&◌, ◌||◌, Option, none, some, List, [], ◌∷◌, leb, ltb, ◌==◌,
  if◌then◌else◌, any, str_eq, is_some, or_else,
}

pub data UpstreamType : Type 0 where
  codex compass claude : UpstreamType

pub data OutcomeClass : Type 0 where
  quota credential transient success caller neutral unknown : OutcomeClass

abbrev pub is_claude : UpstreamType → Bool
is_claude claude = true
is_claude _ = false

abbrev pub is_codex : UpstreamType → Bool
is_codex codex = true
is_codex _ = false

abbrev pub is_compass : UpstreamType → Bool
is_compass compass = true
is_compass _ = false

-- What `structuredError` reads of an error. Its status, which may be null, is there where the fields
-- are spread into a verdict; `outcomeForStatus` is also called with fields that have none.
pub record ErrorFields : Type 0 where
  pub code : Option String
  pub error_type : Option String
  pub param : Option String
  pub fast_mode_credits : Bool
  pub status : Option (Option ℕ)

pub record Verdict : Type 0 where
  pub outcome_class : OutcomeClass
  pub retryable : Bool
  pub status : Option ℕ
  pub model_not_found : Bool
  pub model_scoped : Bool

-- The `anthropic-ratelimit-unified-…-status` headers, in lower case.
pub record RateLimitStatus : Type 0 where
  pub shared_5h : Option String
  pub shared_7d : Option String
  pub aggregate : Option String
  pub overage_7d : Option String

abbrev pub one_of : List String → Option String → Bool
one_of names none = false
one_of names (some s) = any (str_eq s) names

abbrev pub verdict : OutcomeClass → Bool → Option ℕ → Verdict
verdict c retryable status = record {
  outcome_class = c;
  retryable = retryable;
  status = status;
  model_not_found = false;
  model_scoped = false;
}

pub is_model_not_found : ErrorFields → Bool
is_model_not_found e =
    one_of ("model_not_found" ∷ []) e.code
    || one_of ("model_not_found" ∷ []) e.error_type
    || (one_of ("invalid_request_error" ∷ []) e.error_type && one_of ("model" ∷ []) e.param)

pub quota_code : ErrorFields → Bool
quota_code e =
    one_of
      ("rate_limit_exceeded" ∷ "insufficient_quota" ∷ "usage_limit_reached" ∷ "quota_exceeded" ∷ [])
      e.code
    || one_of ("rate_limit_error" ∷ "insufficient_quota" ∷ []) e.error_type

pub credential_code : ErrorFields → Bool
credential_code e =
    one_of ("invalid_api_key" ∷ "invalid_token" ∷ "token_expired" ∷ "authentication_error" ∷ [])
      e.code
    || one_of ("authentication_error" ∷ "permission_error" ∷ []) e.error_type

pub caller_code : ErrorFields → Bool
caller_code e =
    one_of
      ("bad_request" ∷ "invalid_parameter" ∷ "unknown_parameter" ∷ "invalid_request"
        ∷ "unsupported_parameter" ∷ [])
      e.code
    || one_of ("bad_request_error" ∷ "invalid_request_error" ∷ []) e.error_type

-- The codes with which a 403 speaks of the credential and not of the request.
unfoldable pub is_auth_error : ErrorFields → Bool
is_auth_error e =
    one_of ("invalid_api_key" ∷ "invalid_token" ∷ "token_expired" ∷ "authentication_error" ∷ [])
      e.code
    || one_of ("authentication_error" ∷ []) e.error_type

unfoldable pub is_misalignment : ErrorFields → Bool
is_misalignment e = one_of ("misalignment_policy_violation" ∷ []) e.code

abbrev is_allowed : Option String → Bool
is_allowed = one_of ("allowed" ∷ "allowed_warning" ∷ [])

abbrev is_rejected : Option String → Bool
is_rejected = one_of ("rejected" ∷ [])

-- `claudeRateLimitDetails(…).credentialScoped`.
pub is_credential_scoped : RateLimitStatus → Bool
is_credential_scoped l =
    if is_rejected l.shared_5h || is_rejected l.shared_7d
    then true
    else if not (is_rejected l.aggregate)
    then false
    else not (is_allowed l.shared_5h && is_allowed l.shared_7d && is_rejected l.overage_7d)

abbrev pub within : ℕ → ℕ → ℕ → Bool
within low high s = leb low s && ltb s high

-- A verdict with `status, ...metadata`: the status of the fields, where there is one, replaces it.
abbrev spread_verdict : OutcomeClass → Bool → Option ℕ → ErrorFields → Verdict
spread_verdict c retryable status e = verdict c retryable (or_else e.status status)

abbrev caller_verdict : ℕ → ErrorFields → Verdict
caller_verdict s e =
    if is_model_not_found e
    then record (spread_verdict caller true (some s) e) { model_not_found = true }
    else spread_verdict caller false (some s) e

unfoldable pub outcome_for_status : Option ℕ → ErrorFields → Bool → Verdict
outcome_for_status none e allow = verdict unknown false none
outcome_for_status (some s) e allow =
    if within 200 300 s
    then verdict success false (some s)
    else if within 300 400 s
    then verdict neutral false (some s)
    else if allow && (s == 400 || s == 403) && is_misalignment e
    then verdict neutral false (some s)
    else if s == 401 || s == 403
    then spread_verdict credential true (some s) e
    else if s == 402
    then spread_verdict quota true (some s) e
    else if s == 429
    then (if e.fast_mode_credits
        then spread_verdict caller false (some s) e
        else spread_verdict quota true (some s) e)
    else if within 400 500 s
    then caller_verdict s e
    else if within 500 600 s
    then spread_verdict transient true (some s) e
    else spread_verdict unknown false (some s) e

-- A rate limit of a Claude model that leaves the credential alone.
abbrev pub model_limit : Option ℕ → ErrorFields → Verdict
model_limit status e =
    if e.fast_mode_credits
    then spread_verdict neutral false status e
    else record (spread_verdict neutral true status e) { model_scoped = true }

abbrev pub status_is : ℕ → Option ℕ → Bool
status_is s none = false
status_is s (some t) = t == s

-- `fastModeCreditsRequired(structured.message)`: `structuredError` returns no `message`, so the
-- last guard is never told of missing credits.
unfoldable pub classify_http_response :
    Option ℕ → ErrorFields → RateLimitStatus → Bool → UpstreamType → String → Verdict
unfolding outcome_for_status
classify_http_response status e limits allow t quota_source =
    if status_is 403 status
      && is_compass t
      && one_of ("ais" ∷ "aiswitch" ∷ []) (some quota_source)
      && not (is_auth_error e)
    then verdict caller false status
    else if status_is 429 status && is_claude t && not (is_credential_scoped limits)
    then model_limit status e
    else if status_is 403 status && is_codex t && not (is_auth_error e)
    then verdict caller false status
    else outcome_for_status status (record e { fast_mode_credits = false; status = none }) allow

-- An event with the answers of `quotaIncompleteReason`, `failedIncompleteResponse` and
-- `responseValidationError` on it, and the status between 100 and 599 that it names.
pub record SseEvent : Type 0 where
  pub event_type : String
  pub error : ErrorFields
  pub status : Option ℕ
  pub quota_incomplete : Bool
  pub failed_incomplete : Bool
  pub invalid : Bool

pub is_failure_type : SseEvent → Bool
is_failure_type v = one_of ("error" ∷ "response.failed" ∷ []) (some v.event_type)

pub is_terminal_type : SseEvent → Bool
is_terminal_type v = one_of ("response.completed" ∷ "response.incomplete" ∷ []) (some v.event_type)

-- What is left when no status tells.
unfoldable pub classify_error : ErrorFields → Verdict
classify_error e =
    if quota_code e
    then verdict quota true none
    else if credential_code e
    then verdict credential true none
    else if is_model_not_found e
    then record (verdict caller true none) { model_not_found = true }
    else if caller_code e
    then verdict caller false none
    else verdict transient true none

unfoldable pub by_type : SseEvent → Verdict
unfolding classify_error
by_type v =
    if not (is_failure_type v) && not v.failed_incomplete
    then (if is_terminal_type v then verdict success false none else verdict neutral false none)
    else classify_error v.error

unfoldable pub by_status : SseEvent → Bool → Option ℕ → Verdict
unfolding outcome_for_status by_type
by_status v allow none = by_type v
by_status v allow (some s) =
    if leb 400 s || not v.failed_incomplete
    then outcome_for_status (some s) v.error allow
    else by_type v

unfoldable pub classify_sse_event : SseEvent → Bool → UpstreamType → RateLimitStatus → Verdict
unfolding by_status
classify_sse_event v allow t limits =
    if allow && is_misalignment v.error
    then verdict neutral false none
    else if v.quota_incomplete
    then verdict quota true none
    else if is_failure_type v && v.invalid && (not (is_some v.status) || status_is 400 v.status)
    then verdict caller false none
    else if is_claude t
        && (status_is 429 v.status || quota_code v.error)
        && not (is_credential_scoped limits)
    then model_limit v.status v.error
    else by_status v allow v.status
