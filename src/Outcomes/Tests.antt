-- ===== src/Outcomes/Tests.antt =====
-- Cooldowns and verdicts at concrete answers.
use codex_pooler.Prelude.{
  Bool, String, ◌==◌, ℕ, ◌≡◌, refl, true, false, Option, none, some, List, [], ◌∷◌,
}
use codex_pooler.Outcomes.Cooldown.{
  parse_reset_cooldown_ms, reset_rounds, parse_reset_cooldown_ms-IsShortest, IsShortest,
}
use codex_pooler.Outcomes.Status.{claude, ErrorFields, RateLimitStatus, SseEvent}
use codex_pooler.Outcomes.Status.{Verdict, verdict, transient}
use codex_pooler.HostHealth.Cause.{Fault, dispatch_blocked, blocked_walk}
use codex_pooler.Outcomes.Transport.{
  TransportError, classify_transport_error, transport_code, Rule,
  apply_claude_request_scoped_action, claude_request_scoped_action, scan_rules, rule_applies,
  parse_action,
}

abbrev resets : List (Option ℕ)
resets = none ∷ some 90 ∷ some 60 ∷ []

-- The nearest reset that is still to come is at 60 s.
nearest_reset : parse_reset_cooldown_ms resets 50000 ≡ some 10000
unfolding parse_reset_cooldown_ms reset_rounds
nearest_reset = refl

parse_reset_cooldown_ms-IsShortest_example :
    IsShortest 50000 resets (parse_reset_cooldown_ms resets 50000)
parse_reset_cooldown_ms-IsShortest_example = parse_reset_cooldown_ms-IsShortest resets 50000

abbrev no_credits : ErrorFields
no_credits = record {
  code = some "fast_mode";
  error_type = some "rate_limit_error";
  param = none;
  fast_mode_credits = true;
  status = some none;
}

abbrev expired : ErrorFields
expired = record {
  code = some "token_expired";
  error_type = none;
  param = none;
  fast_mode_credits = false;
  status = some none;
}

abbrev no_limits : RateLimitStatus
no_limits = record { shared_5h = none; shared_7d = none; aggregate = none; overage_7d = none }

abbrev event : SseEvent
event = record {
  event_type = "error";
  error = no_credits;
  status = some 429;
  quota_incomplete = false;
  failed_incomplete = false;
  invalid = false;
}

-- Two errors in a chain: the request was refused before it was sent.
abbrev chain : ℕ → Fault
chain i = record { dispatch_blocked = i == 1; code = some "EPIPE"; cause = some 1 }

abbrev lost : TransportError
lost = record { failure_kind = none; name = none; error = some 0 }

lost_connection :
    (classify_transport_error
      (λ s. s)
      (λ _. 5)
      (λ i. record (chain i) { dispatch_blocked = false })
      lost
      false).transport
    ≡ "EPIPE"
unfolding classify_transport_error transport_code dispatch_blocked blocked_walk
lost_connection = refl

abbrev rules : List Rule
rules =
    record { status = some 500; matches = "busy" ∷ []; patterns = []; action = "stop" }
    ∷ record { status = some 529; matches = "busy" ∷ []; patterns = []; action = "wait" }
    ∷ record {
      status = some 529;
      matches = [];
      patterns = "b.*" ∷ [];
      action = "stop-and-cooldown";
    }
    ∷ []

abbrev seen : String → Bool
seen s = true

abbrev busy : Verdict
busy = verdict transient true (some 529)

-- The second rule names no action, so the third decides.
third_rule_decides :
    (apply_claude_request_scoped_action seen seen (λ _. 3) busy claude (some 529) rules).retryable
    ≡ false
unfolding apply_claude_request_scoped_action claude_request_scoped_action scan_rules rule_applies
    parse_action
third_rule_decides = refl
