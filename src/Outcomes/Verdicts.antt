-- ===== src/Outcomes/Verdicts.antt =====
-- What the classifiers of answers promise.
use codex_pooler.Prelude.{ℕ, ◌≡◌, refl, String, Bool, true, false, Option, none, some, arith, ◌⊎◌}
use codex_pooler.Outcomes.Status.{
  OutcomeClass, quota, credential, transient, success, caller, neutral, unknown, UpstreamType,
  codex, ErrorFields, Verdict, RateLimitStatus, outcome_for_status, classify_http_response,
  is_auth_error, within,
}

-- Whether a verdict of this class sends the request to another account.
abbrev pub fails_over : OutcomeClass → Verdict → Bool
fails_over quota v = true
fails_over credential v = true
fails_over transient v = true
fails_over caller v = v.model_not_found
fails_over neutral v = v.model_scoped
fails_over success v = false
fails_over unknown v = false

abbrev pub is_success : OutcomeClass → Bool
is_success success = true
is_success _ = false

abbrev pub is_ok : Option ℕ → Bool
is_ok none = false
is_ok (some s) = within 200 300 s

outcome_for_status-success :
    (status : Option ℕ) (e : ErrorFields) (allow : Bool)
    → is_success (outcome_for_status status e allow).outcome_class ≡ is_ok status
unfolding outcome_for_status
outcome_for_status-success none e allow = refl
outcome_for_status-success (some s) e allow = ground arith

abbrev FailsOver : Verdict → Type 0
FailsOver v = v.retryable ≡ fails_over v.outcome_class v

-- An answer over HTTP counts as a success exactly when its status lies in the two hundreds, whatever
-- its body and its headers say.
pub classify_http_success :
    (status : Option ℕ) (e : ErrorFields) (limits : RateLimitStatus) (allow : Bool)
    (t : UpstreamType) (source : String)
    → is_success (classify_http_response status e limits allow t source).outcome_class
      ≡ is_ok status
unfolding classify_http_response
classify_http_success none e limits allow t source =
    outcome_for_status-success none (record e { fast_mode_credits = false; status = none }) allow
classify_http_success (some s) e limits allow t source = ground (
  arith,
  outcome_for_status-success (some s) (record e { fast_mode_credits = false; status = none }) allow,
)

outcome_for_status-credential :
    (s : ℕ) (e : ErrorFields) (allow : Bool)
    → (outcome_for_status (some s) e allow).outcome_class ≡ credential
    → (s ≡ 401) ⊎ (s ≡ 403)
unfolding outcome_for_status
outcome_for_status-credential s e allow h = ground arith

-- Only a 401 or a 403 over HTTP is held against the credential, and with a Codex account a 403 only
-- when its error is about authentication.
pub classify_http_credential :
    (s : ℕ) (e : ErrorFields) (limits : RateLimitStatus) (allow : Bool) (t : UpstreamType)
    (source : String)
    → (classify_http_response (some s) e limits allow t source).outcome_class ≡ credential
    → ((s ≡ 401) ⊎ (s ≡ 403)) × (s ≡ 403 → t ≡ codex → is_auth_error e ≡ true)
unfolding classify_http_response
classify_http_credential s e limits allow t source h = (
  ground (
    arith,
    outcome_for_status-credential s (record e { fast_mode_credits = false; status = none }) allow,
  ),
  λ forbidden is_a_codex. ground arith,
)
