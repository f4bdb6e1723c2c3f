-- ===== src/Outcomes/Blame.antt =====
-- node/src/upstream-outcomes.js, `classifyHttpResponse`: the class of an answer by its status.
use codex_pooler.Prelude.{
  ℕ, ◌≡◌, refl, String, Bool, true, false, not, ◌&&◌, ◌||◌, none, some, arith, [], ◌∷◌, ltb, ◌==◌,
  if◌then◌else◌, Bool-cases, inl, inr, sym, ◌∙◌,
}
use codex_pooler.Outcomes.Status.{
  OutcomeClass, quota, credential, transient, success, caller, neutral, unknown, UpstreamType,
  codex, ErrorFields, RateLimitStatus, outcome_for_status, classify_http_response, is_auth_error,
  is_misalignment, is_claude, is_credential_scoped, compass, claude, one_of,
}

-- Whom a status blames, in itself: who answers, what the body says of the credential and how far a
-- rate limit reaches decide about a 403 and a 429.
abbrev pub blame : ℕ → Bool → Bool → OutcomeClass
blame s is_credentials is_models =
    if ltb s 200
    then unknown
    else if ltb s 300
    then success
    else if ltb s 400
    then neutral
    else if s == 401 || (s == 403 && is_credentials)
    then credential
    else if s == 402 || (s == 429 && not is_models)
    then quota
    else if s == 429
    then neutral
    else if ltb s 500
    then caller
    else if ltb s 600
    then transient
    else unknown

-- Whether a 403 is about the credential: with a Codex account, or a Compass account that a quota is
-- read of, only when its error says so.
abbrev pub blames_credential : ErrorFields → UpstreamType → String → Bool
blames_credential e codex source = is_auth_error e
blames_credential e compass source =
    is_auth_error e || not (one_of ("ais" ∷ "aiswitch" ∷ []) (some source))
blames_credential e claude source = true

outcome_for_status-blame :
    (s : ℕ) (e : ErrorFields) (allow : Bool)
    → (allow && is_misalignment e) ≡ false
    → e.fast_mode_credits ≡ false
    → (outcome_for_status (some s) e allow).outcome_class ≡ blame s true false
unfolding outcome_for_status is_misalignment
outcome_for_status-blame s e allow plain free = ground arith

blame_other :
    (s : ℕ) (a b : Bool)
    → (s == 403) ≡ false
    → (s == 429) ≡ false
    → blame s a b ≡ blame s true false
blame_other s a b not_403 not_429 = rw (not_403, not_429) refl

blame_403 :
    (s : ℕ) (a b : Bool) → (s == 403) ≡ true → blame s a b ≡ (if a then credential else caller)
blame_403 s a b h = ground arith

blame_429 : (s : ℕ) (a b : Bool) → (s == 429) ≡ true → blame s a b ≡ (if b then neutral else quota)
blame_429 s a b h = ground arith

module _ (s : ℕ) (e : ErrorFields) (limits : RateLimitStatus) (allow : Bool) (t : UpstreamType)
    (source : String) where
  abbrev by_code : OutcomeClass
  by_code =
      (outcome_for_status (some s) (record e { fast_mode_credits = false; status = none })
        allow).outcome_class

  by_403 :
      (s == 403) ≡ true
      → by_code ≡ credential
      → (classify_http_response (some s) e limits allow t source).outcome_class
        ≡ (if blames_credential e t source then credential else caller)
  unfolding classify_http_response
  by_403 h blamed = ground arith

  by_429 :
      (s == 429) ≡ true
      → by_code ≡ quota
      → (classify_http_response (some s) e limits allow t source).outcome_class
        ≡ (if is_claude t && not (is_credential_scoped limits) then neutral else quota)
  unfolding classify_http_response
  by_429 h blamed = ground arith

  by_other :
      (s == 403) ≡ false
      → (s == 429) ≡ false
      → (classify_http_response (some s) e limits allow t source).outcome_class ≡ by_code
  unfolding classify_http_response
  by_other not_403 not_429 = ground arith

pub classify_http_response-blame :
    (s : ℕ) (e : ErrorFields) (limits : RateLimitStatus) (allow : Bool) (t : UpstreamType)
    (source : String)
    → (allow && is_misalignment e) ≡ false
    → (classify_http_response (some s) e limits allow t source).outcome_class
      ≡ blame s (blames_credential e t source) (is_claude t && not (is_credential_scoped limits))
unfolding classify_http_response is_misalignment
classify_http_response-blame s e limits allow t source plain =
    let e' : ErrorFields = record e { fast_mode_credits = false; status = none } in
    let by_code = outcome_for_status-blame s e' allow plain refl in
    let a = blames_credential e t source in
    let b = is_claude t && not (is_credential_scoped limits) in
    elim (Bool-cases (s == 403)) [
      | inl h ↦
          by_403 s e limits allow t source h (by_code ∙ blame_403 s true false h)
          ∙ sym (blame_403 s a b h)
      | inr n ↦ elim (Bool-cases (s == 429)) [
        | inl h ↦
            by_429 s e limits allow t source h (by_code ∙ blame_429 s true false h)
            ∙ sym (blame_429 s a b h)
        | inr m ↦ by_other s e limits allow t source n m ∙ by_code ∙ sym (blame_other s a b n m)
      ]
    ]
