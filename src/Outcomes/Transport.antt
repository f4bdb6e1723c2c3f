-- ===== src/Outcomes/Transport.antt =====
-- node/src/upstream-outcomes.js: `classifyTransportError`, for a request that got no answer, and the
-- request-scoped rules of a Claude account, `claudeRequestScopedAction` and
-- `applyClaudeRequestScopedAction`. The rules are those read from the account's metadata.
use codex_pooler.Prelude.{
  ℕ, zero, suc, ◌⊎◌, ◌≡◌, refl, String, Bool, true, false, not, ◌&&◌, ◌||◌, Option, none, some,
  List, [], ◌∷◌, arith, leb, if◌then◌else◌, any, str_eq, take, drop, All, Bool-cases, Option-cases,
  first_some, ap, sym, ◌∙◌, inl, inr,
}
use codex_pooler.HostHealth.Cause.{Fault, dispatch_blocked}
use codex_pooler.Outcomes.Status.{
  OutcomeClass, quota, transient, neutral, UpstreamType, is_claude, Verdict, one_of, status_is,
}

-- What went wrong, with the error's place on the heap.
pub record TransportError : Type 0 where
  pub failure_kind : Option String
  pub name : Option String
  pub error : Option ℕ

pub record TransportVerdict : Type 0 where
  pub outcome_class : OutcomeClass
  pub retryable : Bool
  pub transport : String

abbrev transient_transport_codes : List String
transient_transport_codes =
    "ECONNRESET" ∷ "ECONNREFUSED" ∷ "EPIPE" ∷ "ETIMEDOUT" ∷ "ENOTFOUND" ∷ "EAI_AGAIN"
    ∷ "ENETUNREACH" ∷ "ENETDOWN" ∷ "EHOSTUNREACH" ∷ "UND_ERR_CONNECT_TIMEOUT"
    ∷ "UND_ERR_HEADERS_TIMEOUT" ∷ "UND_ERR_BODY_TIMEOUT" ∷ "UND_ERR_SOCKET" ∷ []

abbrev pub neutral_transport : String → TransportVerdict
neutral_transport t = record { outcome_class = neutral; retryable = false; transport = t }

abbrev pub transient_transport : String → TransportVerdict
transient_transport t = record { outcome_class = transient; retryable = true; transport = t }

abbrev listed_transport : Option String → String
listed_transport none = "transport"
listed_transport (some c) = if any (str_eq c) transient_transport_codes then c else "transport"

abbrev pub is_cancelled : TransportError → Bool → Bool
is_cancelled e client_cancelled = client_cancelled || one_of ("cancelled" ∷ []) e.failure_kind

abbrev pub is_transient : OutcomeClass → Bool
is_transient transient = true
is_transient _ = false

-- Parameters as in the walks along causes.
module _ (upper : String → String) (utf16_length : String → ℕ) (heap : ℕ → Fault) where
  abbrev short_code : Option String → Option String
  short_code none = none
  short_code (some c) = if leb (utf16_length c) 64 then some c else none

  unfoldable pub transport_code : ℕ → Option ℕ → Option String
  transport_code zero current = none
  transport_code (suc rounds) none = none
  transport_code (suc rounds) (some i) =
      let rest = transport_code rounds (heap i).cause in
      elim (short_code (heap i).code) [ some c ↦ some c | none ↦ rest ]

  unfoldable pub classify_transport_error : TransportError → Bool → TransportVerdict
  unfolding transport_code
  classify_transport_error e client_cancelled =
      if is_cancelled e client_cancelled
      then neutral_transport "cancelled"
      else if dispatch_blocked upper utf16_length heap 5 e.error
      then neutral_transport "dispatch_blocked"
      else if one_of ("timeout" ∷ []) e.failure_kind || one_of ("TimeoutError" ∷ []) e.name
      then transient_transport "timeout"
      else transient_transport (listed_transport (transport_code 5 e.error))

  -- A request that got no answer is held against the account, and sent to another one, unless the
  -- client gave it up or it was never sent; then it is neither.
  pub classify_transport_error_lem :
      (e : TransportError) (client_cancelled : Bool)
      → let v = classify_transport_error e client_cancelled in
        let spared =
          is_cancelled e client_cancelled || dispatch_blocked upper utf16_length heap 5 e.error in
        (v.retryable ≡ not spared) × (is_transient v.outcome_class ≡ not spared)
  unfolding classify_transport_error
  classify_transport_error_lem e client_cancelled = (ground arith, ground arith)

pub data Action : Type 0 where
  stop stop_and_cooldown continue continue_and_cooldown : Action

-- A rule with its status, the texts and patterns it looks for and its action, trimmed and in lower
-- case.
pub record Rule : Type 0 where
  pub status : Option ℕ
  pub matches : List String
  pub patterns : List String
  pub action : String

unfoldable pub parse_action : String → Option Action
parse_action s =
    if str_eq s "stop"
    then some stop
    else if str_eq s "stop-and-cooldown"
    then some stop_and_cooldown
    else if str_eq s "continue"
    then some continue
    else if str_eq s "continue-and-cooldown"
    then some continue_and_cooldown
    else none

abbrev pub cools : Action → Bool
cools stop_and_cooldown = true
cools continue_and_cooldown = true
cools stop = false
cools continue = false

abbrev pub stops : Action → Bool
stops stop = true
stops stop_and_cooldown = true
stops continue = false
stops continue_and_cooldown = false

abbrev pub scoped_verdict : Action → Verdict → Verdict
scoped_verdict a v = record {
  outcome_class = if cools a then quota else neutral;
  retryable = not (stops a);
  status = v.status;
  model_not_found = v.model_not_found;
  model_scoped = if cools a then false else v.model_scoped;
}

-- Parameters: whether the error's text includes a text, and whether it matches a pattern that can be
-- compiled, both the platform's.
module _ (text_includes pattern_matches : String → Bool) (utf16_length : String → ℕ) where
  abbrev includes_text : String → Bool
  includes_text s = not (str_eq s "") && text_includes s

  abbrev matches_pattern : String → Bool
  matches_pattern s = not (str_eq s "") && leb (utf16_length s) 256 && pattern_matches s

  unfoldable pub rule_applies : ℕ → Rule → Bool
  rule_applies code r =
      status_is code r.status && (any includes_text r.matches || any matches_pattern r.patterns)

  unfoldable pub scan_rules : ℕ → List Rule → Option Action
  unfolding rule_applies parse_action
  scan_rules code [] = none
  scan_rules code (r ∷ rs) =
      let rest = scan_rules code rs in
      if rule_applies code r
      then elim (parse_action r.action) [ some a ↦ some a | none ↦ rest ]
      else rest

  unfoldable pub claude_request_scoped_action : UpstreamType → Option ℕ → List Rule → Option Action
  unfolding scan_rules
  claude_request_scoped_action t none rules = none
  claude_request_scoped_action t (some code) rules =
      if is_claude t then scan_rules code (take 128 rules) else none

  unfoldable pub apply_claude_request_scoped_action :
      Verdict → UpstreamType → Option ℕ → List Rule → Verdict
  unfolding claude_request_scoped_action
  apply_claude_request_scoped_action v t status rules =
      elim (claude_request_scoped_action t status rules) [ none ↦ v | some a ↦ scoped_verdict a v ]

  -- The rule at this place says this, and none before it says anything.
  abbrev pub yields : ℕ → Rule → Option Action
  yields code r = if rule_applies code r then parse_action r.action else none

  abbrev pub IsFirst : ℕ → List Rule → Action → Type 0
  IsFirst code rules a =
      (n : ℕ) × (r : Rule) × (rest : List Rule) × (drop n rules ≡ r ∷ rest)
      × (yields code r ≡ some a)
      × All (λ x. yields code x ≡ none) (take n rules)

  scan_rules-cons :
      (code : ℕ) (r : Rule) (rs : List Rule)
      → scan_rules code (r ∷ rs) ≡ first_some (yields code r) (scan_rules code rs)
  unfolding scan_rules
  scan_rules-cons code r rs = elim (Bool-cases (rule_applies code r)) [
    | inr e ↦ rw (e, scan_rules) refl
    | inl e ↦ elim (Option-cases (parse_action r.action)) [
      | inl n ↦ rw (e, n, scan_rules) refl
      | inr (b, q) ↦ rw (e, q, scan_rules) refl
    ]
  ]

  scan_rules-IsFirst :
      (code : ℕ) (rules : List Rule) (a : Action)
      → scan_rules code rules ≡ some a
      → IsFirst code rules a
  unfolding scan_rules
  scan_rules-IsFirst code [] a h = cc
  scan_rules-IsFirst code (r ∷ rs) a h = elim (Option-cases (yields code r)) [
    | inr (b, e) ↦ (
      0,
      r,
      rs,
      refl,
      e
          ∙ (sym (ap (λ o. first_some o (scan_rules code rs)) e)
              ∙ sym (scan_rules-cons code r rs)
              ∙ h),
      tt,
    )
    | inl e ↦
        let (n, x, rest, d, y, before) = scan_rules-IsFirst code rs a (
          sym (ap (λ o. first_some o (scan_rules code rs)) e)
          ∙ sym (scan_rules-cons code r rs)
          ∙ h) in
        (suc n, x, rest, d, y, (e, before))
  ]

  scoped_claude :
      (t : UpstreamType) (code : ℕ) (rules : List Rule) (a : Action)
      → claude_request_scoped_action t (some code) rules ≡ some a
      → (is_claude t ≡ true) × (scan_rules code (take 128 rules) ≡ some a)
  unfolding claude_request_scoped_action
  scoped_claude t code rules a h = elim (Bool-cases (is_claude t)) [
    | inl e ↦ (e, rw (e, claude_request_scoped_action) at h)
    | inr e ↦ cc (rw (e, claude_request_scoped_action) at h)
  ]

  -- A rule decides only for a Claude account, and then it is the first of the first 128 that fits
  -- the answer and names an action. The action alone says whether the request goes to another
  -- account and whether this one rests. Without such a rule the verdict is as it was.
  pub apply_claude_request_scoped_action_lem :
      (v : Verdict) (t : UpstreamType) (code : ℕ) (rules : List Rule)
      → let r = apply_claude_request_scoped_action v t (some code) rules in
        (r ≡ v)
        ⊎ ((a : Action) × (is_claude t ≡ true)
            × IsFirst code (take 128 rules) a
            × (r ≡ scoped_verdict a v))
  unfolding apply_claude_request_scoped_action
  apply_claude_request_scoped_action_lem v t code rules =
      elim (Option-cases (claude_request_scoped_action t (some code) rules)) [
        | inl e ↦ inl (rw (e, apply_claude_request_scoped_action) refl)
        | inr (a, e) ↦
            let (claude_only, scanned) = scoped_claude t code rules a e in
            inr (
              a,
              claude_only,
              scan_rules-IsFirst code (take 128 rules) a scanned,
              rw (e, apply_claude_request_scoped_action) refl,
            )
      ]
