-- ===== src/Routing/Exclusions.antt =====
-- node/src/store.js: who is left out of the plan and why, `eligibilityFromUpstreams`,
-- `candidateExclusionCode` and `filterRoutingCandidates`.
use codex_pooler.Prelude.{
  ℕ, String, Bool, true, false, not, ◌&&◌, ◌||◌, Option, none, some, List, [], ◌∷◌, ◌++◌, map, ltb,
  if◌then◌else◌, any, keep, str_eq, is_some,
}
use codex_pooler.Spending.{
  Exclusion, spend_cap_unset, spend_cap_reached, Candidate, Options, filter_spend_cap_eligible,
}
use codex_pooler.Outcomes.Status.{is_codex, is_claude}
use codex_pooler.Accounts.{
  AccountHealth, cooldown, reauth_required, account_cooldown_blocks, blocks_until, Scope,
}
use codex_pooler.Prelude.Table.{lookup}
use codex_pooler.Circuits.{circuit_eligible}
use codex_pooler.Routing.{
  Upstream, RefreshStatus, refresh_ok, refresh_failed, refresh_reauth, Features,
  quota_blocks_routing, is_nil,
}
use codex_pooler.Routing.Ordering.{id_of}

pub data ExclusionCode : Type 0 where
  scope_model_not_allowed cap_unset cap_reached : ExclusionCode
  upstream_reauth_required upstream_cooldown : ExclusionCode
  token_refresh_failed token_refresh_reauth_required : ExclusionCode
  not_explicitly_selected upstream_type_not_selected not_affinity_selected : ExclusionCode
  required_type_mismatch session_rotation : ExclusionCode
  claude_oauth_required upstream_model_prefix_mismatch upstream_model_cooldown : ExclusionCode
  upstream_model_not_allowed quota_exhausted capability_not_supported : ExclusionCode
  model_not_supported circuit_open : ExclusionCode

-- The map of exclusions: the first reason of an account stays.
abbrev pub Exclusions : Type 0
Exclusions = List (String × ExclusionCode)

abbrev pub has_reason : String → Exclusions → Bool
has_reason id ex = any (λ e. str_eq e.0 id) ex

abbrev pub exclude : Upstream → ExclusionCode → Exclusions → Exclusions
exclude u code ex = if has_reason (id_of u) ex then ex else ex ++ (id_of u, code) ∷ []

abbrev pub exclude_if : Upstream → Option ExclusionCode → Exclusions → Exclusions
exclude_if u none ex = ex
exclude_if u (some code) ex = exclude u code ex

-- The accounts without a reason, with the reasons of the others.
unfoldable pub filter_by :
    (Upstream → Option ExclusionCode) → List Upstream → Exclusions → List Upstream × Exclusions
filter_by code [] ex = ([], ex)
filter_by code (u ∷ us) ex =
    let (kept, reasons) = filter_by code us (exclude_if u (code u) ex) in
    (if is_some (code u) then kept else u ∷ kept, reasons)

abbrev pub filter_routing_candidates :
    (Upstream → Bool) → ExclusionCode → List Upstream → Exclusions → List Upstream × Exclusions
filter_routing_candidates p code us ex = filter_by (λ u. if p u then none else some code) us ex

abbrev pub expires_later : Option ℕ → ℕ → Bool
expires_later none now = false
expires_later (some t) now = ltb now t

abbrev pub token_refresh_blocks_routing : Upstream → ℕ → Bool
token_refresh_blocks_routing u now = elim u.token_refresh.status [
  | refresh_ok ↦ false
  | refresh_reauth ↦ true
  | refresh_failed ↦
      not u.token_refresh.scheduled || not (expires_later u.access_token_expires_at now)
]

abbrev pub is_reauth : Option AccountHealth → Bool
is_reauth none = false
is_reauth (some h) = elim h.status [ reauth_required ↦ true | cooldown ↦ false ]

abbrev pub cools_down : Option AccountHealth → ℕ → Bool
cools_down none now = false
cools_down (some h) now = account_cooldown_blocks h now

abbrev pub still_cooling : Option AccountHealth → ℕ → Bool
still_cooling none now = false
still_cooling (some h) now = expires_later h.next_eligible_at now

abbrev pub is_blocked : Bool → ℕ → Upstream → Bool
is_blocked ignore_cooldown now u =
    token_refresh_blocks_routing u now
    || is_reauth u.account.health
    || (not ignore_cooldown && cools_down u.account.health now)

abbrev pub refresh_code : RefreshStatus → ExclusionCode
refresh_code refresh_reauth = token_refresh_reauth_required
refresh_code _ = token_refresh_failed

abbrev pub blocked_code : ℕ → Upstream → ExclusionCode
blocked_code now u =
    if is_reauth u.account.health
    then upstream_reauth_required
    else if still_cooling u.account.health now
    then upstream_cooldown
    else refresh_code u.token_refresh.status

abbrev pub candidate_of : Upstream → Candidate
candidate_of u = record { id = id_of u; is_ais = u.is_ais; spending = u.spending }

abbrev pub spend_code : Exclusion → ExclusionCode
spend_code spend_cap_unset = cap_unset
spend_code spend_cap_reached = cap_reached

abbrev pub spend_reason : String × Exclusion → String × ExclusionCode
spend_reason e = (e.0, spend_code e.1)

abbrev pub is_chosen : List Candidate → Upstream → Bool
is_chosen cs u = any (λ c. str_eq c.id (id_of u)) cs

abbrev pub open_upstreams : Bool → ℕ → List Upstream → List Upstream
open_upstreams ignore_cooldown now us = keep (λ u. not (is_blocked ignore_cooldown now u)) us

unfoldable pub eligibility_from_upstreams :
    List Upstream → Options → Bool → ℕ → List Upstream × Exclusions
unfolding filter_spend_cap_eligible
eligibility_from_upstreams us options ignore_cooldown now =
    let open_ones = open_upstreams ignore_cooldown now us in
    let filtered = filter_spend_cap_eligible (map candidate_of open_ones) options in
    (
      keep (is_chosen filtered.eligible) open_ones,
      map spend_reason filtered.exclusions
          ++ map (λ u. (id_of u, blocked_code now u)) (keep (is_blocked ignore_cooldown now) us),
    )

-- `exclude(upstreams.find(…), code)` for each of the reasons.
abbrev pub exclude_known : List Upstream → String × ExclusionCode → Exclusions → Exclusions
exclude_known [] e ex = ex
exclude_known (u ∷ us) e ex =
    if str_eq (id_of u) e.0 then exclude u e.1 ex else exclude_known us e ex

unfoldable pub exclude_all : List Upstream → Exclusions → Exclusions → Exclusions
exclude_all us [] ex = ex
exclude_all us (e ∷ es) ex = exclude_all us es (exclude_known us e ex)

pub record Requirements : Type 0 where
  pub features : Features
  pub service_tier : Option String

-- What the plan asks of Claude accounts and of names of models elsewhere in the program:
-- `isSupportedClaudeOAuthUpstream` (or its waiver), `claudeModelPrefixMismatch`,
-- `configuredClaudeModelMatches`, `claudeMetadataModelExcluded`, `claudeModelHealthKeys`, the lower
-- case of a text, the digest of `circuitKey`, and `modelSupport` with the epoch of a catalog.
pub record Rules : Type 0 where
  pub oauth_supported : Upstream → Bool
  pub prefix_mismatch : Upstream → String → Bool
  pub models_match : List String → String → Option Upstream → Bool
  pub model_excluded : Upstream → String → Bool
  pub health_keys : Upstream → String → List String
  pub to_lower : String → String
  pub circuit_key : Scope → String
  pub model_support : Option (String → String → ℕ → Bool)

pub record Query : Type 0 where
  pub model : String
  pub requirements : Requirements
  pub ignore_model_restrictions : Bool
  pub ignore_quota_cooldown : Bool
  pub route_class : String

abbrev pub implies : Bool → Bool → Bool
implies a b = not a || b

abbrev pub supports : Features → Features → Bool
supports required given =
    implies required.responses given.responses
    && implies required.streaming given.streaming
    && implies required.tools given.tools
    && implies required.image_input given.image_input
    && implies required.reasoning given.reasoning

abbrev pub allows_tier : List String → Option String → Bool
allows_tier tiers none = true
allows_tier tiers (some t) = str_eq t "" || is_nil tiers || any (str_eq t) tiers

module _ (rules : Rules) (q : Query) (now : ℕ) where
  abbrev pub names_model : Upstream → Bool
  names_model u =
      if is_claude u.account.upstream_type
      then rules.models_match u.routing.models q.model (some u)
      else any (str_eq (rules.to_lower q.model)) u.routing.models

  abbrev pub model_restricted : Upstream → Bool
  model_restricted u =
      not q.ignore_model_restrictions
      && ((not (is_nil u.routing.models) && not (names_model u)) || rules.model_excluded u q.model)

  abbrev pub candidate_eligible : Upstream → Bool
  candidate_eligible u =
      not (model_restricted u)
      && not (quota_blocks_routing u now q.model)
      && supports q.requirements.features u.routing.features
      && allows_tier u.routing.service_tiers q.requirements.service_tier

  abbrev pub ineligible_code : Upstream → ExclusionCode
  ineligible_code u =
      if model_restricted u
      then upstream_model_not_allowed
      else if quota_blocks_routing u now q.model
      then quota_exhausted
      else capability_not_supported

  abbrev pub asks_support : Option (String → String → ℕ → Bool) → Upstream → Bool
  asks_support none u = true
  asks_support (some f) u = f (id_of u) (rules.to_lower q.model) u.model_catalog_epoch

  abbrev pub dynamically_supports_model : Upstream → Bool
  dynamically_supports_model u =
      if not (is_codex u.account.upstream_type) || str_eq q.model ""
      then true
      else asks_support rules.model_support u

  abbrev pub cooling_blocks : Upstream → Bool
  cooling_blocks u =
      not q.ignore_quota_cooldown
      && not u.account.cooling_disabled
      && (is_claude u.account.upstream_type
          && any (λ k. blocks_until (lookup k u.account.model_health) now)
              (rules.health_keys u q.model))

  abbrev pub circuit_scope : Scope
  circuit_scope = record {
    model = q.model;
    route_class = q.route_class;
    ignore_quota_cooldown = false;
  }

  unfoldable pub candidate_exclusion_code : Upstream → Option ExclusionCode
  candidate_exclusion_code u =
      if is_claude u.account.upstream_type && not (rules.oauth_supported u)
      then some claude_oauth_required
      else if is_claude u.account.upstream_type
          && not q.ignore_model_restrictions
          && rules.prefix_mismatch u q.model
      then some upstream_model_prefix_mismatch
      else if cooling_blocks u
      then some upstream_model_cooldown
      else if not (candidate_eligible u)
      then some (ineligible_code u)
      else if not (dynamically_supports_model u)
      then some model_not_supported
      else if not (circuit_eligible u.account.circuits (rules.circuit_key circuit_scope) now)
      then some circuit_open
      else none
