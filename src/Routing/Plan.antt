-- ===== src/Routing/Plan.antt =====
-- node/src/store.js: `candidatePlanDetails` and `routingPlanResult`. The result carries the accounts
-- themselves; the fields copied into diagnostics are left out.
use codex_pooler.Prelude.{
  ℕ, String, Bool, true, false, not, ◌&&◌, Option, none, some, List, [], ◌∷◌, ◌++◌, map, ltb,
  if◌then◌else◌, any, keep, str_eq,
}
use codex_pooler.Prelude.Sorting.{sort}
use codex_pooler.Spending.{Options}
use codex_pooler.Outcomes.Status.{UpstreamType, codex, compass, claude}
use codex_pooler.Routing.{
  Upstream, capacity_tier, QuotaView, quota_known, quota_ordering_metadata, is_nil,
}
use codex_pooler.Routing.Ordering.{Strategy, most_remaining_quota, id_of, order_routing_candidates}
use codex_pooler.Routing.Exclusions.{
  ExclusionCode, scope_model_not_allowed, not_explicitly_selected, upstream_type_not_selected,
  not_affinity_selected, required_type_mismatch, session_rotation, Exclusions, exclude, filter_by,
  filter_routing_candidates, eligibility_from_upstreams, exclude_all, Rules, Query,
  candidate_exclusion_code,
}

-- An empty text and an absent type stand for what was not asked for. The scope's models are absent
-- where the scope is unknown.
pub record PlanInput : Type 0 where
  pub query : Query
  pub affinity_id : String
  pub pinned_id : String
  pub requested_id : String
  pub requested_type : Option UpstreamType
  pub preferred_type : Option UpstreamType
  pub required_type : Option UpstreamType
  pub rotate_from_id : String
  pub allow_unknown_quota : Bool
  pub ignore_spending_cap : Bool
  pub strategy : Strategy
  pub seed : Option String
  pub scope_id : String
  pub scope_models : Option (List String)

pub data Reason : Type 0 where
  quota_unknown_fairness by_strategy : Reason

pub record Plan : Type 0 where
  pub candidates : List Upstream
  pub reasons : List Reason
  pub exclusions : Exclusions

abbrev pub is_type : UpstreamType → Upstream → Bool
is_type codex u = elim u.account.upstream_type [ codex ↦ true | _ ↦ false ]
is_type compass u = elim u.account.upstream_type [ compass ↦ true | _ ↦ false ]
is_type claude u = elim u.account.upstream_type [ claude ↦ true | _ ↦ false ]

abbrev pub is_preferred : Option UpstreamType → Upstream → Bool
is_preferred none u = false
is_preferred (some t) u = is_type t u

abbrev pub has_id : String → Upstream → Bool
has_id id u = str_eq (id_of u) id

abbrev pub asks : String → Bool
asks id = not (str_eq id "")

-- The filters of `requestedId`, else `requestedType`, else `pinnedId`.
abbrev pub select_by_type :
    PlanInput → Option UpstreamType → List Upstream → Exclusions → List Upstream × Exclusions
select_by_type p (some t) us ex =
    filter_routing_candidates (is_type t) upstream_type_not_selected us ex
select_by_type p none us ex =
    if asks p.pinned_id
    then filter_routing_candidates (has_id p.pinned_id) not_affinity_selected us ex
    else (us, ex)

abbrev pub select_requested : PlanInput → List Upstream → Exclusions → List Upstream × Exclusions
select_requested p us ex =
    if asks p.requested_id
    then filter_routing_candidates (has_id p.requested_id) not_explicitly_selected us ex
    else select_by_type p p.requested_type us ex

abbrev pub select_required :
    Option UpstreamType → List Upstream → Exclusions → List Upstream × Exclusions
select_required none us ex = (us, ex)
select_required (some t) us ex = filter_routing_candidates (is_type t) required_type_mismatch us ex

abbrev pub rotate_away : String → List Upstream → Exclusions → List Upstream × Exclusions
rotate_away id us ex =
    if asks id && any (λ u. not (has_id id u)) us
    then filter_routing_candidates (λ u. not (has_id id u)) session_rotation us ex
    else (us, ex)

abbrev pub is_automatic : PlanInput → Bool
is_automatic p = not (asks p.requested_id) && not (asks p.pinned_id)

-- Where the scope does not allow the model.
abbrev pub scope_refuses : Rules → PlanInput → Bool
scope_refuses rules p = asks p.scope_id && asks p.query.model && elim p.scope_models [
  | none ↦ true
  | some models ↦ not (is_nil models) && not (rules.models_match models p.query.model none)
]

abbrev pub in_scope : String → List Upstream → List Upstream
in_scope id us = if asks id then keep (λ u. str_eq u.scope_id id) us else us

abbrev pub exclude_each : ExclusionCode → List Upstream → Exclusions → Exclusions
exclude_each code [] ex = ex
exclude_each code (u ∷ us) ex = exclude_each code us (exclude u code ex)

abbrev pub plan_options : PlanInput → Options
plan_options p = record {
  continuation_id = if asks p.pinned_id then some p.pinned_id else none;
  allow_unknown_quota = p.allow_unknown_quota;
  ignore_spending_cap = p.ignore_spending_cap;
}

abbrev pub is_known_view : QuotaView → Bool
is_known_view v = elim v [ quota_known _ ↦ true | _ ↦ false ]

abbrev pub reason_of : Strategy → ℕ → Upstream → Reason
reason_of most_remaining_quota now u =
    if is_known_view (quota_ordering_metadata u now) then by_strategy else quota_unknown_fairness
reason_of _ now u = by_strategy

abbrev pub find_upstream : (Upstream → Bool) → List Upstream → Option Upstream
find_upstream f [] = none
find_upstream f (u ∷ us) = if f u then some u else find_upstream f us

module _ (rules : Rules) (now : ℕ) where
  -- The accounts that may be used, in the order of the store, and the reasons of the others.
  unfoldable pub eligible_candidates : PlanInput → List Upstream → List Upstream × Exclusions
  unfolding eligibility_from_upstreams exclude_all filter_by
  eligible_candidates p us =
      let eligibility =
        eligibility_from_upstreams us (plan_options p) p.query.ignore_quota_cooldown now in
      let selected = select_requested p eligibility.0 (exclude_all us eligibility.1 []) in
      let typed = select_required p.required_type selected.0 selected.1 in
      let fit = filter_by (candidate_exclusion_code rules p.query now) typed.0 typed.1 in
      rotate_away p.rotate_from_id fit.0 fit.1

module _ (now : ℕ) (collates : String → String → Bool) (digest : String → String → String)
    (rotation : String → ℕ) where
  abbrev pub order : PlanInput → List Upstream → List Upstream
  order p us =
      order_routing_candidates collates digest rotation p.strategy now p.query.model p.seed us

  abbrev pub order_preferred : PlanInput → List Upstream → List Upstream
  order_preferred p us =
      order p (keep (is_preferred p.preferred_type) us)
      ++ order p (keep (λ u. not (is_preferred p.preferred_type u)) us)

  abbrev pub has_lower_tier : PlanInput → Upstream → Upstream → Bool
  has_lower_tier p affinity u =
      ltb (capacity_tier u now p.query.model) (capacity_tier affinity now p.query.model)

  abbrev pub move_affinity_first : PlanInput → Option Upstream → List Upstream → List Upstream
  move_affinity_first p none us = us
  move_affinity_first p (some affinity) us =
      if any (has_lower_tier p affinity) us
      then us
      else keep (has_id p.affinity_id) us ++ keep (λ u. not (has_id p.affinity_id u)) us

  abbrev pub order_automatic : PlanInput → List Upstream → List Upstream
  order_automatic p us =
      let ordered = order_preferred p us in
      move_affinity_first p (find_upstream (has_id p.affinity_id) ordered) ordered

  abbrev pub plan_order : PlanInput → List Upstream → List Upstream
  plan_order p us = if is_automatic p then order_automatic p us else us

  abbrev pub entry_le : String × ExclusionCode → String × ExclusionCode → Bool
  entry_le a b = collates a.0 b.0

  abbrev pub routing_plan_result : PlanInput → List Upstream → Exclusions → Plan
  routing_plan_result p us ex = record {
    candidates = us;
    reasons = map (reason_of p.strategy now) us;
    exclusions = sort entry_le ex;
  }

module _ (rules : Rules) (now : ℕ) (collates : String → String → Bool)
    (digest : String → String → String) (rotation : String → ℕ) where
  unfoldable pub candidate_plan_details : PlanInput → List Upstream → Plan
  unfolding eligible_candidates order_routing_candidates sort
  candidate_plan_details p upstreams =
      let us = in_scope p.scope_id upstreams in
      let found = eligible_candidates rules now p us in
      let refused = exclude_each scope_model_not_allowed us [] in
      if scope_refuses rules p
      then routing_plan_result now collates digest rotation p [] refused
      else routing_plan_result now collates digest rotation p
          (plan_order now collates digest rotation p found.0) found.1
