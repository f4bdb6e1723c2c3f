-- ===== src/Routing/Tests.antt =====
-- A plan over three accounts, and the theorems at concrete inputs.
use mathlib.Core.List.{Perm, Mem, mem-cons_self}
use codex_pooler.Prelude.{
  ℕ, ◌≤◌, ◌≡◌, refl, sym, ap, subst, String, Bool, true, false, Option, none, some, List, [], ◌∷◌,
  map, arith, In, inl, inr, ◌⊎◌, any, leb, leb→le, str_eq,
}
use codex_pooler.Prelude.Sorting.{Pairs}
use codex_pooler.Spending.{set_spending_cap}
use codex_pooler.Accounts as Accounts
use codex_pooler.Circuits.{Circuits}
use codex_pooler.Outcomes.Status.{UpstreamType, codex}
use codex_pooler.Routing.{
  Upstream, Capacity, no_reset, Features, Decision, codex_capacity_decision, capacity_tier,
  quota_blocks_routing, refresh_ok, provider_credits,
}
use codex_pooler.Routing.Ordering.{
  least_recent_success, cache_locality, id_of, order_routing_candidates,
}
use codex_pooler.Routing.Permuting.{order_routing_candidates-Perm}
use codex_pooler.Routing.Tiers.{IsBefore, order_routing_candidates-IsBefore}
use codex_pooler.Routing.PaidCredits.{IsPaidFor, codex_capacity_decision-IsPaidFor}
use codex_pooler.Routing.Exclusions.{Rules, has_reason, candidate_exclusion_code}
use codex_pooler.Routing.Plan.{PlanInput, Plan, candidate_plan_details, plan_order, has_id}
use codex_pooler.Routing.Complete.{candidate_plan_details_complete}
use codex_pooler.Routing.Affinity.{plan_order_affinity_first}
use codex_pooler.Routing.Sound.{may_serve, Mem-All, candidate_plan_details-may_serve}

abbrev no_circuits : Circuits
no_circuits = record { sequence = 0; rows = [] }

abbrev account_named : String → UpstreamType → Option ℕ → Accounts.Upstream
account_named id kind success = record {
  id = id;
  upstream_type = kind;
  cooling_disabled = false;
  health = none;
  health_generation = 0;
  circuits = no_circuits;
  model_health = [];
  reauth_at = none;
  last_successful_at = success;
  updated_at = 0;
}

abbrev all_features : Features
all_features = record {
  responses = true;
  streaming = true;
  tools = true;
  image_input = true;
  reasoning = true;
}

abbrev no_features : Features
no_features = record {
  responses = false;
  streaming = false;
  tools = false;
  image_input = false;
  reasoning = false;
}

abbrev credit_capacity : Capacity
credit_capacity = record {
  credential_epoch = some 1;
  allowed = some false;
  windows = record { remaining_percent = 0; reset_at = no_reset; model = none } ∷ [];
  model_windows = [];
  spend_control = none;
  credits = some (record { has_credits = true; unlimited = false; balance = some 5 });
}

abbrev upstream_named : String → UpstreamType → Option ℕ → Option Capacity → Upstream
upstream_named id kind priority capacity = record {
  account = account_named id kind none;
  scope_id = "default";
  is_ais = false;
  priority = priority;
  quota = record {
    remaining_percent = none;
    observed_at = some 1000;
    reset_at = none;
    is_project = false;
    capacity = capacity;
  };
  credential_epoch = some 1;
  allow_provider_credits = true;
  spending = set_spending_cap 5 100;
  routing = record { models = []; features = all_features; service_tiers = [] };
  token_refresh = record { status = refresh_ok; scheduled = false };
  access_token_expires_at = none;
  model_catalog_epoch = 1;
}

abbrev paid : Upstream
paid = upstream_named "paid" codex (some 1) (some credit_capacity)

abbrev second : Upstream
second = upstream_named "second" codex (some 2) none

abbrev unlisted : Upstream
unlisted = upstream_named "unlisted" codex none none

abbrev three : List Upstream
three = paid ∷ unlisted ∷ second ∷ []

abbrev rules : Rules
rules = record {
  oauth_supported = λ _. true;
  prefix_mismatch = λ _ _. false;
  models_match = λ _ _ _. true;
  model_excluded = λ _ _. false;
  health_keys = λ _ _. [];
  to_lower = λ s. s;
  circuit_key = λ s. s.model;
  model_support = none;
}

abbrev plan_input : PlanInput
plan_input = record {
  query = record {
    model = "gpt";
    requirements = record { features = no_features; service_tier = none };
    ignore_model_restrictions = false;
    ignore_quota_cooldown = false;
    route_class = "proxy_http";
  };
  affinity_id = "unlisted";
  pinned_id = "";
  requested_id = "";
  requested_type = none;
  preferred_type = none;
  required_type = none;
  rotate_from_id = "";
  allow_unknown_quota = false;
  ignore_spending_cap = false;
  strategy = least_recent_success;
  seed = none;
  scope_id = "default";
  scope_models = some [];
}

abbrev collates : String → String → Bool
collates a b = true

abbrev digest : String → String → String
digest seed id = id

abbrev rotation : String → ℕ
rotation seed = 1

abbrev plan : Plan
plan = candidate_plan_details rules 2000 collates digest rotation plan_input three

ordering :
    (map id_of (
        order_routing_candidates collates digest rotation least_recent_success 2000 "gpt" none
          three)
      ≡ "second" ∷ "unlisted" ∷ "paid" ∷ [])
    × (map id_of plan.candidates ≡ "unlisted" ∷ "second" ∷ "paid" ∷ [])
unfolding codex_pooler.Prelude.Table.lookup order_routing_candidates candidate_plan_details
    capacity_tier codex_capacity_decision candidate_exclusion_code quota_blocks_routing
    codex_pooler.Spending.spending_eligibility codex_pooler.Circuits.circuit_eligible
ordering = (refl, refl)

order_routing_candidates-Perm_example :
    Perm
      (order_routing_candidates collates digest rotation cache_locality 2000 "gpt"
        (some "seed")
        three)
      three
order_routing_candidates-Perm_example =
    order_routing_candidates-Perm collates digest rotation cache_locality 2000 "gpt" (some "seed")
      three

order_routing_candidates-IsBefore_example : Pairs (IsBefore 2000 "gpt") (
    order_routing_candidates collates digest rotation cache_locality 2000 "gpt" (some "seed") three)
order_routing_candidates-IsBefore_example =
    order_routing_candidates-IsBefore 2000 "gpt" collates digest rotation cache_locality
      (some "seed") three

candidate_plan_details_complete_example :
    Mem second plan.candidates ⊎ (has_reason (id_of second) plan.exclusions ≡ true)
candidate_plan_details_complete_example =
    candidate_plan_details_complete 2000 collates digest rotation rules plan_input three second refl
      (inr (inr (inl refl)))

-- The plan with one account.
abbrev small_plan : Plan
small_plan = candidate_plan_details rules 2000 collates digest rotation plan_input (second ∷ [])

small_plan-candidates : small_plan.candidates ≡ second ∷ []
unfolding codex_pooler.Prelude.Table.lookup order_routing_candidates candidate_plan_details
    capacity_tier codex_capacity_decision candidate_exclusion_code quota_blocks_routing
    codex_pooler.Spending.spending_eligibility codex_pooler.Circuits.circuit_eligible
small_plan-candidates = refl

candidate_plan_details-may_serve_example : may_serve rules 2000 plan_input second ≡ true
candidate_plan_details-may_serve_example =
    candidate_plan_details-may_serve rules 2000 collates digest rotation plan_input (second ∷ [])
      second (subst (Mem second) (sym small_plan-candidates) mem-cons_self)

one_tier :
    (v w : Upstream)
    → Mem v (second ∷ [])
    → Mem w (second ∷ [])
    → has_id "second" v ≡ true
    → capacity_tier v 2000 "gpt" ≤ capacity_tier w 2000 "gpt"
unfolding capacity_tier codex_capacity_decision
one_tier v w m k h =
    let lowest : leb (capacity_tier v 2000 "gpt") 0 ≡ true =
      Mem-All (λ u. leb (capacity_tier u 2000 "gpt") 0) v (second ∷ []) (refl, tt) m in
    omega (arith, leb→le (capacity_tier v 2000 "gpt") 0 lowest)

plan_order_affinity_first_example :
    (v : Upstream) × (rest : List Upstream) × (plan_order 2000 collates digest rotation
        (record plan_input { affinity_id = "second" })
        (second ∷ [])
      ≡ v ∷ rest)
    × (has_id "second" v ≡ true)
plan_order_affinity_first_example =
    plan_order_affinity_first 2000 collates digest rotation
      (record plan_input { affinity_id = "second" }) (second ∷ []) refl refl one_tier

abbrev paid_decision : Decision
paid_decision = record { eligible = true; basis = provider_credits; fresh = true }

decides_paid : codex_capacity_decision paid "gpt" 2000 ≡ some paid_decision
unfolding codex_capacity_decision
decides_paid = refl

codex_capacity_decision-IsPaidFor_example :
    (c : Capacity) × (paid.quota.capacity ≡ some c) × IsPaidFor paid c "gpt" 2000 × (true ≡ true)
codex_capacity_decision-IsPaidFor_example =
    codex_capacity_decision-IsPaidFor paid "gpt" 2000 paid_decision decides_paid refl
