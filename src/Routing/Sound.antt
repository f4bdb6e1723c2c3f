-- ===== src/Routing/Sound.antt =====
-- Whoever is a candidate of the plan may serve.
use mathlib.Core.List.{Mem, mem-cons, not-mem-nil}
use mathlib.Core.List.Perm
use mathlib.Core.Bool.{Bool-set}
use mathlib.Core.Logic.Or
use codex_pooler.Prelude.{
  ℕ, ◌≡◌, refl, ap, ◌∙◌, String, Bool, true, false, not, ◌&&◌, Option, none, some, List, [], ◌∷◌,
  map, if◌then◌else◌, if_elim, any, is_some, In, All, All-keep, All-keep_passes, All-map_mono,
}
use codex_pooler.Outcomes.Status.{UpstreamType}
use codex_pooler.Routing.{Upstream}
use codex_pooler.Routing.Exclusions.{
  ExclusionCode, Exclusions, exclude_if, filter_by, filter_routing_candidates, is_blocked,
  eligibility_from_upstreams, exclude_all, is_chosen, open_upstreams, candidate_of, Rules,
  candidate_exclusion_code, not_explicitly_selected, upstream_type_not_selected,
  not_affinity_selected, required_type_mismatch, session_rotation,
}
use codex_pooler.Spending.{filter_spend_cap_eligible}
use codex_pooler.Routing.Plan.{
  PlanInput, Plan, select_by_type, select_requested, select_required, rotate_away, asks, has_id,
  is_type, plan_options, eligible_candidates, scope_refuses, in_scope, candidate_plan_details,
}
use codex_pooler.Routing.Complete.{plan_order-Perm}

-- What holds of all accounts given holds of all that are kept, and these have no reason against them.
filter_by-All :
    (P : Upstream → Type 0) (code : Upstream → Option ExclusionCode) (us : List Upstream)
    (ex : Exclusions)
    → All P us
    → All (λ u. P u × (is_some (code u) ≡ false)) (filter_by code us ex).0
unfolding filter_by
filter_by-All P code [] ex h = tt
filter_by-All P code (u ∷ us) ex h =
    let rest = filter_by-All P code us (exclude_if u (code u) ex) h.1 in
    if_elim {A = List Upstream} (All (λ v. P v × (is_some (code v) ≡ false))) (is_some (code u))
      (λ _. rest) (λ e. ((h.0, e), rest))

filter_routing_candidates-All :
    (P : Upstream → Type 0) (f : Upstream → Bool) (code : ExclusionCode) (us : List Upstream)
    (ex : Exclusions)
    → All P us
    → All P (filter_routing_candidates f code us ex).0
filter_routing_candidates-All P f code us ex h =
    let reason = λ (u : Upstream). if f u then none else some code in
    All-map_mono (λ u. P u × (is_some (reason u) ≡ false)) P (filter_by reason us ex).0 (λ u k. k.0)
      (filter_by-All P reason us ex h)

abbrev Holds : (Upstream → Type 0) → List Upstream × Exclusions → Type 0
Holds P s = All P s.0

select_by_type-All :
    (P : Upstream → Type 0) (p : PlanInput) (t : Option UpstreamType) (us : List Upstream)
    (ex : Exclusions)
    → All P us
    → Holds P (select_by_type p t us ex)
select_by_type-All P p (some t) us ex h =
    filter_routing_candidates-All P (is_type t) upstream_type_not_selected us ex h
select_by_type-All P p none us ex h =
    if_elim {A = List Upstream × Exclusions} (Holds P) (asks p.pinned_id)
      (λ _. filter_routing_candidates-All P (has_id p.pinned_id) not_affinity_selected us ex h)
      (λ _. h)

select_requested-All :
    (P : Upstream → Type 0) (p : PlanInput) (us : List Upstream) (ex : Exclusions)
    → All P us
    → Holds P (select_requested p us ex)
select_requested-All P p us ex h =
    if_elim {A = List Upstream × Exclusions} (Holds P) (asks p.requested_id)
      (λ _. filter_routing_candidates-All P (has_id p.requested_id) not_explicitly_selected us ex h)
      (λ _. select_by_type-All P p p.requested_type us ex h)

select_required-All :
    (P : Upstream → Type 0) (t : Option UpstreamType) (us : List Upstream) (ex : Exclusions)
    → All P us
    → Holds P (select_required t us ex)
select_required-All P none us ex h = h
select_required-All P (some t) us ex h =
    filter_routing_candidates-All P (is_type t) required_type_mismatch us ex h

rotate_away-All :
    (P : Upstream → Type 0) (id : String) (us : List Upstream) (ex : Exclusions)
    → All P us
    → Holds P (rotate_away id us ex)
rotate_away-All P id us ex h =
    if_elim {A = List Upstream × Exclusions} (Holds P) (asks id && any (λ v. not (has_id id v)) us)
      (λ _. filter_routing_candidates-All P (λ v. not (has_id id v)) session_rotation us ex h)
      (λ _. h)

pub Mem-All :
    (f : Upstream → Bool) (u : Upstream) (us : List Upstream)
    → All (λ v. f v ≡ true) us
    → Mem u us
    → f u ≡ true
Mem-All f u [] h m = absurd (not-mem-nil m)
Mem-All f u (v ∷ us) h m =
    Or.elim (Bool-set (f u) true) (mem-cons.0 m) (λ e. ap f e ∙ h.0) (Mem-All f u us h.1)

module _ (rules : Rules) (now : ℕ) where
  -- An account without a block and without a reason against it.
  abbrev pub may_serve : PlanInput → Upstream → Bool
  may_serve p u =
      not (is_blocked p.query.ignore_quota_cooldown now u)
      && not (is_some (candidate_exclusion_code rules p.query now u))

  eligible_candidates-All :
      (p : PlanInput) (us : List Upstream)
      → All (λ u. may_serve p u ≡ true) (eligible_candidates rules now p us).0
  unfolding eligible_candidates eligibility_from_upstreams
  eligible_candidates-All p us =
      let ignore = p.query.ignore_quota_cooldown in
      let Open = λ (u : Upstream). not (is_blocked ignore now u) ≡ true in
      let code = candidate_exclusion_code rules p.query now in
      let found = eligibility_from_upstreams us (plan_options p) ignore now in
      let open_ones = open_upstreams ignore now us in
      let filtered = filter_spend_cap_eligible (map candidate_of open_ones) (plan_options p) in
      let opened = All-keep Open (is_chosen filtered.eligible) open_ones (
        All-map_mono (λ u. In u us × (not (is_blocked ignore now u) ≡ true)) Open open_ones
          (λ u k. k.1) (All-keep_passes (λ u. not (is_blocked ignore now u)) us)) in
      let reasons = exclude_all us found.1 [] in
      let selected = select_requested p found.0 reasons in
      let typed = select_required p.required_type selected.0 selected.1 in
      let fit = filter_by code typed.0 typed.1 in
      let kept = filter_by-All Open code typed.0 typed.1 (
        select_required-All Open p.required_type selected.0 selected.1
          (select_requested-All Open p found.0 reasons opened)) in
      rotate_away-All (λ u. may_serve p u ≡ true) p.rotate_from_id fit.0 fit.1
        (All-map_mono (λ u. Open u × (is_some (code u) ≡ false)) (λ u. may_serve p u ≡ true) fit.0
          (λ u k. rw (k.0, k.1) refl) kept)

  -- No candidate of the plan is blocked by its credential or a cooldown, and none has a reason against
  -- it: model, quota, capability, cooldown of the model and circuit all let it serve.
  pub candidate_plan_details-may_serve :
      (collates : String → String → Bool) (digest : String → String → String)
      (rotation : String → ℕ) (p : PlanInput) (upstreams : List Upstream) (u : Upstream)
      → Mem u (candidate_plan_details rules now collates digest rotation p upstreams).candidates
      → may_serve p u ≡ true
  unfolding candidate_plan_details
  candidate_plan_details-may_serve collates digest rotation p upstreams u =
      let us = in_scope p.scope_id upstreams in
      let found = eligible_candidates rules now p us in
      if_elim {A = Plan} (λ plan. Mem u plan.candidates → may_serve p u ≡ true)
        (scope_refuses rules p) (λ _ m. absurd (not-mem-nil m))
        (λ _ m.
          Mem-All (may_serve p) u found.0 (eligible_candidates-All p us)
            ((Perm.mem_iff (plan_order-Perm now collates digest rotation p found.0)).0 m))
