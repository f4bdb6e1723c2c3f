-- ===== src/Routing/Complete.antt =====
-- The plan as a whole: everyone is a candidate or has a reason.
use mathlib.Core.List.{
  Perm, perm_middle, Mem, mem-cons, not-mem-nil, mem-cons_self, mem-cons_of_mem,
}
use mathlib.Core.List.Perm
use mathlib.Core.Bool.{Bool-set}
use mathlib.Core.Logic.Or
use codex_pooler.Prelude.{
  ℕ, ◌≡◌, sym, ap, ◌∙◌, subst, ◌⊎◌, inl, inr, String, Bool, true, false, not, Option, none, some,
  List, [], ◌∷◌, ◌++◌, arith, if_elim, any, keep, str_eq, Bool-cases, In, any-In,
}
use codex_pooler.Prelude.Sorting.{sort}
use codex_pooler.Routing.{Upstream}
use codex_pooler.Routing.Ordering.{id_of}
use codex_pooler.Routing.Permuting.{sort-Perm, order_routing_candidates-Perm}
use codex_pooler.Routing.Exclusions.{
  ExclusionCode, Exclusions, has_reason, exclude, Rules, scope_model_not_allowed,
}
use codex_pooler.Routing.Plan.{
  PlanInput, Plan, asks, has_id, is_preferred, is_automatic, eligible_candidates, order_preferred,
  move_affinity_first, has_lower_tier, find_upstream, plan_order, entry_le, exclude_each,
  scope_refuses, in_scope, candidate_plan_details,
}
use codex_pooler.Routing.Coverage.{exclude_adds, exclude_keeps}
use codex_pooler.Routing.Eligibility.{eligible_candidates-covers}

-- Keeping the ones before the others reorders.
keep-keep-Perm :
    (f : Upstream → Bool) (us : List Upstream) → Perm (keep f us ++ keep (λ u. not (f u)) us) us
keep-keep-Perm f [] = Perm.nil
keep-keep-Perm f (u ∷ us) = elim (Bool-cases (f u)) [
  | inl e ↦ rw e (Perm.cons u (keep-keep-Perm f us))
  | inr e ↦ rw e (
      Perm.trans (perm_middle (keep f us) (keep (λ v. not (f v)) us))
        (Perm.cons u (keep-keep-Perm f us)))
]

pub In-Mem : {A : Type 0} (x : A) (xs : List A) → In x xs → Mem x xs
In-Mem x [] m = elim m [ ]
In-Mem x (y ∷ ys) (inl e) = subst (λ z. Mem x (z ∷ ys)) e mem-cons_self
In-Mem x (y ∷ ys) (inr m) = mem-cons_of_mem y (In-Mem x ys m)

Mem-any :
    {A : Type 0} (p : A → Bool) (x : A) (xs : List A) → Mem x xs → p x ≡ true → any p xs ≡ true
Mem-any p x [] m h = absurd (not-mem-nil m)
Mem-any p x (y ∷ ys) m h =
    Or.elim (Bool-set (any p (y ∷ ys)) true) (mem-cons.0 m) (λ e. ground (arith, sym (ap p e) ∙ h))
      (λ k. ground (arith, Mem-any p x ys k h))

pub any-Perm :
    {A : Type 0} (p : A → Bool) (xs ys : List A) → Perm xs ys → any p xs ≡ true → any p ys ≡ true
any-Perm p xs ys perm h =
    let (x, m, e) = any-In p xs h in Mem-any p x ys ((Perm.mem_iff perm).0 (In-Mem x xs m)) e

exclude_each_keeps :
    (code : ExclusionCode) (id : String) (us : List Upstream) (ex : Exclusions)
    → has_reason id ex ≡ true
    → has_reason id (exclude_each code us ex) ≡ true
exclude_each_keeps code id [] ex h = h
exclude_each_keeps code id (u ∷ us) ex h =
    exclude_each_keeps code id us (exclude u code ex) (exclude_keeps id u code ex h)

exclude_each_adds :
    (code : ExclusionCode) (u : Upstream) (us : List Upstream) (ex : Exclusions)
    → In u us
    → has_reason (id_of u) (exclude_each code us ex) ≡ true
exclude_each_adds code u [] ex m = elim m [ ]
exclude_each_adds code u (v ∷ us) ex (inl e) =
    exclude_each_keeps code (id_of u) us (exclude v code ex) (
      subst (λ w. has_reason (id_of w) (exclude v code ex) ≡ true) (sym e) (exclude_adds v code ex))
exclude_each_adds code u (v ∷ us) ex (inr m) = exclude_each_adds code u us (exclude v code ex) m

module _ (now : ℕ) (collates : String → String → Bool) (digest : String → String → String)
    (rotation : String → ℕ) where
  pub order_preferred-Perm :
      (p : PlanInput) (us : List Upstream)
      → Perm (order_preferred now collates digest rotation p us) us
  order_preferred-Perm p us =
      let permuted =
        order_routing_candidates-Perm collates digest rotation p.strategy now p.query.model
          p.seed in
      Perm.trans
        (Perm.append (permuted (keep (is_preferred p.preferred_type) us))
          (permuted (keep (λ u. not (is_preferred p.preferred_type u)) us)))
        (keep-keep-Perm (is_preferred p.preferred_type) us)

  move_affinity_first-Perm :
      (p : PlanInput) (a : Option Upstream) (us : List Upstream)
      → Perm (move_affinity_first now collates digest rotation p a us) us
  move_affinity_first-Perm p none us = Perm.refl us
  move_affinity_first-Perm p (some a) us =
      if_elim {A = List Upstream} (λ vs. Perm vs us)
        (any (has_lower_tier now collates digest rotation p a) us) (λ _. Perm.refl us)
        (λ _. keep-keep-Perm (has_id p.affinity_id) us)

  pub plan_order-Perm :
      (p : PlanInput) (us : List Upstream) → Perm (plan_order now collates digest rotation p us) us
  plan_order-Perm p us =
      let ordered = order_preferred now collates digest rotation p us in
      if_elim {A = List Upstream} (λ vs. Perm vs us) (is_automatic p)
        (λ _.
          Perm.trans
            (move_affinity_first-Perm p (find_upstream (has_id p.affinity_id) ordered) ordered)
            (order_preferred-Perm p us))
        (λ _. Perm.refl us)

  -- Unless a continuation is pinned to an account, every account of the scope is a candidate of the
  -- plan or stands among the exclusions with a reason.
  pub candidate_plan_details_complete :
      (rules : Rules) (p : PlanInput) (upstreams : List Upstream) (u : Upstream)
      → asks p.pinned_id ≡ false
      → In u (in_scope p.scope_id upstreams)
      → Mem u (candidate_plan_details rules now collates digest rotation p upstreams).candidates
        ⊎ (has_reason
              (id_of u)
              (candidate_plan_details rules now collates digest rotation p upstreams).exclusions
            ≡ true)
  unfolding candidate_plan_details
  candidate_plan_details_complete rules p upstreams u h m =
      let us = in_scope p.scope_id upstreams in
      let found = eligible_candidates rules now p us in
      let refused = exclude_each scope_model_not_allowed us [] in
      let le = entry_le now collates digest rotation in
      let sorted = λ (ex : Exclusions) (r : has_reason (id_of u) ex ≡ true).
        any-Perm (λ e. str_eq e.0 (id_of u)) ex (sort le ex) (Perm.symm (sort-Perm le ex)) r in
      if_elim {A = Plan}
        (λ plan. Mem u plan.candidates ⊎ (has_reason (id_of u) plan.exclusions ≡ true))
        (scope_refuses rules p)
        (λ _. inr (sorted refused (exclude_each_adds scope_model_not_allowed u us [] m)))
        (λ _. elim (eligible_candidates-covers rules now p us u h m) [
          | inl k ↦ inl ((Perm.mem_iff (plan_order-Perm p found.0)).1 (In-Mem u found.0 k))
          | inr r ↦ inr (sorted found.1 r)
        ])
