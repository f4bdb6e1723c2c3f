-- ===== src/Routing/Affinity.antt =====
-- The account that a session was on before comes first.
use mathlib.Core.List.{Mem}
use mathlib.Core.List.Perm
use codex_pooler.Prelude.{
  ℕ, ◌≤◌, ◌≡◌, refl, inl, inr, String, Bool, true, not, some, List, [], ◌∷◌, ◌++◌, arith, ltb→lt,
  any, keep, Bool-cases, In, any-In,
}
use codex_pooler.Routing.{Upstream, capacity_tier}
use codex_pooler.Routing.Plan.{
  PlanInput, has_id, is_automatic, order_preferred, has_lower_tier, find_upstream, plan_order,
}
use codex_pooler.Routing.Complete.{In-Mem, any-Perm, order_preferred-Perm}

keep_first :
    (f : Upstream → Bool) (us : List Upstream)
    → any f us ≡ true
    → (v : Upstream) × (rest : List Upstream) × (keep f us ≡ v ∷ rest) × (f v ≡ true)
keep_first f [] h = cc
keep_first f (u ∷ us) h = elim (Bool-cases (f u)) [
  | inl e ↦ (u, keep f us, rw e refl, e)
  | inr e ↦
      let (v, rest, same, passes) = keep_first f us (rw e at h) in (v, rest, rw e same, passes)
]

find_upstream_first :
    (f : Upstream → Bool) (us : List Upstream)
    → any f us ≡ true
    → (a : Upstream) × (find_upstream f us ≡ some a) × In a us × (f a ≡ true)
find_upstream_first f [] h = cc
find_upstream_first f (u ∷ us) h = elim (Bool-cases (f u)) [
  | inl e ↦ (u, rw e refl, inl refl, e)
  | inr e ↦
      let (a, found, m, passes) = find_upstream_first f us (rw e at h) in
      (a, rw e found, inr m, passes)
]

module _ (now : ℕ) (collates : String → String → Bool) (digest : String → String → String)
    (rotation : String → ℕ) where
  -- When the plan is free to choose and the account of the session is eligible, and no eligible account
  -- is in an earlier capacity tier than it, that account comes first.
  pub plan_order_affinity_first :
      (p : PlanInput) (us : List Upstream)
      → is_automatic p ≡ true
      → any (has_id p.affinity_id) us ≡ true
      → ((v w : Upstream)
          → Mem v us
          → Mem w us
          → has_id p.affinity_id v ≡ true
          → capacity_tier v now p.query.model ≤ capacity_tier w now p.query.model)
      → (v : Upstream) × (rest : List Upstream) × (plan_order now collates digest rotation p us
          ≡ v ∷ rest)
        × (has_id p.affinity_id v ≡ true)
  plan_order_affinity_first p us auto eligible lowest =
      let ordered = order_preferred now collates digest rotation p us in
      let perm = order_preferred-Perm now collates digest rotation p us in
      let there = any-Perm (has_id p.affinity_id) us ordered (Perm.symm perm) eligible in
      let (a, found, m, is_affinity) = find_upstream_first (has_id p.affinity_id) ordered there in
      let (v, rest, kept, passes) = keep_first (has_id p.affinity_id) ordered there in
      let others = keep (λ u. not (has_id p.affinity_id u)) ordered in
      elim (Bool-cases (any (has_lower_tier now collates digest rotation p a) ordered)) [
        | inl lower ↦
            let (w, k, less) =
              any-In (has_lower_tier now collates digest rotation p a) ordered lower in
            let low =
              lowest a w ((Perm.mem_iff perm).0 (In-Mem a ordered m))
                ((Perm.mem_iff perm).0 (In-Mem w ordered k)) is_affinity in
            let lt =
              ltb→lt (capacity_tier w now p.query.model) (capacity_tier a now p.query.model) less in
            absurd (omega (arith, lt, low))
        | inr none_lower ↦ (v, rest ++ others, rw (auto, found, none_lower, kept) refl, passes)
      ]
