-- ===== src/Routing/Coverage.antt =====
-- No account disappears from the plan without a reason.
use codex_pooler.Prelude.{
  ◌≡◌, ◌≢◌, refl, sym, ap, ◌∙◌, subst, ◌⊎◌, inl, inr, String, Bool, true, false, not, ◌&&◌, ◌||◌,
  Option, none, some, List, [], ◌∷◌, ◌++◌, map, arith, if◌then◌else◌, any, str_eq, eq_iff, if_elim,
  Bool-cases, Option-cases, In,
}
use codex_pooler.Outcomes.Status.{UpstreamType}
use codex_pooler.Routing.{Upstream}
use codex_pooler.Routing.Ordering.{id_of}
use codex_pooler.Routing.Exclusions.{
  ExclusionCode, upstream_type_not_selected, not_affinity_selected, not_explicitly_selected,
  required_type_mismatch, session_rotation, Exclusions, has_reason, exclude, exclude_if, filter_by,
  filter_routing_candidates, exclude_known, exclude_all,
}
use codex_pooler.Routing.Plan.{
  PlanInput, select_by_type, select_requested, select_required, rotate_away, asks, has_id, is_type,
}

pub true-false : true ≢ false
true-false h = grind arith

pub str_eq_refl : (s : String) → str_eq s s ≡ true
str_eq_refl s = (eq_iff s s).1 refl

pub any-append_left {ℓ} :
    {A : Type ℓ} (p : A → Bool) (xs ys : List A) → any p xs ≡ true → any p (xs ++ ys) ≡ true
any-append_left p [] ys h = cc
any-append_left p (x ∷ xs) ys h = ground (arith, any-append_left p xs ys)

pub any-append_right {ℓ} :
    {A : Type ℓ} (p : A → Bool) (xs ys : List A) → any p ys ≡ true → any p (xs ++ ys) ≡ true
any-append_right p [] ys h = h
any-append_right p (x ∷ xs) ys h = ground (arith, any-append_right p xs ys)

pub any-map {ℓ κ} :
    {A : Type ℓ} {B : Type κ} (p : B → Bool) (f : A → B) (xs : List A)
    → any p (map f xs) ≡ any (λ x. p (f x)) xs
any-map p f [] = refl
any-map p f (x ∷ xs) = ap (λ b. p (f x) || b) (any-map p f xs)

pub In-map : {A B : Type 0} (f : A → B) (x : A) (xs : List A) → In x xs → In (f x) (map f xs)
In-map f x [] m = elim m [ ]
In-map f x (y ∷ ys) (inl e) = inl (ap f e)
In-map f x (y ∷ ys) (inr m) = inr (In-map f x ys m)

pub exclude_adds :
    (u : Upstream) (code : ExclusionCode) (ex : Exclusions)
    → has_reason (id_of u) (exclude u code ex) ≡ true
exclude_adds u code ex = elim (Bool-cases (has_reason (id_of u) ex)) [
  | inl e ↦ rw e e
  | inr e ↦ rw e (
      any-append_right (λ r. str_eq r.0 (id_of u)) ex ((id_of u, code) ∷ [])
        (ap (λ b. b || false) (str_eq_refl (id_of u))))
]

pub exclude_keeps :
    (id : String) (u : Upstream) (code : ExclusionCode) (ex : Exclusions)
    → has_reason id ex ≡ true
    → has_reason id (exclude u code ex) ≡ true
exclude_keeps id u code ex h = elim (Bool-cases (has_reason (id_of u) ex)) [
  | inl e ↦ rw e h
  | inr e ↦ rw e (any-append_left (λ r. str_eq r.0 id) ex ((id_of u, code) ∷ []) h)
]

exclude_if_keeps :
    (id : String) (u : Upstream) (code : Option ExclusionCode) (ex : Exclusions)
    → has_reason id ex ≡ true
    → has_reason id (exclude_if u code ex) ≡ true
exclude_if_keeps id u none ex h = h
exclude_if_keeps id u (some code) ex h = exclude_keeps id u code ex h

filter_by_keeps :
    (code : Upstream → Option ExclusionCode) (id : String) (us : List Upstream) (ex : Exclusions)
    → has_reason id ex ≡ true
    → has_reason id (filter_by code us ex).1 ≡ true
unfolding filter_by
filter_by_keeps code id [] ex h = h
filter_by_keeps code id (u ∷ us) ex h =
    filter_by_keeps code id us (exclude_if u (code u) ex) (exclude_if_keeps id u (code u) ex h)

-- An account stands among the candidates or has a reason.
abbrev pub IsAccounted : Upstream → List Upstream × Exclusions → Type 0
IsAccounted u s = In u s.0 ⊎ (has_reason (id_of u) s.1 ≡ true)

filter_by_kept :
    (code : Upstream → Option ExclusionCode) (v : Upstream) (us : List Upstream) (ex : Exclusions)
    → code v ≡ none
    → filter_by code (v ∷ us) ex ≡ (v ∷ (filter_by code us ex).0, (filter_by code us ex).1)
unfolding filter_by
filter_by_kept code v us ex n = rw n refl

filter_by_left :
    (code : Upstream → Option ExclusionCode) (v : Upstream) (us : List Upstream) (ex : Exclusions)
    (c : ExclusionCode)
    → code v ≡ some c
    → filter_by code (v ∷ us) ex ≡ filter_by code us (exclude v c ex)
unfolding filter_by
filter_by_left code v us ex c n = rw n refl

-- A member of the rest, once its first account is dealt with.
IsAccounted-later :
    (u v : Upstream) (s : List Upstream × Exclusions)
    → IsAccounted u s
    → IsAccounted u (v ∷ s.0, s.1)
IsAccounted-later u v s (inl m) = inl (inr m)
IsAccounted-later u v s (inr r) = inr r

filter_by_covers :
    (code : Upstream → Option ExclusionCode) (u : Upstream) (us : List Upstream) (ex : Exclusions)
    → In u us
    → IsAccounted u (filter_by code us ex)
filter_by_covers code u [] ex m = elim m [ ]
filter_by_covers code u (v ∷ us) ex (inl e) = elim (Option-cases (code v)) [
  | inl n ↦ subst (IsAccounted u) (sym (filter_by_kept code v us ex n)) (inl (inl e))
  | inr (c, n) ↦ subst (IsAccounted u) (sym (filter_by_left code v us ex c n)) (
      inr (
        filter_by_keeps code (id_of u) us (exclude v c ex) (
          subst (λ w. has_reason (id_of w) (exclude v c ex) ≡ true) (sym e) (exclude_adds v c ex))))
]
filter_by_covers code u (v ∷ us) ex (inr m) = elim (Option-cases (code v)) [
  | inl n ↦
      subst (IsAccounted u) (sym (filter_by_kept code v us ex n))
        (IsAccounted-later u v (filter_by code us ex) (filter_by_covers code u us ex m))
  | inr (c, n) ↦
      subst (IsAccounted u) (sym (filter_by_left code v us ex c n))
        (filter_by_covers code u us (exclude v c ex) m)
]

-- A filter accounts for whom was accounted for before it.
pub filter_by-IsAccounted :
    (code : Upstream → Option ExclusionCode) (u : Upstream) (s : List Upstream × Exclusions)
    → IsAccounted u s
    → IsAccounted u (filter_by code s.0 s.1)
filter_by-IsAccounted code u s (inl m) = filter_by_covers code u s.0 s.1 m
filter_by-IsAccounted code u s (inr r) = inr (filter_by_keeps code (id_of u) s.0 s.1 r)

filter_routing_candidates-IsAccounted :
    (p : Upstream → Bool) (code : ExclusionCode) (u : Upstream) (s : List Upstream × Exclusions)
    → IsAccounted u s
    → IsAccounted u (filter_routing_candidates p code s.0 s.1)
filter_routing_candidates-IsAccounted p code u s h =
    filter_by-IsAccounted (λ v. if p v then none else some code) u s h

select_by_type-IsAccounted :
    (p : PlanInput) (t : Option UpstreamType) (u : Upstream) (s : List Upstream × Exclusions)
    → IsAccounted u s
    → IsAccounted u (select_by_type p t s.0 s.1)
select_by_type-IsAccounted p (some t) u s h =
    filter_routing_candidates-IsAccounted (is_type t) upstream_type_not_selected u s h
select_by_type-IsAccounted p none u s h =
    if_elim {A = List Upstream × Exclusions} (IsAccounted u) (asks p.pinned_id)
      (λ _. filter_routing_candidates-IsAccounted (has_id p.pinned_id) not_affinity_selected u s h)
      (λ _. h)

pub select_requested-IsAccounted :
    (p : PlanInput) (u : Upstream) (s : List Upstream × Exclusions)
    → IsAccounted u s
    → IsAccounted u (select_requested p s.0 s.1)
select_requested-IsAccounted p u s h =
    if_elim {A = List Upstream × Exclusions} (IsAccounted u) (asks p.requested_id)
      (λ _.
        filter_routing_candidates-IsAccounted (has_id p.requested_id) not_explicitly_selected u s h)
      (λ _. select_by_type-IsAccounted p p.requested_type u s h)

pub select_required-IsAccounted :
    (t : Option UpstreamType) (u : Upstream) (s : List Upstream × Exclusions)
    → IsAccounted u s
    → IsAccounted u (select_required t s.0 s.1)
select_required-IsAccounted none u s h = h
select_required-IsAccounted (some t) u s h =
    filter_routing_candidates-IsAccounted (is_type t) required_type_mismatch u s h

pub rotate_away-IsAccounted :
    (id : String) (u : Upstream) (s : List Upstream × Exclusions)
    → IsAccounted u s
    → IsAccounted u (rotate_away id s.0 s.1)
rotate_away-IsAccounted id u s h =
    if_elim {A = List Upstream × Exclusions} (IsAccounted u)
      (asks id && any (λ v. not (has_id id v)) s.0)
      (λ _. filter_routing_candidates-IsAccounted (λ v. not (has_id id v)) session_rotation u s h)
      (λ _. h)

-- The reasons that the store gives reach the plan.
exclude_known_keeps :
    (us : List Upstream) (e : String × ExclusionCode) (id : String) (ex : Exclusions)
    → has_reason id ex ≡ true
    → has_reason id (exclude_known us e ex) ≡ true
exclude_known_keeps [] e id ex h = h
exclude_known_keeps (u ∷ us) e id ex h =
    if_elim {A = Exclusions} (λ r. has_reason id r ≡ true) (str_eq (id_of u) e.0)
      (λ _. exclude_keeps id u e.1 ex h) (λ _. exclude_known_keeps us e id ex h)

exclude_known_adds :
    (us : List Upstream) (e : String × ExclusionCode) (u : Upstream) (ex : Exclusions)
    → In u us
    → str_eq (id_of u) e.0 ≡ true
    → has_reason (id_of u) (exclude_known us e ex) ≡ true
exclude_known_adds [] e u ex m h = elim m [ ]
exclude_known_adds (v ∷ us) e u ex m h = elim (Bool-cases (str_eq (id_of v) e.0)) [
  | inl same ↦
      let ids : id_of v ≡ id_of u =
        (eq_iff (id_of v) e.0).0 same ∙ sym ((eq_iff (id_of u) e.0).0 h) in
      rw same (subst (λ i. has_reason i (exclude v e.1 ex) ≡ true) ids (exclude_adds v e.1 ex))
  | inr differs ↦ elim m [
    | inl here ↦ absurd (true-false (sym h ∙ ap (λ w. str_eq (id_of w) e.0) here ∙ differs))
    | inr there ↦ rw differs (exclude_known_adds us e u ex there h)
  ]
]

pub exclude_all_keeps :
    (us : List Upstream) (es : Exclusions) (id : String) (ex : Exclusions)
    → has_reason id ex ≡ true
    → has_reason id (exclude_all us es ex) ≡ true
unfolding exclude_all
exclude_all_keeps us [] id ex h = h
exclude_all_keeps us (e ∷ es) id ex h =
    exclude_all_keeps us es id (exclude_known us e ex) (exclude_known_keeps us e id ex h)

pub exclude_all_adds :
    (us : List Upstream) (es : Exclusions) (u : Upstream) (ex : Exclusions)
    → In u us
    → has_reason (id_of u) es ≡ true
    → has_reason (id_of u) (exclude_all us es ex) ≡ true
unfolding exclude_all
exclude_all_adds us [] u ex m h = cc
exclude_all_adds us (e ∷ es) u ex m h = elim (Bool-cases (str_eq e.0 (id_of u))) [
  | inl same ↦
      let back : str_eq (id_of u) e.0 ≡ true =
        (eq_iff (id_of u) e.0).1 (sym ((eq_iff e.0 (id_of u)).0 same)) in
      exclude_all_keeps us es (id_of u) (exclude_known us e ex)
        (exclude_known_adds us e u ex m back)
  | inr differs ↦ exclude_all_adds us es u (exclude_known us e ex) m (rw differs at h)
]
