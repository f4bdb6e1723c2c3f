-- ===== src/Routing/Eligibility.antt =====
-- The accounts that may be used and the reasons of the others leave nobody out.
use codex_pooler.Prelude.{
  ℕ, ◌≡◌, refl, sym, ap, ◌∙◌, subst, ◌⊎◌, inl, inr, String, Bool, true, false, not, ◌&&◌, ◌||◌,
  Option, none, some, List, [], ◌∷◌, map, arith, any, keep, str_eq, Bool-cases, In, In-any, keep-In,
}
use codex_pooler.Spending.{
  Exclusion, Candidate, Options, exclusion_of, add_candidate, split_candidates, is_pinned_exclusion,
  filter_spend_cap_eligible, is_empty, is_id, is_cap_reached,
}
use codex_pooler.Routing.{Upstream}
use codex_pooler.Routing.Ordering.{id_of}
use codex_pooler.Routing.Exclusions.{
  filter_by, is_blocked, blocked_code, candidate_of, spend_reason, is_chosen, open_upstreams,
  eligibility_from_upstreams, exclude_all, Rules, candidate_exclusion_code,
}
use codex_pooler.Routing.Plan.{
  PlanInput, select_requested, select_required, asks, plan_options, eligible_candidates,
}
use codex_pooler.Routing.Coverage.{
  IsAccounted, str_eq_refl, any-append_left, any-append_right, any-map, In-map, exclude_all_adds,
  filter_by-IsAccounted, select_requested-IsAccounted, select_required-IsAccounted,
  rotate_away-IsAccounted,
}

abbrev IsSplit : Candidate → List Candidate × List (String × Exclusion) → Type 0
IsSplit c s = In c s.0 ⊎ (any (λ e. str_eq e.0 c.id) s.1 ≡ true)

add_candidate_itself :
    (c : Candidate) (x : Option Exclusion) (s : List Candidate × List (String × Exclusion))
    → IsSplit c (add_candidate c x s)
add_candidate_itself c none (chosen, excluded) = inl (inl refl)
add_candidate_itself c (some x) (chosen, excluded) =
    inr (ap (λ b. b || any (λ e. str_eq e.0 c.id) excluded) (str_eq_refl c.id))

add_candidate-IsSplit :
    (c d : Candidate) (x : Option Exclusion) (s : List Candidate × List (String × Exclusion))
    → IsSplit c s
    → IsSplit c (add_candidate d x s)
add_candidate-IsSplit c d none (chosen, excluded) (inl m) = inl (inr m)
add_candidate-IsSplit c d none (chosen, excluded) (inr r) = inr r
add_candidate-IsSplit c d (some x) (chosen, excluded) (inl m) = inl m
add_candidate-IsSplit c d (some x) (chosen, excluded) (inr r) = inr (ground arith)

split_candidates-IsSplit :
    (o : Options) (c : Candidate) (cs : List Candidate)
    → In c cs
    → IsSplit c (split_candidates o cs)
unfolding split_candidates
split_candidates-IsSplit o c [] m = elim m [ ]
split_candidates-IsSplit o c (d ∷ cs) (inl e) =
    subst (λ a. IsSplit a (add_candidate d (exclusion_of o d) (split_candidates o cs))) (sym e)
      (add_candidate_itself d (exclusion_of o d) (split_candidates o cs))
split_candidates-IsSplit o c (d ∷ cs) (inr m) =
    add_candidate-IsSplit c d (exclusion_of o d) (split_candidates o cs)
      (split_candidates-IsSplit o c cs m)

-- Without a pinned continuation the cap filter keeps whom it chooses.
unpinned-none :
    (o : Options) (es : List (String × Exclusion))
    → o.continuation_id ≡ none
    → any (is_pinned_exclusion o) es ≡ false
unpinned-none o [] h = refl
unpinned-none o (e ∷ es) h =
    ap (λ t. (is_id t e.0 && is_cap_reached e.1) || any (is_pinned_exclusion o) es) h
    ∙ unpinned-none o es h

is_empty-nil : (cs : List Candidate) → is_empty cs ≡ true → [] ≡ cs
is_empty-nil [] h = refl
is_empty-nil (c ∷ cs) h = cc

filter_unpinned :
    (cs : List Candidate) (o : Options)
    → o.continuation_id ≡ none
    → ((filter_spend_cap_eligible cs o).eligible ≡ (split_candidates o cs).0)
      × ((filter_spend_cap_eligible cs o).exclusions ≡ (split_candidates o cs).1)
unfolding filter_spend_cap_eligible
filter_unpinned cs o h =
    let unpinned = unpinned-none o (split_candidates o cs).1 h in
    elim (Bool-cases (is_empty (split_candidates o cs).0)) [
      | inl e ↦ (rw (unpinned, e) (is_empty-nil (split_candidates o cs).0 e), rw (unpinned, e) refl)
      | inr e ↦ (rw (unpinned, e) refl, rw (unpinned, e) refl)
    ]

-- The accounts that may be used and the reasons of the others leave nobody out.
eligibility-covers :
    (us : List Upstream) (o : Options) (ignore : Bool) (now : ℕ) (u : Upstream)
    → o.continuation_id ≡ none
    → In u us
    → IsAccounted u (eligibility_from_upstreams us o ignore now)
unfolding eligibility_from_upstreams
eligibility-covers us o ignore now u h m =
    let open_ones = open_upstreams ignore now us in
    let cs = map candidate_of open_ones in
    let (chosen, excluded) = filter_unpinned cs o h in
    let spent = map spend_reason (filter_spend_cap_eligible cs o).exclusions in
    let blocked = map (λ v. (id_of v, blocked_code now v)) (keep (is_blocked ignore now) us) in
    elim (Bool-cases (is_blocked ignore now u)) [
      | inl b ↦ inr (
          any-append_right (λ e. str_eq e.0 (id_of u)) spent blocked
            (any-map (λ e. str_eq e.0 (id_of u)) (λ v. (id_of v, blocked_code now v))
                (keep (is_blocked ignore now) us)
              ∙ In-any (λ v. str_eq (id_of v) (id_of u)) u (keep (is_blocked ignore now) us)
                  (keep-In (is_blocked ignore now) u us m b) (str_eq_refl (id_of u))))
      | inr b ↦
          let opened = keep-In (λ v. not (is_blocked ignore now v)) u us m (ap not b) in
          elim (split_candidates-IsSplit o (candidate_of u) cs
            (In-map candidate_of u open_ones opened)) [
              | inl c ↦ inl (
                  keep-In (is_chosen (filter_spend_cap_eligible cs o).eligible) u open_ones opened (
                    subst (λ ds. is_chosen ds u ≡ true) (sym chosen)
                      (In-any (λ d. str_eq d.id (id_of u)) (candidate_of u)
                        (split_candidates o cs).0 c (str_eq_refl (id_of u)))))
              | inr r ↦ inr (
                  any-append_left (λ e. str_eq e.0 (id_of u)) spent blocked
                    (any-map (λ e. str_eq e.0 (id_of u)) spend_reason
                        (filter_spend_cap_eligible cs o).exclusions
                      ∙ subst (λ es. any (λ e. str_eq e.0 (id_of u)) es ≡ true) (sym excluded) r))
            ]
    ]

module _ (rules : Rules) (now : ℕ) where
  pub eligible_candidates-covers :
      (p : PlanInput) (us : List Upstream) (u : Upstream)
      → asks p.pinned_id ≡ false
      → In u us
      → IsAccounted u (eligible_candidates rules now p us)
  unfolding eligible_candidates
  eligible_candidates-covers p us u h m =
      let found =
        eligibility_from_upstreams us (plan_options p) p.query.ignore_quota_cooldown now in
      let unpinned : (plan_options p).continuation_id ≡ none = rw h refl in
      let known : IsAccounted u (found.0, exclude_all us found.1 []) =
        elim (eligibility-covers us (plan_options p) p.query.ignore_quota_cooldown now u unpinned
          m) [ inl k ↦ inl k | inr r ↦ inr (exclude_all_adds us found.1 u [] m r) ] in
      let selected = select_requested p found.0 (exclude_all us found.1 []) in
      let typed = select_required p.required_type selected.0 selected.1 in
      let fit = filter_by (candidate_exclusion_code rules p.query now) typed.0 typed.1 in
      rotate_away-IsAccounted p.rotate_from_id u fit (
        filter_by-IsAccounted (candidate_exclusion_code rules p.query now) u typed (
          select_required-IsAccounted p.required_type u selected
            (select_requested-IsAccounted p u (found.0, exclude_all us found.1 []) known)))
