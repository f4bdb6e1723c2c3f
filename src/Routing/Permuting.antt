-- ===== src/Routing/Permuting.antt =====
-- Every strategy only reorders the accounts it is given.
use mathlib.Core.List.{Perm, perm_middle}
use mathlib.Core.List.Perm
use codex_pooler.Prelude.{
  ℕ, suc, ◌%◌, sym, subst, String, Bool, Option, none, some, List, [], ◌∷◌, ◌++◌, take, drop,
  take-append-drop, length, Bool-cases, inl, inr, append_assoc, append-nil,
}
use codex_pooler.Prelude.Sorting.{sort, insert_sorted}
use codex_pooler.Routing.{Upstream}
use codex_pooler.Routing.Ordering.{
  Strategy, least_recent_success, most_remaining_quota, cache_locality, deterministic_rotation,
  Tier, members, all_members, flat_map, same_tier, add_to_tier, tiers_from, head_le,
  least_recent_le, quota_le, cache_le, id_le, rank_le, order_seeded, order_tier, order_tiers,
  order_routing_candidates,
}

insert_sorted-Perm {ℓ} :
    {A : Type ℓ} (le : A → A → Bool) (x : A) (xs : List A) → Perm (insert_sorted le x xs) (x ∷ xs)
unfolding insert_sorted
insert_sorted-Perm le x [] = Perm.refl (x ∷ [])
insert_sorted-Perm le x (y ∷ ys) = elim (Bool-cases (le x y)) [
  | inl e ↦ rw e (Perm.refl (x ∷ y ∷ ys))
  | inr e ↦ rw e (Perm.trans (Perm.cons y (insert_sorted-Perm le x ys)) (Perm.swap x y ys))
]

pub sort-Perm {ℓ} : {A : Type ℓ} (le : A → A → Bool) (xs : List A) → Perm (sort le xs) xs
unfolding sort
sort-Perm le [] = Perm.nil
sort-Perm le (x ∷ xs) =
    Perm.trans (insert_sorted-Perm le x (sort le xs)) (Perm.cons x (sort-Perm le xs))

append_comm_Perm : (xs ys : List Upstream) → Perm (xs ++ ys) (ys ++ xs)
append_comm_Perm [] ys = subst (Perm ys) (sym (append-nil ys)) (Perm.refl ys)
append_comm_Perm (x ∷ xs) ys =
    Perm.trans (Perm.cons x (append_comm_Perm xs ys)) (Perm.symm (perm_middle ys xs))

rotate-Perm : (n : ℕ) (us : List Upstream) → Perm (drop n us ++ take n us) us
rotate-Perm n us =
    subst (Perm (drop n us ++ take n us)) (take-append-drop n us)
      (append_comm_Perm (drop n us) (take n us))

append_middle_Perm :
    (xs : List Upstream) (u : Upstream) (ys : List Upstream)
    → Perm ((xs ++ u ∷ []) ++ ys) ((xs ++ ys) ++ u ∷ [])
append_middle_Perm [] u ys = append_comm_Perm (u ∷ []) ys
append_middle_Perm (x ∷ xs) u ys = Perm.cons x (append_middle_Perm xs u ys)

append_front_Perm : (xs ys zs : List Upstream) → Perm (xs ++ (ys ++ zs)) (ys ++ (xs ++ zs))
append_front_Perm [] ys zs = Perm.refl (ys ++ zs)
append_front_Perm (x ∷ xs) ys zs =
    Perm.trans (Perm.cons x (append_front_Perm xs ys zs)) (Perm.symm (perm_middle ys (xs ++ zs)))

add_to_tier-Perm :
    (now : ℕ) (model : String) (u : Upstream) (ts : List Tier)
    → Perm (all_members (add_to_tier now model u ts)) (all_members ts ++ u ∷ [])
unfolding add_to_tier all_members
add_to_tier-Perm now model u [] = Perm.refl (u ∷ [])
add_to_tier-Perm now model u (t ∷ ts) = elim (Bool-cases (same_tier now model t.head u)) [
  | inl e ↦ rw e (append_middle_Perm (members t) u (all_members ts))
  | inr e ↦ rw e (
      subst (Perm (members t ++ all_members (add_to_tier now model u ts)))
        (sym (append_assoc (members t) (all_members ts) (u ∷ [])))
        (Perm.append_left (members t) (add_to_tier-Perm now model u ts)))
]

tiers_from-Perm :
    (now : ℕ) (model : String) (ts : List Tier) (us : List Upstream)
    → Perm (all_members (tiers_from now model ts us)) (all_members ts ++ us)
unfolding tiers_from
tiers_from-Perm now model ts [] =
    subst (Perm (all_members ts)) (sym (append-nil (all_members ts))) (Perm.refl (all_members ts))
tiers_from-Perm now model ts (u ∷ us) =
    Perm.trans (tiers_from-Perm now model (add_to_tier now model u ts) us) (
      subst (Perm (all_members (add_to_tier now model u ts) ++ us))
        (append_assoc (all_members ts) (u ∷ []) us)
        (Perm.append_right us (add_to_tier-Perm now model u ts)))

insert_sorted_tiers-Perm :
    (le : Tier → Tier → Bool) (t : Tier) (ts : List Tier)
    → Perm (all_members (insert_sorted le t ts)) (members t ++ all_members ts)
unfolding insert_sorted all_members
insert_sorted_tiers-Perm le t [] = Perm.refl (members t ++ [])
insert_sorted_tiers-Perm le t (s ∷ ts) = elim (Bool-cases (le t s)) [
  | inl e ↦ rw e (Perm.refl (members t ++ (members s ++ all_members ts)))
  | inr e ↦ rw e (
      Perm.trans (Perm.append_left (members s) (insert_sorted_tiers-Perm le t ts))
        (append_front_Perm (members s) (members t) (all_members ts)))
]

sort_tiers-Perm :
    (le : Tier → Tier → Bool) (ts : List Tier) → Perm (all_members (sort le ts)) (all_members ts)
unfolding sort all_members
sort_tiers-Perm le [] = Perm.nil
sort_tiers-Perm le (t ∷ ts) =
    Perm.trans (insert_sorted_tiers-Perm le t (sort le ts))
      (Perm.append_left (members t) (sort_tiers-Perm le ts))

flat_map-Perm :
    (f : Tier → List Upstream) (ts : List Tier)
    → ((t : Tier) → Perm (f t) (members t))
    → Perm (flat_map f ts) (all_members ts)
unfolding flat_map all_members
flat_map-Perm f [] h = Perm.nil
flat_map-Perm f (t ∷ ts) h = Perm.append (h t) (flat_map-Perm f ts h)

module _ (collates : String → String → Bool) (digest : String → String → String)
    (rotation : String → ℕ) where
  order_seeded-Perm :
      (strategy : Strategy) (seed : String) (t : Tier)
      → Perm (order_seeded collates digest rotation strategy seed t) (members t)
  order_seeded-Perm cache_locality seed t =
      sort-Perm (cache_le collates digest rotation seed) (members t)
  order_seeded-Perm _ seed t =
      let sorted = sort (id_le collates digest rotation) (members t) in
      Perm.trans (rotate-Perm (rotation seed % suc (length t.others)) sorted)
        (sort-Perm (id_le collates digest rotation) (members t))

  order_tier-Perm :
      (strategy : Strategy) (seed : Option String) (t : Tier)
      → Perm (order_tier collates digest rotation strategy seed t) (members t)
  order_tier-Perm strategy none t = sort-Perm rank_le (members t)
  order_tier-Perm strategy (some seed) t = order_seeded-Perm strategy seed t

  order_tiers-Perm :
      (strategy : Strategy) (seed : Option String) (now : ℕ) (model : String) (us : List Upstream)
      → Perm (order_tiers collates digest rotation strategy seed now model us) us
  unfolding all_members
  order_tiers-Perm strategy seed now model us =
      Perm.trans
        (flat_map-Perm (order_tier collates digest rotation strategy seed)
          (sort (head_le now model) (tiers_from now model [] us)) (order_tier-Perm strategy seed))
        (Perm.trans (sort_tiers-Perm (head_le now model) (tiers_from now model [] us))
          (tiers_from-Perm now model [] us))

  -- Whatever the strategy, the ordered candidates are a permutation of the given ones: none is lost,
  -- and none stands there twice.
  pub order_routing_candidates-Perm :
      (strategy : Strategy) (now : ℕ) (model : String) (seed : Option String) (us : List Upstream)
      → Perm (order_routing_candidates collates digest rotation strategy now model seed us) us
  unfolding order_routing_candidates
  order_routing_candidates-Perm least_recent_success now model seed us =
      sort-Perm (least_recent_le now model) us
  order_routing_candidates-Perm cache_locality now model seed us =
      order_tiers-Perm cache_locality seed now model us
  order_routing_candidates-Perm deterministic_rotation now model seed us =
      order_tiers-Perm deterministic_rotation seed now model us
  order_routing_candidates-Perm most_remaining_quota now model seed us =
      sort-Perm (quota_le now model us) us
