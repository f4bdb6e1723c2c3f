-- ===== src/Prelude/Sorting.antt =====
-- The stable sort behind `Array.prototype.sort`, by a Boolean comparator: `le a b` is
-- `comparator(a, b) <= 0`.
use codex_pooler.Prelude.{
  suc, ◌≡◌, refl, Bool, true, false, inl, inr, List, [], ◌∷◌, arith, length, All, All-take,
  All-drop, All-map_mono, ℕ, zero, take, drop, if◌then◌else◌, Bool-cases,
}

module _ {ℓ} {A : Type ℓ} (le : A → A → Bool) where
  unfoldable pub insert_sorted : A → List A → List A
  insert_sorted x [] = x ∷ []
  insert_sorted x (y ∷ ys) = if le x y then x ∷ y ∷ ys else y ∷ insert_sorted x ys

  -- Elements enter from the right, each before its equals, so equals keep their order.
  unfoldable pub sort : List A → List A
  unfolding insert_sorted
  sort [] = []
  sort (x ∷ xs) = insert_sorted x (sort xs)

  pub length-insert_sorted : (x : A) (xs : List A) → length (insert_sorted x xs) ≡ suc (length xs)
  unfolding insert_sorted
  length-insert_sorted x [] = refl
  length-insert_sorted x (y ∷ ys) = ground (arith, length-insert_sorted x ys)

  pub length-sort : (xs : List A) → length (sort xs) ≡ length xs
  unfolding sort
  length-sort [] = refl
  length-sort (x ∷ xs) = ground (arith, length-insert_sorted x (sort xs), length-sort xs)

  module _ {κ} (P : A → Type κ) where
    pub All-insert_sorted : (x : A) (xs : List A) → P x → All P xs → All P (insert_sorted x xs)
    unfolding insert_sorted
    All-insert_sorted x [] p h = (p, tt)
    All-insert_sorted x (y ∷ ys) p h = ground (arith, All-insert_sorted x ys p h.1)

    pub All-sort : (xs : List A) → All P xs → All P (sort xs)
    unfolding sort
    All-sort [] h = tt
    All-sort (x ∷ xs) h = All-insert_sorted x (sort xs) h.0 (All-sort xs h.1)

-- A relation that holds between each element and all later ones.
module _ {ℓ κ} {A : Type ℓ} (R : A → A → Type κ) where
  abbrev pub Pairs : List A → Type κ
  Pairs [] = Unit
  Pairs (x ∷ xs) = All (R x) xs × Pairs xs

  pub Pairs-take : (n : ℕ) (xs : List A) → Pairs xs → Pairs (take n xs)
  Pairs-take zero xs h = tt
  Pairs-take (suc n) [] h = tt
  Pairs-take (suc n) (x ∷ xs) h = (All-take (R x) n xs h.0, Pairs-take n xs h.1)

  -- Each of the first `n` stands in the relation to each of the rest.
  pub take-drop-Pairs :
      (n : ℕ) (xs : List A) → Pairs xs → All (λ x. All (R x) (drop n xs)) (take n xs)
  take-drop-Pairs zero xs h = tt
  take-drop-Pairs (suc n) [] h = tt
  take-drop-Pairs (suc n) (x ∷ xs) h = (All-drop (R x) n xs h.0, take-drop-Pairs n xs h.1)

-- A sort by a comparator that decides a total preorder gives an ordered list.
module _ {ℓ κ} {A : Type ℓ} (le : A → A → Bool) (R : A → A → Type κ)
    (R_of_le : (x y : A) → le x y ≡ true → R x y) (R_of_not_le : (x y : A) → le x y ≡ false → R y x)
    (R_trans : (x y z : A) → R x y → R y z → R x z) where
  Pairs-insert_sorted : (x : A) (xs : List A) → Pairs R xs → Pairs R (insert_sorted le x xs)
  unfolding insert_sorted
  Pairs-insert_sorted x [] h = (tt, tt)
  Pairs-insert_sorted x (y ∷ ys) h = elim (Bool-cases (le x y)) [
    | inl e ↦
        rw e
          ((R_of_le x y e, All-map_mono (R y) (R x) ys (λ z. R_trans x y z (R_of_le x y e)) h.0), h)
    | inr e ↦
        rw e (All-insert_sorted le (R y) x ys (R_of_not_le x y e) h.0, Pairs-insert_sorted x ys h.1)
  ]

  pub sort-Pairs : (xs : List A) → Pairs R (sort le xs)
  unfolding sort
  sort-Pairs [] = tt
  sort-Pairs (x ∷ xs) = Pairs-insert_sorted x (sort le xs) (sort-Pairs xs)

-- A symmetric relation between all pairs survives any sort.
module _ {ℓ κ} {A : Type ℓ} (le : A → A → Bool) (R : A → A → Type κ)
    (R_sym : (x y : A) → R x y → R y x) where
  Pairs-insert_sorted_sym :
      (x : A) (xs : List A) → All (R x) xs → Pairs R xs → Pairs R (insert_sorted le x xs)
  unfolding insert_sorted
  Pairs-insert_sorted_sym x [] a h = (tt, tt)
  Pairs-insert_sorted_sym x (y ∷ ys) a h = elim (Bool-cases (le x y)) [
    | inl e ↦ rw e (a, h)
    | inr e ↦
        rw e (
          All-insert_sorted le (R y) x ys (R_sym x y a.0) h.0,
          Pairs-insert_sorted_sym x ys a.1 h.1,
        )
  ]

  pub sort-Pairs_sym : (xs : List A) → Pairs R xs → Pairs R (sort le xs)
  unfolding sort
  sort-Pairs_sym [] h = tt
  sort-Pairs_sym (x ∷ xs) h =
      Pairs-insert_sorted_sym x (sort le xs) (All-sort le (R x) xs h.0) (sort-Pairs_sym xs h.1)
