-- ===== src/Prelude/Table/Eviction.antt =====
-- What the eviction of the oldest entries leaves.
use codex_pooler.Prelude.{
  ℕ, suc, ◌+◌, ◌-◌, ◌≤◌, ◌≡◌, refl, sym, subst, ap, ◌∙◌, ◌≢◌, inl, inr, String, Bool, true, false,
  List, [], ◌∷◌, map, some, none, arith, length, take, drop, All, All-take, In, All-In,
  In-take-drop, In-any, any-In, any, leb, All-of_In, length-take, length-map, Bool-cases,
  if◌then◌else◌, str_eq, eq_iff, le→leb, leb→le,
}
use codex_pooler.Prelude.Sorting.{
  insert_sorted, sort, length-sort, All-sort, Pairs, sort-Pairs, take-drop-Pairs, sort-Pairs_sym,
  Pairs-take,
}
use codex_pooler.Prelude.Table.Defs.{Table, lookup, has, remove, remove_all, evict, HasDistinctKeys}
use codex_pooler.Prelude.Table.Laws.{
  str_eq_refl, lookup-remove, has-remove, has-lookup, length-remove_present, All-remove_all,
  remove_all-HasDistinctKeys,
}

some_inj {ℓ} : {A : Type ℓ} {a b : A} → some a ≡ some b → a ≡ b
some_inj h = cc

module _ {A : Type 0} (le : A → A → Bool) where
  In-insert_sorted : (x y : A) (ys : List A) → In x (y ∷ ys) → In x (insert_sorted le y ys)
  unfolding insert_sorted
  In-insert_sorted x y [] m = m
  In-insert_sorted x y (z ∷ zs) (inl e) = ground (arith, In-insert_sorted x y zs (inl e))
  In-insert_sorted x y (z ∷ zs) (inr m) =
      ground (arith, λ (q : In x zs). In-insert_sorted x y zs (inr q))

  pub sort-In : (x : A) (xs : List A) → In x xs → In x (sort le xs)
  unfolding sort
  sort-In x [] m = elim m [ ]
  sort-In x (y ∷ ys) (inl e) = In-insert_sorted x y (sort le ys) (inl e)
  sort-In x (y ∷ ys) (inr m) = In-insert_sorted x y (sort le ys) (inr (sort-In x ys m))

module _ {V : Type 0} where
  pub lookup-remove_all :
      (j : String) (ks : List String) (m : Table V)
      → lookup j (remove_all ks m) ≡ (if any (λ k. str_eq k j) ks then none else lookup j m)
  unfolding remove_all
  lookup-remove_all j [] m = refl
  lookup-remove_all j (k ∷ ks) m =
      ground (arith, lookup-remove_all j ks (remove k m), lookup-remove k j m)

  pub lookup-In : (k : String) (v : V) (m : Table V) → lookup k m ≡ some v → In (k, v) m
  unfolding lookup
  lookup-In k v [] e = cc
  lookup-In k v ((j, w) ∷ m) e = elim (Bool-cases (str_eq j k)) [
    | inl q ↦ inl (λ i. (sym ((eq_iff j k).0 q) i, same q i))
    | inr q ↦ inr (lookup-In k v m (rw q at e))
  ]
    where
      same : str_eq j k ≡ true → v ≡ w
      same q = ground arith

  lookup_absent : (k : String) (v : V) (m : Table V) → All (λ e. k ≢ e.0) m → In (k, v) m → ⊥
  lookup_absent k v m h i = All-In (λ e. k ≢ e.0) (k, v) m h i refl

  pub In-lookup :
      (k : String) (v : V) (m : Table V) → HasDistinctKeys m → In (k, v) m → lookup k m ≡ some v
  unfolding lookup
  In-lookup k v [] d m = elim m [ ]
  In-lookup k v ((j, w) ∷ m) d (inl e) =
      let p : k ≡ j = ap (λ x. x.0) e in
      let q : v ≡ w = ap (λ x. x.1) e in ground (arith, eq_iff j k)
  In-lookup k v ((j, w) ∷ m) d (inr i) = elim (Bool-cases (str_eq j k)) [
    | inl q ↦ absurd (lookup_absent j v m d.0 (subst (λ x. In (x, v) m) (sym ((eq_iff j k).0 q)) i))
    | inr q ↦ rw q (In-lookup k v m d.1 i)
  ]

  length-remove_all :
      (ks : List String) (m : Table V)
      → Pairs ◌≢◌ ks
      → All (λ k. has k m ≡ true) ks
      → length (remove_all ks m) + length ks ≤ length m
  unfolding remove_all
  length-remove_all [] m d p = omega arith
  length-remove_all (k ∷ ks) m d p = omega (
    arith,
    length-remove_present k m p.0,
    length-remove_all ks (remove k m) d.1 (still ks d.0 p.1),
  )
    where
      still :
          (js : List String)
          → All (λ j. k ≢ j) js
          → All (λ j. has j m ≡ true) js
          → All (λ j. has j (remove k m) ≡ true) js
      still [] a b = tt
      still (j ∷ js) a b = (has-remove k j m a.0 ∙ b.0, still js a.1 b.1)

-- Entries are evicted by their key, and the comparator orders them by age.
module _ {V : Type 0} (key : String × V → String) (le : String × V → String × V → Bool)
    (limit : ℕ) where
  pub lookup_of_evict :
      (j : String) (v : V) (m : Table V)
      → lookup j (evict key le limit m) ≡ some v
      → lookup j m ≡ some v
  unfolding evict
  lookup_of_evict j v m e =
      ground (arith, lookup-remove_all j (map key (take (length m - limit) (sort le m))) m)

  pub evict-HasDistinctKeys :
      (m : Table V) → HasDistinctKeys m → HasDistinctKeys (evict key le limit m)
  unfolding evict
  evict-HasDistinctKeys m h =
      ground (arith, remove_all-HasDistinctKeys (map key (take (length m - limit) (sort le m))) m h)

  pub All-evict {κ} :
      (P : String × V → Type κ) (m : Table V) → All P m → All P (evict key le limit m)
  unfolding evict
  All-evict P m h = elim (Bool-cases (leb (length m) limit)) [
    | inl e ↦ rw e h
    | inr e ↦ rw e (All-remove_all P (map key (take (length m - limit) (sort le m))) m h)
  ]

  pub evict_of_le : (m : Table V) → length m ≤ limit → evict key le limit m ≡ m
  unfolding evict
  evict_of_le m h = rw (le→leb (length m) limit h)

module _ {V : Type 0} (key : String × V → String) where
  distinct-Pairs : (m : Table V) → HasDistinctKeys m → Pairs (λ a b. a.0 ≢ b.0) m
  distinct-Pairs [] h = tt
  distinct-Pairs ((k, v) ∷ m) h = (h.0, distinct-Pairs m h.1)

  All-ne_map :
      (k : String) (xs : List (String × V))
      → All (λ e. key e ≡ e.0) xs
      → All (λ e. k ≢ e.0) xs
      → All (λ j. k ≢ j) (map key xs)
  All-ne_map k [] a b = tt
  All-ne_map k (x ∷ xs) a b = ((λ e. b.0 (e ∙ a.0)), All-ne_map k xs a.1 b.1)

  map_distinct :
      (xs : List (String × V))
      → All (λ e. key e ≡ e.0) xs
      → Pairs (λ a b. a.0 ≢ b.0) xs
      → Pairs ◌≢◌ (map key xs)
  map_distinct [] a d = tt
  map_distinct (x ∷ xs) a d = (rw a.0 (All-ne_map x.0 xs a.1 d.0), map_distinct xs a.1 d.1)

  has-All :
      (m : Table V) (xs : List (String × V))
      → All (λ e. key e ≡ e.0) xs
      → All (λ e. lookup e.0 m ≡ some e.1) xs
      → All (λ k. has k m ≡ true) (map key xs)
  has-All m [] a b = tt
  has-All m (x ∷ xs) a b = (rw (a.0, has-lookup x.0 m, b.0) refl, has-All m xs a.1 b.1)

  any-key :
      (k : String) (xs : List (String × V))
      → any (λ j. str_eq j k) (map key xs) ≡ any (λ e. str_eq (key e) k) xs
  any-key k [] = refl
  any-key k (x ∷ xs) = rw (any-key k xs)

module _ {V : Type 0} (key : String × V → String) (le : String × V → String × V → Bool) (limit : ℕ)
    (m : Table V) (distinct : HasDistinctKeys m) (keyed : All (λ e. key e ≡ e.0) m) where
  abbrev oldest : List (String × V)
  oldest = take (length m - limit) (sort le m)

  oldest_keyed : All (λ e. key e ≡ e.0) oldest
  oldest_keyed = All-take _ (length m - limit) (sort le m) (All-sort le (λ e. key e ≡ e.0) m keyed)

  All-stored : All (λ e. lookup e.0 m ≡ some e.1) m
  All-stored = All-of_In (λ e. lookup e.0 m ≡ some e.1) m (λ e i. In-lookup e.0 e.1 m distinct i)

  oldest_stored : All (λ e. lookup e.0 m ≡ some e.1) oldest
  oldest_stored =
      All-take _ (length m - limit) (sort le m)
        (All-sort le (λ e. lookup e.0 m ≡ some e.1) m All-stored)

  oldest_distinct : Pairs (λ a b. a.0 ≢ b.0) oldest
  oldest_distinct =
      Pairs-take (λ a b. a.0 ≢ b.0) (length m - limit) (sort le m)
        (sort-Pairs_sym le (λ a b. a.0 ≢ b.0) (λ a b h e. h (sym e)) m
          (distinct-Pairs key m distinct))

  -- The limit holds afterwards.
  pub length-evict : length (evict key le limit m) ≤ limit
  unfolding evict
  length-evict = ground (
    arith,
    length-remove_all (map key oldest) m (map_distinct key oldest oldest_keyed oldest_distinct)
        (has-All key m oldest oldest_keyed oldest_stored),
    length-map key oldest,
    length-take (length m - limit) (sort le m),
    length-sort le m,
  )

  evicted_oldest :
      (k : String) (v : V)
      → lookup k m ≡ some v
      → any (λ i. str_eq i k) (map key oldest) ≡ true
      → (x : String × V) × In x oldest × (x.0 ≡ k) × (x.1 ≡ v)
  evicted_oldest k v stored h =
      let (x, i, p) = any-In (λ e. str_eq (key e) k) oldest (sym (any-key key k oldest) ∙ h) in
      let q : x.0 ≡ k =
        sym (All-In (λ e. key e ≡ e.0) x oldest oldest_keyed i) ∙ (eq_iff (key x) k).0 p in
      let r : lookup x.0 m ≡ some x.1 =
        All-In (λ e. lookup e.0 m ≡ some e.1) x oldest oldest_stored i in
      (x, i, q, some_inj (sym r ∙ ap (λ y. lookup y m) q ∙ stored))

  kept_newest :
      (j : String) (w : V)
      → lookup j m ≡ some w
      → any (λ i. str_eq i j) (map key oldest) ≡ false
      → In (j, w) (drop (length m - limit) (sort le m))
  kept_newest j w stored h =
      elim (In-take-drop (length m - limit) (j, w) (sort le m)
        (sort-In le (j, w) m (lookup-In j w m stored))) [
          | inl i ↦ cc (sym h ∙ any-key key j oldest ∙ in_oldest i)
          | inr i ↦ i
        ]
    where
      in_oldest : In (j, w) oldest → any (λ e. str_eq (key e) j) oldest ≡ true
      in_oldest i =
          In-any (λ e. str_eq (key e) j) (j, w) oldest i
            (ap (λ y. str_eq y j) (All-In (λ e. key e ≡ e.0) (j, w) oldest oldest_keyed i)
              ∙ str_eq_refl j)

  evicted_any :
      (k : String) (v : V)
      → leb (length m) limit ≡ false
      → lookup k m ≡ some v
      → lookup k (evict key le limit m) ≡ none
      → any (λ i. str_eq i k) (map key oldest) ≡ true
  unfolding evict
  evicted_any k v e stored gone = ground (arith, lookup-remove_all k (map key oldest) m)

  kept_any :
      (k : String) (v : V)
      → leb (length m) limit ≡ false
      → lookup k (evict key le limit m) ≡ some v
      → (any (λ i. str_eq i k) (map key oldest) ≡ false) × (lookup k m ≡ some v)
  unfolding evict
  kept_any k v e stays = ground (arith, lookup-remove_all k (map key oldest) m)

  -- An evicted entry was no younger than any that stays.
  pub evict_oldest {κ} :
      (R : String × V → String × V → Type κ)
      → ((x y : String × V) → le x y ≡ true → R x y)
      → ((x y : String × V) → le x y ≡ false → R y x)
      → ((x y z : String × V) → R x y → R y z → R x z)
      → (k j : String) (v w : V) → lookup k m ≡ some v
      → lookup k (evict key le limit m) ≡ none
      → lookup j (evict key le limit m) ≡ some w
      → R (k, v) (j, w)
  evict_oldest R yes_le not_le trans k j v w stored gone stays =
      elim (Bool-cases (leb (length m) limit)) [
        | inl e ↦ absurd (all_kept e)
        | inr e ↦
            let (x, i, p, q) = evicted_oldest k v stored (evicted_any k v e stored gone) in
            let (s, t) = kept_any j w e stays in
            let later =
              All-In (λ y. All (R y) (drop (length m - limit) (sort le m))) x oldest
                (take-drop-Pairs R (length m - limit) (sort le m)
                  (sort-Pairs le R yes_le not_le trans m))
                i in
            subst (λ y. R y (j, w)) (λ n. (p n, q n))
              (All-In (R x) (j, w) (drop (length m - limit) (sort le m)) later
                (kept_newest j w t s))
      ]
    where
      all_kept : leb (length m) limit ≡ true → ⊥
      all_kept e = cc (ap (lookup k) (evict_of_le key le limit m (leb→le _ _ e)))

  -- Where one entry is too many, a single one is evicted.
  pub one_evicted :
      (k j : String) (v w : V)
      → length m ≤ suc limit
      → k ≢ j
      → lookup k m ≡ some v
      → lookup k (evict key le limit m) ≡ none
      → lookup j m ≡ some w
      → lookup j (evict key le limit m) ≡ some w
  unfolding evict
  one_evicted k j v w size differ stored gone asked = elim (Bool-cases (leb (length m) limit)) [
    | inl e ↦ rw (e, evict) asked
    | inr e ↦
        let only : length (map key oldest) ≤ 1 =
          omega (arith, length-map key oldest, length-take (length m - limit) (sort le m)) in
        let free = only_one (map key oldest) k j only differ (evicted_any k v e stored gone) in
        rw (e, evict) (ground (arith, lookup-remove_all j (map key oldest) m, free))
  ]
    where
      only_one :
          (ks : List String) (k j : String)
          → length ks ≤ 1
          → k ≢ j
          → any (λ i. str_eq i k) ks ≡ true
          → any (λ i. str_eq i j) ks ≡ false
      only_one [] k j size differ h = cc
      only_one (i ∷ []) k j size differ h = ground (arith, eq_iff i k, eq_iff i j)
      only_one (i ∷ i' ∷ ks) k j size differ h = absurd (omega (arith, size))
