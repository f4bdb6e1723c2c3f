-- ===== src/Prelude/Table/Laws.antt =====
-- The laws of the operations, in the form of a conditional where one exists.
use codex_pooler.Prelude.{
  suc, ◌≤◌, ◌≡◌, refl, ◌≢◌, String, true, List, [], ◌∷◌, none, some, arith, length, All, is_some,
  if◌then◌else◌, str_eq, eq_iff,
}
use codex_pooler.Prelude.Table.Defs.{
  Table, lookup, insert, remove, has, update, remove_all, HasDistinctKeys,
}

pub str_eq_refl : (s : String) → str_eq s s ≡ true
str_eq_refl s = (eq_iff s s).1 refl

module _ {ℓ} {V : Type ℓ} where
  pub lookup-insert :
      (key asked : String) (new : V) (table : Table V)
      → lookup asked (insert key new table)
        ≡ (if str_eq key asked then some new else lookup asked table)
  unfolding lookup insert
  lookup-insert key asked new [] = refl
  lookup-insert key asked new ((first, old) ∷ rest) = ground (
    arith,
    lookup-insert key asked new rest,
    eq_iff first asked,
    eq_iff first key,
    eq_iff key asked,
  )

  pub lookup-remove :
      (k j : String) (m : Table V)
      → lookup j (remove k m) ≡ (if str_eq k j then none else lookup j m)
  unfolding lookup remove
  lookup-remove k j [] = ground arith
  lookup-remove k j ((i, w) ∷ m) =
      ground (arith, eq_iff k j, eq_iff i k, eq_iff i j, lookup-remove k j m)

  pub lookup-update :
      (k j : String) (v : V) (m : Table V)
      → lookup j (update k v m)
        ≡ (if str_eq k j then (if is_some (lookup j m) then some v else none) else lookup j m)
  unfolding lookup update
  lookup-update k j v [] = ground arith
  lookup-update k j v ((i, w) ∷ m) =
      ground (arith, eq_iff k j, eq_iff i k, eq_iff i j, lookup-update k j v m)

  pub has-lookup : (k : String) (m : Table V) → has k m ≡ is_some (lookup k m)
  unfolding has lookup
  has-lookup k [] = refl
  has-lookup k ((j, v) ∷ m) = ground (arith, has-lookup k m)

  pub length-insert : (k : String) (v : V) (m : Table V) → length (insert k v m) ≤ suc (length m)
  unfolding insert
  length-insert k v [] = omega arith
  length-insert k v ((j, w) ∷ m) = ground (arith, length-insert k v m)

  pub length-insert_present :
      (k : String) (v : V) (m : Table V) → has k m ≡ true → length (insert k v m) ≡ length m
  unfolding insert has
  length-insert_present k v [] h = cc
  length-insert_present k v ((j, w) ∷ m) h = ground (arith, length-insert_present k v m)

  pub length-update : (k : String) (v : V) (m : Table V) → length (update k v m) ≡ length m
  unfolding update
  length-update k v [] = refl
  length-update k v ((j, w) ∷ m) = ground (arith, length-update k v m)

  pub length-remove : (k : String) (m : Table V) → length (remove k m) ≤ length m
  unfolding remove
  length-remove k [] = omega arith
  length-remove k ((j, v) ∷ m) = ground (arith, length-remove k m)

  pub length-remove_present :
      (k : String) (m : Table V) → has k m ≡ true → suc (length (remove k m)) ≤ length m
  unfolding remove has
  length-remove_present k [] h = cc
  length-remove_present k ((j, v) ∷ m) h =
      ground (arith, length-remove_present k m, length-remove k m)

  pub has-remove : (k j : String) (m : Table V) → k ≢ j → has j (remove k m) ≡ has j m
  unfolding has remove
  has-remove k j [] h = refl
  has-remove k j ((i, w) ∷ m) h = ground (arith, eq_iff i k, eq_iff i j, has-remove k j m)

  -- A property of all entries.
  module _ {κ} (P : String × V → Type κ) where
    pub All-insert : (k : String) (v : V) (m : Table V) → P (k, v) → All P m → All P (insert k v m)
    unfolding insert
    All-insert k v [] p h = (p, tt)
    All-insert k v ((j, w) ∷ m) p h = ground (arith, eq_iff j k, All-insert k v m p h.1)

    pub All-remove : (k : String) (m : Table V) → All P m → All P (remove k m)
    unfolding remove
    All-remove k [] h = tt
    All-remove k ((j, v) ∷ m) h = ground (arith, All-remove k m h.1)

    pub All-remove_all : (ks : List String) (m : Table V) → All P m → All P (remove_all ks m)
    unfolding remove_all
    All-remove_all [] m h = h
    All-remove_all (k ∷ ks) m h = All-remove_all ks (remove k m) (All-remove k m h)

    pub All-update : (k : String) (v : V) (m : Table V) → P (k, v) → All P m → All P (update k v m)
    unfolding update
    All-update k v [] p h = tt
    All-update k v ((j, w) ∷ m) p h = ground (arith, eq_iff j k, All-update k v m p h.1)

    pub All-lookup : (k : String) (v : V) (m : Table V) → All P m → lookup k m ≡ some v → P (k, v)
    unfolding lookup
    All-lookup k v [] h e = cc
    All-lookup k v ((j, w) ∷ m) h e = ground (arith, eq_iff j k, All-lookup k v m h.1)

  -- The keys stay distinct.
  pub insert-HasDistinctKeys :
      (k : String) (v : V) (m : Table V) → HasDistinctKeys m → HasDistinctKeys (insert k v m)
  unfolding insert
  insert-HasDistinctKeys k v [] h = (tt, tt)
  insert-HasDistinctKeys k v ((j, w) ∷ m) h = ground (
    arith,
    eq_iff j k,
    insert-HasDistinctKeys k v m h.1,
    λ (p : j ≢ k). All-insert (λ e. j ≢ e.0) k v m p h.0,
  )

  pub update-HasDistinctKeys :
      (k : String) (v : V) (m : Table V) → HasDistinctKeys m → HasDistinctKeys (update k v m)
  unfolding update
  update-HasDistinctKeys k v [] h = tt
  update-HasDistinctKeys k v ((j, w) ∷ m) h = ground (
    arith,
    eq_iff j k,
    update-HasDistinctKeys k v m h.1,
    λ (p : j ≢ k). All-update (λ e. j ≢ e.0) k v m p h.0,
  )

  pub remove-HasDistinctKeys :
      (k : String) (m : Table V) → HasDistinctKeys m → HasDistinctKeys (remove k m)
  unfolding remove
  remove-HasDistinctKeys k [] h = tt
  remove-HasDistinctKeys k ((j, v) ∷ m) h =
      ground (arith, remove-HasDistinctKeys k m h.1, All-remove (λ e. j ≢ e.0) k m h.0)

  pub remove_all-HasDistinctKeys :
      (ks : List String) (m : Table V) → HasDistinctKeys m → HasDistinctKeys (remove_all ks m)
  unfolding remove_all
  remove_all-HasDistinctKeys [] m h = h
  remove_all-HasDistinctKeys (k ∷ ks) m h =
      remove_all-HasDistinctKeys ks (remove k m) (remove-HasDistinctKeys k m h)
