-- ===== src/Circuits/Pruning.antt =====
-- node/src/store.js: what the pruning of circuit rows leaves of a row that was just written.
use codex_pooler.Prelude.{
  ℕ, ◌≤◌, ◌<◌, ◌≡◌, ◌≢◌, refl, sym, ap, String, false, none, some, [], ◌∷◌, arith, length, str_eq,
  eq_iff, or_else, All, All-of_In, Option-cases, Bool-cases, inl, inr, subst, ◌∙◌,
}
use codex_pooler.Prelude.Table.{
  Table, lookup, insert, has, evict, evict_of_le, evict_oldest, length-insert,
  length-insert_present, HasDistinctKeys, insert-HasDistinctKeys, one_evicted, lookup_of_evict,
}
use codex_pooler.Circuits.{Circuits, Circuit, prune_circuits, circuit_limit, older}
use codex_pooler.Circuits.Leases.{lookup-insert_self}

abbrev pub age : String × Circuit → ℕ
age e = or_else e.1.updated_at 0

-- All rows but that of a key were last written before a time.
abbrev pub IsOlderThan : ℕ → String → Table Circuit → Type 0
IsOlderThan now key m = All (λ e. e.0 ≢ key → age e < now) m

head_stays :
    (key j : String) (c w : Circuit) (m : Table Circuit)
    → str_eq j key ≡ false
    → lookup j (insert key c ((j, w) ∷ m)) ≡ some w
unfolding insert lookup
head_stays key j c w m other = ground (arith, eq_iff j j)

module _ (key : String) (c : Circuit) (now : ℕ) (written : c.updated_at ≡ some now) where
  -- A row that is new in a table within the limit outlives the older ones.
  kept_new :
      (m : Table Circuit)
      → HasDistinctKeys m
      → length m ≤ circuit_limit
      → IsOlderThan now key m
      → has key m ≡ false
      → lookup key (evict (λ e. e.0) older circuit_limit (insert key c m)) ≢ none
  unfolding has
  kept_new [] d bound old absent gone = cc (
    sym (lookup-insert_self key c []),
    ap (lookup key) (
        evict_of_le (λ e. e.0) older circuit_limit (insert key c [])
          (omega (arith, length-insert key c []))),
    gone,
  )
  kept_new ((j, w) ∷ m) d bound old absent gone =
      let all = insert key c ((j, w) ∷ m) in
      let distinct = insert-HasDistinctKeys key c ((j, w) ∷ m) d in
      let keyed = All-of_In (λ (e : String × Circuit). e.0 ≡ e.0) all (λ e _. refl) in
      let other : str_eq j key ≡ false = ground arith in
      let differs : j ≢ key = λ same. cc (other, (eq_iff j key).1 same) in
      let stored = head_stays key j c w m other in
      let stays =
        one_evicted (λ e. e.0) older circuit_limit all distinct keyed key j c w
          (omega (arith, length-insert key c ((j, w) ∷ m), bound)) (λ same. differs (sym same))
          (lookup-insert_self key c ((j, w) ∷ m)) gone stored in
      let no_older : now ≤ age (j, w) =
        subst (λ o. or_else o 0 ≤ age (j, w)) written
          (evict_oldest (λ e. e.0) older circuit_limit all distinct keyed (λ x y. age x ≤ age y)
            (λ x y h. ground arith) (λ x y h. ground arith) (λ x y z p q. omega (arith, p, q)) key j
            c w (lookup-insert_self key c ((j, w) ∷ m)) gone stays) in
      omega (arith, no_older, old.0 differs)

  -- Pruning leaves the row of a key that was just written, if the rows are within their limit and all
  -- others are older.
  pub prune_circuits_keeps :
      (cs : Circuits) (n : ℕ)
      → HasDistinctKeys cs.rows
      → length cs.rows ≤ circuit_limit
      → IsOlderThan now key cs.rows
      → lookup key (prune_circuits (record { rows = insert key c cs.rows; sequence = n })).rows
        ≡ some c
  unfolding prune_circuits
  prune_circuits_keeps cs n d bound old =
      let all = insert key c cs.rows in
      let distinct = insert-HasDistinctKeys key c cs.rows d in
      elim (Bool-cases (has key cs.rows)) [
        | inl e ↦
            ap (lookup key) (
              evict_of_le (λ x. x.0) older circuit_limit all
                (omega (arith, length-insert_present key c cs.rows e, bound)))
            ∙ lookup-insert_self key c cs.rows
        | inr e ↦ elim (Option-cases (lookup key (evict (λ x. x.0) older circuit_limit all))) [
          | inl gone ↦ absurd (kept_new cs.rows d bound old e gone)
          | inr (x, stays) ↦
              stays
              ∙ sym (lookup_of_evict (λ y. y.0) older circuit_limit key x all stays)
              ∙ lookup-insert_self key c cs.rows
        ]
      ]
