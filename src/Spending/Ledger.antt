-- ===== src/Spending/Ledger.antt =====
-- What is settled and what is spent.
use codex_pooler.Prelude.{
  ℕ, ◌+◌, ◌-◌, ◌≤◌, ◌<◌, ◌≡◌, refl, String, Bool, true, false, Option, none, some, List, [], ◌∷◌,
  arith, leb, if◌then◌else◌, if_elim, length, Option-cases, inl, inr, map, take, ap, ◌∙◌,
}
use codex_pooler.Prelude.Sorting.{sort}
use codex_pooler.Prelude.Table.{
  Table, lookup, insert, remove, remove_all, evict, evict_of_le, length-insert, lookup-insert,
  str_eq_refl,
}
use codex_pooler.Spending.{
  Settlement, Spending, CostSource, is_counted, previous_cost, effective_start, settle_usage,
  prune_settlements, settlement_limit, settlement_of, started_before, settled_total,
}

abbrev cost_if : Bool → ℕ → ℕ
cost_if true n = n
cost_if false n = 0

-- The sum of the kept settlements that count.
abbrev pub counted_total : (ℕ → Bool) → Table Settlement → ℕ
counted_total counts [] = 0
counted_total counts ((k, s) ∷ m) =
    cost_if (counts s.started_at) s.settled_cost_micros + counted_total counts m

-- What is spent covers the kept settlements that count.
abbrev pub IsBacked : Spending → Type 0
IsBacked sp = counted_total (is_counted sp) sp.settlements ≤ sp.spent_cost_micros

module _ (counts : ℕ → Bool) where
  counted_previous : Option Settlement → ℕ
  counted_previous none = 0
  counted_previous (some s) = cost_if (counts s.started_at) s.settled_cost_micros

  counted_total-remove :
      (k : String) (m : Table Settlement)
      → counted_total counts (remove k m) ≤ counted_total counts m
  unfolding remove
  counted_total-remove k [] = omega arith
  counted_total-remove k ((j, s) ∷ m) = ground (arith, counted_total-remove k m)

  counted_total-remove_all :
      (ks : List String) (m : Table Settlement)
      → counted_total counts (remove_all ks m) ≤ counted_total counts m
  unfolding remove_all
  counted_total-remove_all [] m = omega arith
  counted_total-remove_all (k ∷ ks) m =
      omega (arith, counted_total-remove_all ks (remove k m), counted_total-remove k m)

  counted_total-prune :
      (m : Table Settlement) → counted_total counts (prune_settlements m) ≤ counted_total counts m
  unfolding prune_settlements evict
  counted_total-prune m =
      if_elim {A = Table Settlement} (λ r. counted_total counts r ≤ counted_total counts m)
        (leb (length m) settlement_limit) (λ _. omega arith)
        (λ _.
          counted_total-remove_all
            (map (λ e. e.0) (take (length m - settlement_limit) (sort started_before m))) m)

  counted_total-insert :
      (k : String) (s : Settlement) (m : Table Settlement)
      → counted_total counts (insert k s m) + counted_previous (lookup k m)
        ≡ counted_total counts m + cost_if (counts s.started_at) s.settled_cost_micros
  unfolding insert lookup counted_previous
  counted_total-insert k s [] = omega arith
  counted_total-insert k s ((j, r) ∷ m) = ground (arith, counted_total-insert k s m)

  -- Before and after one settlement, with the previous settlement of the attempt.
  settled_backed :
      (k : String) (source : CostSource) (cost started spent : ℕ) (m : Table Settlement)
      → counted_total counts m ≤ spent
      → let start = effective_start (lookup k m) started in
        counted_total counts (insert k (settlement_of cost start source) m)
        ≤ (if counts start then settled_total spent cost (previous_cost (lookup k m)) else spent)
  unfolding counted_previous
  settled_backed k source cost started spent m backed = elim (Option-cases (lookup k m)) [
    | inl e ↦
        let sum = counted_total-insert k (settlement_of cost started source) m in
        rw e (ground (arith, rw e at sum))
    | inr (r, e) ↦
        let sum = counted_total-insert k (settlement_of cost r.started_at source) m in
        rw e (ground (arith, rw e at sum))
  ]

-- The books stay covered: what is spent is never less than the sum of the settlements that are kept
-- and count against the cap, through corrections of a settlement, late ones and pruned ones.
pub settle_usage-IsBacked :
    (sp : Spending) (id : String) (source : CostSource) (cost started : ℕ)
    → IsBacked sp
    → IsBacked (settle_usage sp id source cost started).0
unfolding settle_usage
settle_usage-IsBacked sp id source cost started backed =
    let start = effective_start (lookup id sp.settlements) started in
    omega (
      arith,
      counted_total-prune (is_counted sp)
          (insert id (settlement_of cost start source) sp.settlements),
      settled_backed (is_counted sp) id source cost started sp.spent_cost_micros sp.settlements
          backed,
    )

counted_previous-le :
    (counts : ℕ → Bool) (k : String) (m : Table Settlement)
    → counted_previous counts (lookup k m) ≤ counted_total counts m
unfolding lookup counted_previous
counted_previous-le counts k [] = omega arith
counted_previous-le counts k ((j, s) ∷ m) = ground (arith, counted_previous-le counts k m)

previous_backed :
    (counts : ℕ → Bool) (o : Option Settlement) (started spent : ℕ)
    → counted_previous counts o ≤ spent
    → counts (effective_start o started) ≡ true
    → previous_cost o ≤ spent
unfolding counted_previous
previous_backed counts none started spent backed counted = omega arith
previous_backed counts (some s) started spent backed counted = ground arith

prune_few :
    (id : String) (s : Settlement) (m : Table Settlement)
    → length m < settlement_limit
    → lookup id (prune_settlements (insert id s m)) ≡ some s
unfolding prune_settlements
prune_few id s m few =
    ap (lookup id) (
      evict_of_le (λ (e : String × Settlement). e.0) started_before settlement_limit (insert id s m)
        (omega (arith, length-insert id s m)))
    ∙ lookup-insert id id s m
    ∙ rw (str_eq_refl id) refl

settled_twice :
    (b : Bool) (spent previous first second : ℕ)
    → (b ≡ true → previous ≤ spent)
    → (if b
        then settled_total (if b then settled_total spent first previous else spent) second first
        else (if b then settled_total spent first previous else spent))
      ≡ (if b then settled_total spent second previous else spent)
settled_twice true spent previous first second h = omega (arith, h refl)
settled_twice false spent previous first second h = refl

-- Settling an attempt again corrects its first settlement: what is spent ends as if only the second
-- cost had been reported, whatever date the second report bears. The books must be covered and the
-- window of settlements not full, so that the first one is still known.
pub settle_usage_corrects :
    (sp : Spending) (id : String) (source source' : CostSource) (first second started again : ℕ)
    → IsBacked sp
    → length sp.settlements < settlement_limit
    → (settle_usage
        (settle_usage sp id source first started).0
        id
        source'
        second
        again).0.spent_cost_micros
      ≡ (settle_usage sp id source second started).0.spent_cost_micros
unfolding settle_usage
settle_usage_corrects sp id source source' first second started again backed few =
    let start = effective_start (lookup id sp.settlements) started in
    let known = prune_few id (settlement_of first start source) sp.settlements few in
    rw (known, settle_usage)
      (settled_twice (is_counted sp start) sp.spent_cost_micros
        (previous_cost (lookup id sp.settlements)) first second
        (λ counted.
          previous_backed (is_counted sp) (lookup id sp.settlements) started sp.spent_cost_micros
            (omega (arith, backed, counted_previous-le (is_counted sp) id sp.settlements)) counted))
