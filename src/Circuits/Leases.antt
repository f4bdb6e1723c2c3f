-- ===== src/Circuits/Leases.antt =====
-- Who gets a lease of a circuit, and what a lease out of date can do.
use codex_pooler.Prelude.{
  ℕ, suc, ◌+◌, ◌≤◌, ◌<◌, ◌≡◌, refl, ap, subst, ◌∙◌, ◌≢◌, sym, inl, inr, String, true, false, not,
  ◌&&◌, Option, none, some, arith, or_else, Option-cases, Bool-cases, is_some,
}
use codex_pooler.Prelude.Table.{
  Table, lookup, insert, evict, lookup-insert, str_eq_refl, lookup_of_evict,
}
use codex_pooler.Circuits.{
  Circuits, Circuit, Status, closed, opened, half_open, write_advanced, next_generation, begin_row,
  begin_circuit_lease, circuit_eligible, eligible_row, record_circuit_failure,
  complete_circuit_lease, release_circuit_lease, current_generation, probing_row, is_due,
  probe_is_stale, cooldown_ms, prune_circuits, closed_row, released_row, circuit_limit, older,
  row_generation, opened_row, failure_threshold,
}

-- The routing plan and the dispatcher agree: a circuit counts as eligible exactly when an attempt
-- would get a lease.
pub circuit_eligible-begin_circuit_lease :
    (cs : Circuits) (key : String) (now : ℕ)
    → circuit_eligible cs key now ≡ is_some (begin_circuit_lease cs key now).1
unfolding circuit_eligible begin_circuit_lease
circuit_eligible-begin_circuit_lease cs key now = elim (Option-cases (lookup key cs.rows)) [
  | inl e ↦ rw (e, circuit_eligible, begin_circuit_lease) refl
  | inr (c, e) ↦ rw (e, circuit_eligible, begin_circuit_lease) (by_status c c.status)
]
  where
    by_status :
        (c : Circuit) (s : Status)
        → eligible_row c now s
          ≡ is_some (begin_row cs key c (or_else c.generation cs.sequence) now s).1
    by_status c closed = refl
    by_status c opened = ground arith
    by_status c half_open = ground arith

pub lookup-insert_self :
    (k : String) (c : Circuit) (m : Table Circuit) → lookup k (insert k c m) ≡ some c
lookup-insert_self k c m = rw (lookup-insert k k c m, str_eq_refl k) refl

begin_half_open :
    (cs : Circuits) (key : String) (c : Circuit) (t now : ℕ)
    → lookup key cs.rows ≡ some c
    → c.status ≡ half_open
    → c.probe_in_flight ≡ true
    → c.updated_at ≡ some t
    → now < t + cooldown_ms
    → begin_circuit_lease cs key now ≡ (cs, none)
unfolding begin_circuit_lease begin_row
begin_half_open cs key c t now found half probing at soon =
    rw (found, begin_circuit_lease) (ground arith)

-- A granted probe leaves its row half open, with the probe out since now.
record IsProbing (rows : Table Circuit) (key : String) (now : ℕ) : Type 0 where
  row : Circuit
  found : lookup key rows ≡ some row
  status : row.status ≡ half_open
  probing : row.probe_in_flight ≡ true
  since : row.updated_at ≡ some now

write_advanced-IsProbing :
    (cs : Circuits) (key : String) (c : Circuit) (generation now : ℕ)
    → IsProbing (write_advanced cs key (probing_row c half_open now) generation).rows key now
write_advanced-IsProbing cs key c generation now = record {
  row = record (probing_row c half_open now) { generation = some (next_generation cs generation) };
  found = lookup-insert_self key _ cs.rows;
  status = refl;
  probing = refl;
  since = refl;
}

begin_row-IsProbing :
    (cs : Circuits) (key : String) (c : Circuit) (generation g now : ℕ) (s : Status)
    → c.status ≡ s
    → s ≢ closed
    → (begin_row cs key c generation now s).1 ≡ some g
    → IsProbing (begin_row cs key c generation now s).0.rows key now
unfolding begin_row
begin_row-IsProbing cs key c generation g now closed e n granted = absurd (n refl)
begin_row-IsProbing cs key c generation g now opened e n granted =
    elim (Bool-cases (is_due c.next_probe_at now)) [
      | inl d ↦ rw (d, begin_row) (write_advanced-IsProbing cs key c generation now)
      | inr d ↦ absurd (refused d)
    ]
  where
    refused : is_due c.next_probe_at now ≡ false → ⊥
    refused d = ground arith
begin_row-IsProbing cs key c generation g now half_open e n granted =
    elim (Bool-cases (c.probe_in_flight && not (probe_is_stale c.updated_at now))) [
      | inl d ↦ absurd (refused d)
      | inr d ↦
          rw (d, begin_row)
            (subst
              (λ s. IsProbing (write_advanced cs key (probing_row c s now) generation).rows key now)
              (sym e) (write_advanced-IsProbing cs key c generation now))
    ]
  where
    refused : (c.probe_in_flight && not (probe_is_stale c.updated_at now)) ≡ true → ⊥
    refused d = ground arith

pub begin_found :
    (cs : Circuits) (key : String) (c : Circuit) (now : ℕ)
    → lookup key cs.rows ≡ some c
    → begin_circuit_lease cs key now
      ≡ begin_row cs key c (or_else c.generation cs.sequence) now c.status
unfolding begin_circuit_lease
begin_found cs key c now found = rw (found, begin_circuit_lease) refl

-- When an open circuit, or a half-open one, grants a lease, the next attempt to take one, on the
-- state that this leaves, is refused and changes nothing if it comes within a minute.
pub begin_circuit_lease_one_probe :
    (cs : Circuits) (key : String) (c : Circuit) (g now later : ℕ)
    → lookup key cs.rows ≡ some c
    → c.status ≢ closed
    → (begin_circuit_lease cs key now).1 ≡ some g
    → later < now + cooldown_ms
    → let cs' = (begin_circuit_lease cs key now).0 in
      begin_circuit_lease cs' key later ≡ (cs', none)
begin_circuit_lease_one_probe cs key c g now later found not_closed granted soon =
    let eq = begin_found cs key c now found in
    let p =
      begin_row-IsProbing cs key c (or_else c.generation cs.sequence) g now c.status refl not_closed
        (ap (λ (r : Circuits × Option ℕ). r.1) (sym eq) ∙ granted) in
    rw eq (
      begin_half_open (begin_row cs key c (or_else c.generation cs.sequence) now c.status).0 key
        p.row now later p.found p.status p.probing p.since soon)

-- A lease's generation that no row, nor the sequence for a missing row, has any longer.
abbrev RowIsPast : Option Circuit → ℕ → Type 0
RowIsPast none g = Unit
RowIsPast (some c) g = row_generation c ≢ g

abbrev IsPast : Circuits → String → ℕ → Type 0
IsPast cs key g =
    (current_generation cs (lookup key cs.rows) ≢ g) × RowIsPast (lookup key cs.rows) g

-- Settling a lease with such a generation, in whatever way, changes nothing.
abbrev pub IsSettled : Circuits → String → ℕ → Type 0
IsSettled cs key g =
    (now : ℕ) (why : String)
    → (record_circuit_failure cs key g now why ≡ cs)
      × (complete_circuit_lease cs key g now ≡ cs)
      × (release_circuit_lease cs key g now ≡ cs)

IsPast-IsSettled : (cs : Circuits) (key : String) (g : ℕ) → IsPast cs key g → IsSettled cs key g
unfolding record_circuit_failure complete_circuit_lease release_circuit_lease
IsPast-IsSettled cs key g past now why = elim (Option-cases (lookup key cs.rows)) [
  | inl e ↦ (ground arith, ground arith, ground arith)
  | inr (c, e) ↦ (ground arith, ground arith, ground arith)
]

written_row :
    (key : String) (row x : Circuit) (rows : Table Circuit)
    → lookup key (evict (λ e. e.0) older circuit_limit (insert key row rows)) ≡ some x
    → x ≡ row
written_row key row x rows e = cc (
  lookup-insert_self key row rows,
  lookup_of_evict (λ y. y.0) older circuit_limit key x (insert key row rows) e,
)

pruned_advance-IsPast :
    (cs : Circuits) (key : String) (c : Circuit) (g : ℕ)
    → IsPast (prune_circuits (write_advanced cs key c g)) key g
unfolding prune_circuits
pruned_advance-IsPast cs key c g =
    let row = record c { generation = some (next_generation cs g) } in
    elim (Option-cases (lookup key (prune_circuits (write_advanced cs key c g)).rows)) [
      | inl e ↦ rw e (omega arith, tt)
      | inr (x, e) ↦
          let same = written_row key row x cs.rows e in rw (e, same) (omega arith, omega arith)
    ]

advance-IsPast :
    (cs : Circuits) (key : String) (c : Circuit) (g : ℕ) → IsPast (write_advanced cs key c g) key g
advance-IsPast cs key c g =
    rw (lookup-insert_self key (record c { generation = some (next_generation cs g) }) cs.rows)
      (omega arith, omega arith)

-- Whatever ends a lease by a new generation ends it for good: a failure that opens the circuit, a
-- success or a release of a probe. Settling a lease of that generation again, in any way and at any
-- time, leaves the circuits as they are.
pub IsSettled-once :
    (cs : Circuits) (key : String) (c : Circuit) (g now : ℕ) (why : String)
    → lookup key cs.rows ≡ some c
    → c.generation ≡ some g
    → (failure_threshold ≤ suc c.failures
        → IsSettled (record_circuit_failure cs key g now why) key g)
      × (c.status ≡ half_open
          → IsSettled (complete_circuit_lease cs key g now) key g
            × IsSettled (release_circuit_lease cs key g now) key g)
unfolding record_circuit_failure complete_circuit_lease release_circuit_lease
IsSettled-once cs key c g now why found current = (
  λ h.
      subst (λ r. IsSettled r key g) (sym (opens h))
        (IsPast-IsSettled _ key g
          (pruned_advance-IsPast cs key (opened_row (suc c.failures) why now) g)),
  λ h. (
    subst (λ r. IsSettled r key g) (sym (closes h))
        (IsPast-IsSettled _ key g (pruned_advance-IsPast cs key (closed_row now) g)),
    subst (λ r. IsSettled r key g) (sym (frees h))
        (IsPast-IsSettled _ key g (advance-IsPast cs key (released_row c now) g)),
  ),
)
  where
    opens :
        failure_threshold ≤ suc c.failures
        → record_circuit_failure cs key g now why
          ≡ prune_circuits (write_advanced cs key (opened_row (suc c.failures) why now) g)
    opens h = rw (found, record_circuit_failure) (ground arith)

    closes :
        c.status ≡ half_open
        → complete_circuit_lease cs key g now
          ≡ prune_circuits (write_advanced cs key (closed_row now) g)
    closes h = rw (found, complete_circuit_lease) (ground arith)

    frees :
        c.status ≡ half_open
        → release_circuit_lease cs key g now ≡ write_advanced cs key (released_row c now) g
    frees h = rw (found, release_circuit_lease) (ground arith)
