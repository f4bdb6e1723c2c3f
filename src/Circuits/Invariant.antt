-- ===== src/Circuits/Invariant.antt =====
-- What every call keeps true of the circuits: the bound on their number, and generations that were
-- issued.
use codex_pooler.Prelude.{
  ℕ, suc, ◌≤◌, ◌≡◌, refl, ap, ◌∙◌, inl, inr, String, true, not, ◌&&◌, Option, some, List, [], ◌∷◌,
  arith, length, All, All-map_mono, or_else, leb, ◌==◌, if_elim, Option-cases, is_some,
}
use codex_pooler.Prelude.Table.{
  Table, lookup, insert, HasDistinctKeys, insert-HasDistinctKeys, evict-HasDistinctKeys, All-insert,
  All-evict, length-evict, length-insert_present, has-lookup, All-lookup,
}
use codex_pooler.Circuits.{
  Circuits, Circuit, Status, closed, opened, half_open, write_advanced, next_generation, begin_row,
  begin_circuit_lease, prune_circuits, older, circuit_limit, record_circuit_failure,
  complete_circuit_lease, release_circuit_lease, Call, begins, fails, completes, releases, step,
  run, current_generation, probing_row, released_row, opened_row, failed_row, closed_row,
  prior_failures, row_generation, is_half_open, is_due, probe_is_stale,
}

-- A row's generation was issued.
abbrev pub IsIssued : ℕ → String × Circuit → Type 0
IsIssued n e = or_else e.1.generation 0 ≤ n

pub record Inv (cs : Circuits) : Type 0 where
  pub distinct : HasDistinctKeys cs.rows
  pub issued : All (IsIssued cs.sequence) cs.rows
  pub bounded : length cs.rows ≤ circuit_limit

IsIssued-mono : (m n : ℕ) → m ≤ n → (e : String × Circuit) → IsIssued m e → IsIssued n e
IsIssued-mono m n h e v = omega arith

All-keyed : (m : Table Circuit) → All (λ e. e.0 ≡ e.0) m
All-keyed [] = tt
All-keyed (e ∷ m) = (refl, All-keyed m)

prune_circuits-Inv :
    (cs : Circuits)
    → HasDistinctKeys cs.rows
    → All (IsIssued cs.sequence) cs.rows
    → Inv (prune_circuits cs)
unfolding prune_circuits
prune_circuits-Inv cs d v = record {
  distinct = evict-HasDistinctKeys (λ e. e.0) older circuit_limit cs.rows d;
  issued = All-evict (λ e. e.0) older circuit_limit (IsIssued cs.sequence) cs.rows v;
  bounded = length-evict (λ e. e.0) older circuit_limit cs.rows d (All-keyed cs.rows);
}

write_advanced-IsIssued :
    (cs : Circuits) (key : String) (c : Circuit) (generation : ℕ)
    → Inv cs
    → All (IsIssued (next_generation cs generation)) (write_advanced cs key c generation).rows
write_advanced-IsIssued cs key c generation v =
    All-insert (IsIssued (next_generation cs generation)) key
      (record c { generation = some (next_generation cs generation) }) cs.rows (omega arith)
      (All-map_mono (IsIssued cs.sequence) (IsIssued (next_generation cs generation)) cs.rows
        (IsIssued-mono cs.sequence (next_generation cs generation) (omega arith)) v.issued)

-- A row that stands already is written over in its place.
write_advanced-Inv :
    (cs : Circuits) (key : String) (c : Circuit) (generation : ℕ)
    → Inv cs
    → is_some (lookup key cs.rows) ≡ true
    → Inv (write_advanced cs key c generation)
write_advanced-Inv cs key c generation v p = record {
  distinct =
      insert-HasDistinctKeys key (record c { generation = some (next_generation cs generation) })
        cs.rows v.distinct;
  issued = write_advanced-IsIssued cs key c generation v;
  bounded = omega (
    arith,
    length-insert_present key (record c { generation = some (next_generation cs generation) })
        cs.rows (has-lookup key cs.rows ∙ p),
    v.bounded,
  );
}

prune_write_advanced-Inv :
    (cs : Circuits) (key : String) (c : Circuit) (generation : ℕ)
    → Inv cs
    → Inv (prune_circuits (write_advanced cs key c generation))
prune_write_advanced-Inv cs key c generation v =
    prune_circuits-Inv (write_advanced cs key c generation)
      (insert-HasDistinctKeys key (record c { generation = some (next_generation cs generation) })
        cs.rows v.distinct)
      (write_advanced-IsIssued cs key c generation v)

prune_write-Inv :
    (cs : Circuits) (key : String) (c : Circuit)
    → Inv cs
    → or_else c.generation 0 ≤ cs.sequence
    → Inv (prune_circuits (record cs { rows = insert key c cs.rows }))
prune_write-Inv cs key c v p =
    prune_circuits-Inv (record cs { rows = insert key c cs.rows })
      (insert-HasDistinctKeys key c cs.rows v.distinct)
      (All-insert (IsIssued cs.sequence) key c cs.rows p v.issued)

begin_row-Inv :
    (cs : Circuits) (key : String) (c : Circuit) (generation now : ℕ) (s : Status)
    → Inv cs
    → is_some (lookup key cs.rows) ≡ true
    → Inv (begin_row cs key c generation now s).0
unfolding begin_row
begin_row-Inv cs key c generation now closed v p = v
begin_row-Inv cs key c generation now opened v p =
    if_elim {A = Circuits × Option ℕ} (λ r. Inv r.0) (is_due c.next_probe_at now)
      (λ _. write_advanced-Inv cs key (probing_row c half_open now) generation v p) (λ _. v)
begin_row-Inv cs key c generation now half_open v p =
    if_elim {A = Circuits × Option ℕ} (λ r. Inv r.0)
      (c.probe_in_flight && not (probe_is_stale c.updated_at now)) (λ _. v)
      (λ _. write_advanced-Inv cs key (probing_row c c.status now) generation v p)

begin_circuit_lease-Inv :
    (cs : Circuits) (key : String) (now : ℕ) → Inv cs → Inv (begin_circuit_lease cs key now).0
unfolding begin_circuit_lease
begin_circuit_lease-Inv cs key now v = elim (Option-cases (lookup key cs.rows)) [
  | inl e ↦ rw (e, begin_circuit_lease) v
  | inr (c, e) ↦
      rw (e, begin_circuit_lease) (begin_row-Inv cs key c _ now c.status v (ap is_some e))
]

issued_at :
    (cs : Circuits) (key : String)
    → Inv cs
    → current_generation cs (lookup key cs.rows) ≤ cs.sequence
issued_at cs key v = elim (Option-cases (lookup key cs.rows)) [
  | inl e ↦ rw e (omega arith)
  | inr (c, e) ↦
      let issued = All-lookup (IsIssued cs.sequence) key c cs.rows v.issued e in rw e (ground arith)
]

record_circuit_failure-Inv :
    (cs : Circuits) (key : String) (generation now : ℕ) (why : String)
    → Inv cs
    → Inv (record_circuit_failure cs key generation now why)
unfolding record_circuit_failure
record_circuit_failure-Inv cs key generation now why v =
    if_elim Inv (not (current_generation cs (lookup key cs.rows) == generation)) (λ _. v)
      λ same.
        if_elim Inv (leb 3 (suc (prior_failures (lookup key cs.rows))))
          (λ _.
            prune_write_advanced-Inv cs key
              (opened_row (suc (prior_failures (lookup key cs.rows))) why now) generation v)
          (λ _.
            prune_write-Inv cs key
              (record (failed_row (suc (prior_failures (lookup key cs.rows))) why now) {
                generation = some generation;
              })
              v (ground (arith, issued_at cs key v)))

complete_circuit_lease-Inv :
    (cs : Circuits) (key : String) (generation now : ℕ)
    → Inv cs
    → Inv (complete_circuit_lease cs key generation now)
unfolding complete_circuit_lease
complete_circuit_lease-Inv cs key generation now v = elim (Option-cases (lookup key cs.rows)) [
  | inl e ↦ rw (e, complete_circuit_lease) v
  | inr (c, e) ↦
      let issued = All-lookup (IsIssued cs.sequence) key c cs.rows v.issued e in
      rw (e, complete_circuit_lease)
        (if_elim Inv (not (row_generation c == generation)) (λ _. v)
          λ same.
            if_elim Inv (is_half_open c.status)
              (λ _. prune_write_advanced-Inv cs key (closed_row now) generation v)
              (λ _.
                prune_write-Inv cs key (record (closed_row now) { generation = some generation }) v
                  (ground arith)))
]

release_circuit_lease-Inv :
    (cs : Circuits) (key : String) (generation now : ℕ)
    → Inv cs
    → Inv (release_circuit_lease cs key generation now)
unfolding release_circuit_lease
release_circuit_lease-Inv cs key generation now v = elim (Option-cases (lookup key cs.rows)) [
  | inl e ↦ rw (e, release_circuit_lease) v
  | inr (c, e) ↦
      rw (e, release_circuit_lease)
        (if_elim Inv (not (row_generation c == generation)) (λ _. v)
          λ same.
            if_elim Inv (is_half_open c.status)
              (λ _. write_advanced-Inv cs key (released_row c now) generation v (ap is_some e))
              (λ _. v))
]

pub step-Inv : (cs : Circuits) (c : Call) → Inv cs → Inv (step cs c)
unfolding step
step-Inv cs (begins key now) v = begin_circuit_lease-Inv cs key now v
step-Inv cs (fails key generation now why) v =
    record_circuit_failure-Inv cs key generation now why v
step-Inv cs (completes key generation now) v = complete_circuit_lease-Inv cs key generation now v
step-Inv cs (releases key generation now) v = release_circuit_lease-Inv cs key generation now v

-- Every sequence of calls, whatever generations it settles, keeps at most
-- a hundred rows under distinct keys, none with a generation above the sequence number.
pub run-Inv : (cs : Circuits) (calls : List Call) → Inv cs → Inv (run cs calls)
unfolding run
run-Inv cs [] v = v
run-Inv cs (c ∷ rest) v = run-Inv (step cs c) rest (step-Inv cs c v)
