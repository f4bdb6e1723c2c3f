-- ===== src/Circuits/Failures.antt =====
-- How failures add up, and what a success forgets.
use codex_pooler.Prelude.{
  ℕ, suc, ◌+◌, ◌≤◌, ◌<◌, ◌≡◌, refl, ap, String, true, false, none, some, arith, length, leb,
  Bool-cases, inl, inr, leb→le, not-leb→lt, is_some,
}
use codex_pooler.Prelude.Table.{HasDistinctKeys, lookup, insert, evict_of_le, length-insert}
use codex_pooler.Circuits.{
  Circuits, Circuit, closed, opened, begin_row, begin_circuit_lease, record_circuit_failure,
  complete_circuit_lease, prune_circuits, current_generation, prior_failures, is_half_open,
  closed_row, failure_threshold, cooldown_ms, circuit_limit, older, failed_row, opened_row,
  write_advanced, next_generation,
}
use codex_pooler.Circuits.Pruning.{IsOlderThan, prune_circuits_keeps}
use codex_pooler.Circuits.Leases.{lookup-insert_self, begin_found}

-- With room for one more row nothing is pruned.
prune_with_room :
    (cs : Circuits) (key : String) (c : Circuit) (n : ℕ)
    → length cs.rows < circuit_limit
    → prune_circuits (record { rows = insert key c cs.rows; sequence = n })
      ≡ record { rows = insert key c cs.rows; sequence = n }
unfolding prune_circuits
prune_with_room cs key c n room =
    ap (λ rows. record { rows = rows; sequence = n })
      (evict_of_le (λ e. e.0) older circuit_limit (insert key c cs.rows)
        (omega (arith, length-insert key c cs.rows)))

open_row_begin :
    (cs : Circuits) (key : String) (c : Circuit) (t later : ℕ)
    → lookup key cs.rows ≡ some c
    → c.status ≡ opened
    → c.next_probe_at ≡ some t
    → (later < t → (begin_circuit_lease cs key later).1 ≡ none)
      × (t ≤ later → is_some (begin_circuit_lease cs key later).1 ≡ true)
unfolding begin_row
open_row_begin cs key c t later found is_open next =
    rw (begin_found cs key c later found) ((λ h. ground arith), (λ h. ground arith))

closed_row_begin :
    (cs : Circuits) (key : String) (c : Circuit) (later : ℕ)
    → lookup key cs.rows ≡ some c
    → c.status ≡ closed
    → is_some (begin_circuit_lease cs key later).1 ≡ true
unfolding begin_row
closed_row_begin cs key c later found is_closed =
    rw (begin_found cs key c later found) (ground arith)

module _ (cs : Circuits) (key : String) (now : ℕ) (why : String) where
  abbrev g : ℕ
  g = current_generation cs (lookup key cs.rows)

  abbrev count : ℕ
  count = suc (prior_failures (lookup key cs.rows))

  failure_opens :
      leb failure_threshold count ≡ true
      → record_circuit_failure cs key g now why
        ≡ prune_circuits (write_advanced cs key (opened_row count why now) g)
  unfolding record_circuit_failure
  failure_opens e = ground arith

  failure_counts :
      leb failure_threshold count ≡ false
      → record_circuit_failure cs key g now why
        ≡ prune_circuits (record cs {
          rows = insert key (record (failed_row count why now) { generation = some g }) cs.rows;
        })
  unfolding record_circuit_failure
  failure_counts e = ground arith

-- A failure of a current lease counts one more than the key's row had, also where the table of rows
-- is full, if no other row was written as late as now. On the state that it leaves, below three
-- failures in a row the circuit goes on granting leases; from the third on it grants none for a
-- minute, and then one.
pub record_circuit_failure_counts :
    (cs : Circuits) (key : String) (now later : ℕ) (why : String)
    → HasDistinctKeys cs.rows
    → length cs.rows ≤ circuit_limit
    → IsOlderThan now key cs.rows
    → let g = current_generation cs (lookup key cs.rows) in
      let n = suc (prior_failures (lookup key cs.rows)) in
      let cs' = record_circuit_failure cs key g now why in
      ((c : Circuit) × (lookup key cs'.rows ≡ some c) × (c.failures ≡ n))
      × (n < failure_threshold → is_some (begin_circuit_lease cs' key later).1 ≡ true)
      × (failure_threshold ≤ n
          → (later < now + cooldown_ms → (begin_circuit_lease cs' key later).1 ≡ none)
            × (now + cooldown_ms ≤ later → is_some (begin_circuit_lease cs' key later).1 ≡ true))
record_circuit_failure_counts cs key now later why distinct bound old =
    elim (Bool-cases (leb failure_threshold (count cs key now why))) [
      | inl e ↦
          let row : Circuit = record (opened_row (count cs key now why) why now) {
            generation = some (next_generation cs (g cs key now why));
          } in
          let kept =
            prune_circuits_keeps key row now refl cs (next_generation cs (g cs key now why))
              distinct bound old in
          let (shut, again) =
            open_row_begin
              (prune_circuits (
                write_advanced cs key (opened_row (count cs key now why) why now)
                  (g cs key now why)))
              key row (now + cooldown_ms) later kept refl refl in
          rw (failure_opens cs key now why e)
            ((row, kept, refl), (λ h. absurd (omega (arith, leb→le _ _ e))), (λ _. (shut, again)))
      | inr e ↦
          let row : Circuit = record (failed_row (count cs key now why) why now) {
            generation = some (g cs key now why);
          } in
          let kept = prune_circuits_keeps key row now refl cs cs.sequence distinct bound old in
          rw (failure_counts cs key now why e) (
            (row, kept, refl),
            (λ _.
                closed_row_begin (prune_circuits (record cs { rows = insert key row cs.rows })) key
                  row later kept refl),
            (λ h. absurd (omega (arith, not-leb→lt _ _ e))),
          )
    ]

complete_half_open :
    (cs : Circuits) (key : String) (c : Circuit) (g now : ℕ)
    → length cs.rows < circuit_limit
    → lookup key cs.rows ≡ some c
    → c.generation ≡ some g
    → is_half_open c.status ≡ true
    → complete_circuit_lease cs key g now ≡ write_advanced cs key (closed_row now) g
unfolding complete_circuit_lease
complete_half_open cs key c g now room found current half =
    rw (found, complete_circuit_lease)
      (ground (
        arith,
        prune_with_room cs key
            (record (closed_row now) { generation = some (next_generation cs g) })
            (next_generation cs g) room,
      ))

complete_other :
    (cs : Circuits) (key : String) (c : Circuit) (g now : ℕ)
    → length cs.rows < circuit_limit
    → lookup key cs.rows ≡ some c
    → c.generation ≡ some g
    → is_half_open c.status ≡ false
    → complete_circuit_lease cs key g now
      ≡ record cs { rows = insert key (record (closed_row now) { generation = some g }) cs.rows }
unfolding complete_circuit_lease
complete_other cs key c g now room found current half =
    rw (found, complete_circuit_lease)
      (ground (
        arith,
        prune_with_room cs key (record (closed_row now) { generation = some g }) cs.sequence room,
      ))

-- A success of a current lease with room among the rows, forgets the failures: the circuit grants
-- leases, and the next failure counts as the first.
pub complete_circuit_lease_resets :
    (cs : Circuits) (key : String) (c : Circuit) (g now later : ℕ)
    → length cs.rows < circuit_limit
    → lookup key cs.rows ≡ some c
    → c.generation ≡ some g
    → let cs' = complete_circuit_lease cs key g now in
      (is_some (begin_circuit_lease cs' key later).1 ≡ true)
      × (prior_failures (lookup key cs'.rows) ≡ 0)
complete_circuit_lease_resets cs key c g now later room found current =
    elim (Bool-cases (is_half_open c.status)) [
      | inl e ↦
          let row = record (closed_row now) { generation = some (next_generation cs g) } in
          let kept = lookup-insert_self key row cs.rows in
          rw (complete_half_open cs key c g now room found current e) (
            closed_row_begin (write_advanced cs key (closed_row now) g) key row later kept refl,
            rw kept refl,
          )
      | inr e ↦
          let row = record (closed_row now) { generation = some g } in
          let kept = lookup-insert_self key row cs.rows in
          rw (complete_other cs key c g now room found current e) (
            closed_row_begin (record cs { rows = insert key row cs.rows }) key row later kept refl,
            rw kept refl,
          )
    ]
