-- ===== src/Circuits/Tests.antt =====
-- A circuit that opens, probes and recovers, and the theorems at inputs that meet their hypotheses.
use codex_pooler.Prelude.{◌≡◌, refl, true, false, none, some, String, [], ◌∷◌, arith, is_some}
use codex_pooler.Prelude.Table.{lookup, insert, evict}
use codex_pooler.Circuits.{
  Circuits, Circuit, opened, half_open, begins, fails, completes, run, step, begin_circuit_lease,
  begin_row, record_circuit_failure, complete_circuit_lease, release_circuit_lease, prune_circuits,
  circuit_eligible,
}
use codex_pooler.Circuits.Invariant.{Inv, run-Inv}
use codex_pooler.Circuits.Leases.{
  circuit_eligible-begin_circuit_lease, begin_circuit_lease_one_probe,
}
use codex_pooler.Circuits.Failures.{record_circuit_failure_counts}

circuits : Unit {0}
unfolding run step begin_circuit_lease begin_row record_circuit_failure complete_circuit_lease
    release_circuit_lease prune_circuits lookup insert evict
circuits = tt

abbrev no_circuits : Circuits
no_circuits = record { rows = []; sequence = 4 }

abbrev key : String
key = "proxy_http:gpt"

abbrev three_failures : Circuits
three_failures = run no_circuits (
    fails key 4 1000 "transient" ∷ fails key 4 2000 "transient" ∷ fails key 4 3000 "transient" ∷ [])

refused_then_probed :
    ((begin_circuit_lease three_failures key 62999).1 ≡ none)
    × ((begin_circuit_lease three_failures key 63000).1 ≡ some 6)
unfolding circuits
refused_then_probed = (refl, refl)

abbrev waiting : Circuit
waiting = record {
  status = opened;
  failures = 3;
  failure_class = some "transient";
  generation = some 5;
  probe_in_flight = false;
  updated_at = some 3000;
  next_probe_at = some 63000;
}

abbrev probing : Circuit
probing = record waiting { status = half_open; probe_in_flight = true; updated_at = some 63000 }

abbrev with_row : Circuit → Circuits
with_row c = record { rows = (key, c) ∷ []; sequence = 5 }

with_row-Inv : Inv (with_row waiting)
with_row-Inv = record { distinct = (tt, tt); issued = (omega arith, tt); bounded = omega arith }

run-Inv_example : Inv (run (with_row waiting) (begins key 63000 ∷ completes key 6 64000 ∷ []))
run-Inv_example =
    run-Inv (with_row waiting) (begins key 63000 ∷ completes key 6 64000 ∷ []) with_row-Inv

circuit_eligible-begin_circuit_lease_example :
    circuit_eligible (with_row waiting) key 63000
    ≡ is_some (begin_circuit_lease (with_row waiting) key 63000).1
circuit_eligible-begin_circuit_lease_example =
    circuit_eligible-begin_circuit_lease (with_row waiting) key 63000

begin_circuit_lease_one_probe_example :
    begin_circuit_lease (begin_circuit_lease (with_row waiting) key 63000).0 key 70000
    ≡ ((begin_circuit_lease (with_row waiting) key 63000).0, none)
unfolding circuits
begin_circuit_lease_one_probe_example =
    begin_circuit_lease_one_probe (with_row waiting) key waiting 6 63000 70000 refl (λ e. cc) refl
      (omega arith)

record_circuit_failure_counts_example :
    (begin_circuit_lease
      (record_circuit_failure (with_row waiting) key 5 64000 "transient")
      key
      65000).1
    ≡ none
unfolding lookup
record_circuit_failure_counts_example =
    ((record_circuit_failure_counts (with_row waiting) key 64000 65000 "transient" (tt, tt)
          (omega arith) ((λ _. omega arith), tt)).2
        (omega arith)).0
      (omega arith)
