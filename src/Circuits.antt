-- ===== src/Circuits.antt =====
-- node/src/store.js: the circuit of each model and route class of an upstream. A key is
-- `circuitKey(scope)`, a digest of the platform. Times are milliseconds; a time that is absent or
-- cannot be read is `none`.
pub mod Invariant
pub mod Leases
pub mod Pruning
pub mod Failures
mod Tests
use codex_pooler.Prelude.{
  ℕ, suc, ◌+◌, ◌≤◌, max, String, Bool, true, false, not, ◌&&◌, ◌||◌, Option, none, some, List, [],
  ltb, leb, ◌==◌, if◌then◌else◌, or_else, is_some, ◌∷◌,
}
use codex_pooler.Prelude.Table.{Table, lookup, insert, evict}

pub data Status : Type 0 where
  closed opened half_open : Status

pub record Circuit : Type 0 where
  pub status : Status
  pub failures : ℕ
  pub failure_class : Option String
  pub generation : Option ℕ
  pub probe_in_flight : Bool
  pub updated_at : Option ℕ
  pub next_probe_at : Option ℕ

-- `upstream.circuits` and `upstream.circuitGenerationSequence`.
pub record Circuits : Type 0 where
  pub rows : Table Circuit
  pub sequence : ℕ

abbrev pub failure_threshold : ℕ
failure_threshold = 3

abbrev pub cooldown_ms : ℕ
cooldown_ms = 60000

abbrev pub circuit_limit : ℕ
circuit_limit = 100

-- `!Number.isFinite(t) || t + CIRCUIT_COOLDOWN_MS <= now`.
abbrev pub probe_is_stale : Option ℕ → ℕ → Bool
probe_is_stale none now = true
probe_is_stale (some t) now = leb (t + cooldown_ms) now

-- `Number.isFinite(t) && t <= now`.
abbrev pub is_due : Option ℕ → ℕ → Bool
is_due none now = false
is_due (some t) now = leb t now

eligible_row : Circuit → ℕ → Status → Bool
eligible_row c now closed = true
eligible_row c now opened = is_due c.next_probe_at now
eligible_row c now half_open = not c.probe_in_flight || probe_is_stale c.updated_at now

-- What the routing plan asks.
unfoldable pub circuit_eligible : Circuits → String → ℕ → Bool
unfolding eligible_row
circuit_eligible cs key now = elim (lookup key cs.rows) [
  | none ↦ true
  | some c ↦ eligible_row c now c.status
]

-- The generation of a row, and that of a key with no row.
abbrev pub current_generation : Circuits → Option Circuit → ℕ
current_generation cs none = cs.sequence
current_generation cs (some c) = or_else c.generation cs.sequence

-- `completeCircuitLease` and `releaseCircuitLease` read a row's generation with no such fallback.
abbrev pub row_generation : Circuit → ℕ
row_generation c = or_else c.generation 0

abbrev pub next_generation : Circuits → ℕ → ℕ
next_generation cs generation = suc (max generation cs.sequence)

-- `advanceCircuitGeneration` with the write of the row that takes the new generation.
abbrev pub write_advanced : Circuits → String → Circuit → ℕ → Circuits
write_advanced cs key c generation = record {
  rows = insert key (record c { generation = some (next_generation cs generation) }) cs.rows;
  sequence = next_generation cs generation;
}

-- The rows that a lease or its release leaves.
abbrev pub probing_row : Circuit → Status → ℕ → Circuit
probing_row c status now = record c {
  status = status;
  probe_in_flight = true;
  updated_at = some now;
}

abbrev pub released_row : Circuit → ℕ → Circuit
released_row c now = record c { probe_in_flight = false; updated_at = some now }

unfoldable pub begin_row : Circuits → String → Circuit → ℕ → ℕ → Status → Circuits × Option ℕ
begin_row cs key c generation now closed = (cs, some generation)
begin_row cs key c generation now opened =
    if is_due c.next_probe_at now
    then (
      write_advanced cs key (probing_row c half_open now) generation,
      some (next_generation cs generation),
    )
    else (cs, none)
begin_row cs key c generation now half_open =
    if c.probe_in_flight && not (probe_is_stale c.updated_at now) then (cs, none) else (
      write_advanced cs key (probing_row c c.status now) generation,
      some (next_generation cs generation),
    )

-- The lease is its generation; `none` refuses the attempt.
unfoldable pub begin_circuit_lease : Circuits → String → ℕ → Circuits × Option ℕ
unfolding begin_row
begin_circuit_lease cs key now = elim (lookup key cs.rows) [
  | none ↦ (cs, some cs.sequence)
  | some c ↦ begin_row cs key c (or_else c.generation cs.sequence) now c.status
]

-- `Date.parse(left) - Date.parse(right)`. Every row that is written here carries its time.
abbrev pub older : String × Circuit → String × Circuit → Bool
older a b = leb (or_else a.1.updated_at 0) (or_else b.1.updated_at 0)

unfoldable pub prune_circuits : Circuits → Circuits
prune_circuits cs = record cs { rows = evict (λ e. e.0) older circuit_limit cs.rows }

abbrev pub failed_row : ℕ → String → ℕ → Circuit
failed_row failures failure_class now = record {
  status = closed;
  failures = failures;
  failure_class = some failure_class;
  generation = none;
  probe_in_flight = false;
  updated_at = some now;
  next_probe_at = none;
}

abbrev pub opened_row : ℕ → String → ℕ → Circuit
opened_row failures failure_class now = record (failed_row failures failure_class now) {
  status = opened;
  next_probe_at = some (now + cooldown_ms);
}

abbrev pub prior_failures : Option Circuit → ℕ
prior_failures none = 0
prior_failures (some c) = c.failures

pub record_circuit_failure : Circuits → String → ℕ → ℕ → String → Circuits
unfolding prune_circuits
record_circuit_failure cs key generation now failure_class =
    let prior = lookup key cs.rows in
    let failures = suc (prior_failures prior) in
    let row = failed_row failures failure_class now in
    if not (current_generation cs prior == generation)
    then cs
    else if leb failure_threshold failures
    then prune_circuits (write_advanced cs key (opened_row failures failure_class now) generation)
    else prune_circuits
        (record cs { rows = insert key (record row { generation = some generation }) cs.rows })

abbrev pub closed_row : ℕ → Circuit
closed_row now = record {
  status = closed;
  failures = 0;
  failure_class = none;
  generation = none;
  probe_in_flight = false;
  updated_at = some now;
  next_probe_at = none;
}

abbrev pub is_half_open : Status → Bool
is_half_open half_open = true
is_half_open _ = false

pub complete_circuit_lease : Circuits → String → ℕ → ℕ → Circuits
unfolding prune_circuits
complete_circuit_lease cs key generation now = elim (lookup key cs.rows) [
  | none ↦ cs
  | some c ↦
      if not (row_generation c == generation)
      then cs
      else if is_half_open c.status
      then prune_circuits (write_advanced cs key (closed_row now) generation)
      else prune_circuits (record cs {
        rows = insert key (record (closed_row now) { generation = some generation }) cs.rows;
      })
]

pub release_circuit_lease : Circuits → String → ℕ → ℕ → Circuits
release_circuit_lease cs key generation now = elim (lookup key cs.rows) [
  | none ↦ cs
  | some c ↦
      if not (row_generation c == generation)
      then cs
      else if is_half_open c.status
      then write_advanced cs key (released_row c now) generation
      else cs
]

-- A call on the circuits at a time, with the generation of the lease that it settles.
pub data Call : Type 0 where
  begins : String → ℕ → Call
  fails : String → ℕ → ℕ → String → Call
  completes releases : String → ℕ → ℕ → Call

pub step : Circuits → Call → Circuits
step cs (begins key now) = (begin_circuit_lease cs key now).0
step cs (fails key generation now why) = record_circuit_failure cs key generation now why
step cs (completes key generation now) = complete_circuit_lease cs key generation now
step cs (releases key generation now) = release_circuit_lease cs key generation now

pub run : Circuits → List Call → Circuits
run cs [] = cs
run cs (c ∷ rest) = run (step cs c) rest
