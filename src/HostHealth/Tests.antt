-- ===== src/HostHealth/Tests.antt =====
-- The breaker on concrete origins, and the theorems of its modules at inputs that meet their
-- hypotheses.
use codex_pooler.Prelude.{
  ℕ, ◌==◌, ◌-◌, ◌≡◌, refl, inl, inr, String, Bool, true, false, none, some, [], ◌∷◌, arith,
}
use codex_pooler.Prelude.Table.{lookup, insert, update, evict}
use codex_pooler.HostHealth.{
  Config, Entry, Lease, Health, closed, opened, new_health, begins, fails, run, step, begin,
  begin_entry, entry_for, trim_failures, prune, settle_response, settle_error, release,
  current_entry, count_failure, failed_entry, retry_after_seconds, lease_for, bounded_integer,
}
use codex_pooler.HostHealth.Cause.{Fault}
use codex_pooler.HostHealth.Invariant.{Inv, run-new_health-Inv}
use codex_pooler.HostHealth.Circuit.{begin_one_probe}

-- Origins in no particular order of their texts.
abbrev any_order : String → String → Bool
any_order a b = true

abbrev host : String
host = "https://chatgpt.com"

abbrev defaults : Config
defaults = record {
  enabled = true;
  failure_threshold = 2;
  failure_window_ms = 30000;
  cooldown_ms = 15000;
  max_entries = 32;
  max_cause_depth = 5;
}

abbrev tripped : Entry
tripped = record {
  origin = host;
  generation = 1;
  state = opened;
  failures = 1000 ∷ 2000 ∷ [];
  open_until = 17000;
  probe_in_flight = false;
  last_used_at = 2000;
}

abbrev working : Entry
working = record tripped { state = closed; failures = 1000 ∷ []; open_until = 0 }

abbrev with_entry : Entry → Health
with_entry e = record { config = defaults; entries = (host, e) ∷ []; next_generation = 2 }

abbrev lease : Lease
lease = record { origin = host; generation = 1; probe = false; settled = false }

with_entry-Inv : Inv (with_entry working)
with_entry-Inv = record {
  threshold = omega arith;
  distinct = (tt, tt);
  valid = (
    record {
      keyed = refl;
      issued = omega arith;
      few = omega arith;
      closed_few = inr (omega arith);
      probing = inl refl;
    },
    tt,
  );
  bounded = omega arith;
}

host_health : Unit {0}
unfolding new_health bounded_integer run step begin begin_entry entry_for trim_failures prune
    settle_response settle_error release current_entry count_failure failed_entry
    retry_after_seconds lease_for lookup insert update evict
host_health = tt

-- Two refused connections within the window open the circuit; the third request is told to wait.
two_failures_open :
    (begin any_order
      (run any_order (new_health true none none none none none) (
        begins (some host) 1000
        ∷ fails (some lease) (some "ECONNREFUSED") 1500
        ∷ fails (some lease) (some "ECONNREFUSED") 2000
        ∷ []))
      (some host)
      3000).1
    ≡ record { admitted = false; lease = none; retry_after_seconds = some 14 }
unfolding host_health
two_failures_open = refl

run-new_health-Inv_example : Inv (
    run any_order (new_health true (some 3) none none (some 1) none) (
      begins (some host) 1000
      ∷ begins (some "https://other") 1200
      ∷ fails (some lease) (some "ENOTFOUND") 1500
      ∷ []))
run-new_health-Inv_example = run-new_health-Inv any_order true (some 3) none none (some 1) none (
    begins (some host) 1000
    ∷ begins (some "https://other") 1200
    ∷ fails (some lease) (some "ENOTFOUND") 1500
    ∷ [])

begin_one_probe_example :
    (begin any_order
      (begin any_order (with_entry tripped) (some host) 17000).0
      (some host)
      90000).1.admitted
    ≡ false
unfolding lookup
begin_one_probe_example =
    (begin_one_probe any_order (with_entry tripped) host tripped 17000 90000 refl refl refl refl
      (omega arith) refl).1

-- Two errors that name each other as their cause, neither with a code of the set.
abbrev looped : ℕ → Fault
looped i = record { dispatch_blocked = i == 1; code = some "EPIPE"; cause = some (1 - i) }
