-- ===== src/Accounts/Tests.antt =====
-- An account that cools down, is probed and loses its credential, and the theorems at such inputs.
use codex_pooler.Prelude.{
  inr, ℕ, ◌≡◌, ◌≢◌, refl, Bool, true, false, not, Option, none, some, String, List, [], ◌∷◌, arith,
  is_some,
}
use codex_pooler.Prelude.Table.{Table, lookup, insert, evict}
use codex_pooler.Outcomes.Cooldown.{
  unreadable, reset_derived, quota_cooldown, parse_reset_cooldown_ms, parse_retry_after_ms,
  reset_rounds,
}
use codex_pooler.Circuits.{opened, begin_circuit_lease, begin_row, prune_circuits}
use codex_pooler.Accounts.{
  Upstream, AccountHealth, codex, cooldown, reauth_required, Scope, Admission, Outcome, quota,
  Session, account_generation, settle_upstream_attempt, begin_upstream_attempt, probe_due,
  account_cooldown_blocks, account_gate, probing_health, lease_attempt, admit, settle_class,
  settle_quota, clear_session_pins,
}
use codex_pooler.Accounts.Gate.{
  account_cooldown_blocks-account_gate, begin_upstream_attempt_rejected,
}
use codex_pooler.Accounts.Probes.{begin_upstream_attempt_strands_probe}
use codex_pooler.Accounts.Settlement.{settle_stale, settle_quota_rests, Untouched}

abbrev quota_blocks : Upstream → ℕ → String → Bool
quota_blocks _ _ _ = false

abbrev model_keys : Upstream → String → List String
model_keys _ _ = []

abbrev same : String → String
same s = s

abbrev circuit_key : Scope → String
circuit_key s = s.model

abbrev begin : Upstream → Scope → ℕ → Upstream × Option Admission
begin = begin_upstream_attempt quota_blocks model_keys same circuit_key

abbrev settle : Upstream → Table Session → Admission → Outcome → ℕ → Upstream × Table Session
settle = settle_upstream_attempt quota_blocks model_keys same circuit_key

abbrev resting : AccountHealth
resting = record {
  status = cooldown;
  credential_status = none;
  generation = some 2;
  cooldown_source = some reset_derived;
  cooldown_started_at = some 1000;
  next_eligible_at = some 901000;
  probe_in_flight = false;
  last_probe_at = none;
}

-- An account that rests, whose circuit for `gpt` is open.
abbrev account : Upstream
account = record {
  id = "a";
  upstream_type = codex;
  cooling_disabled = false;
  health = some resting;
  health_generation = 2;
  circuits = record {
    rows =
        (
          "gpt",
          record {
            status = opened;
            failures = 3;
            failure_class = some "transient";
            generation = some 5;
            probe_in_flight = false;
            updated_at = some 1000;
            next_probe_at = some 1000000;
          },
        )
        ∷ [];
    sequence = 5;
  };
  model_health = [];
  reauth_at = none;
  last_successful_at = none;
  updated_at = 1000;
}

abbrev rejected : AccountHealth
rejected = record resting { status = reauth_required; next_eligible_at = none }

abbrev scope : Scope
scope = record { model = "gpt"; route_class = "proxy_http"; ignore_quota_cooldown = false }

abbrev other_scope : Scope
other_scope = record scope { model = "mini" }

abbrev admission : Admission
admission = record {
  account_generation = 2;
  account_probe = false;
  ignore_quota_cooldown = false;
  circuit_generation = 5;
  scope = other_scope;
}

abbrev quota_answer : Outcome
quota_answer = record {
  outcome_class = quota;
  status = some 429;
  model = "mini";
  model_scoped = false;
  retry = unreadable;
  resets = some 1300 ∷ [];
}

abbrev sessions : Table Session
sessions =
    ("s1", record { upstream_id = "a"; rotation_upstream_id = none })
    ∷ ("s2", record { upstream_id = "b"; rotation_upstream_id = some "a" })
    ∷ ("s3", record { upstream_id = "b"; rotation_upstream_id = none })
    ∷ []

accounts : Unit {0}
unfolding begin_upstream_attempt account_gate probe_due admit lease_attempt begin_circuit_lease
    begin_row prune_circuits evict lookup insert settle_upstream_attempt settle_class settle_quota
    clear_session_pins quota_cooldown parse_reset_cooldown_ms parse_retry_after_ms reset_rounds
    account_cooldown_blocks
accounts = tt

-- The probe that is due goes out for a model whose circuit lets it through, and only once.
probe_goes_out_once :
    (is_some (begin account other_scope 301000).1 ≡ true)
    × (is_some (begin (begin account other_scope 301000).0 other_scope 301001).1 ≡ false)
unfolding accounts
probe_goes_out_once = (refl, refl)

two_sessions_lost :
    (settle account sessions admission quota_answer 2000).1
    ≡ ("s3", record { upstream_id = "b"; rotation_upstream_id = none }) ∷ []
unfolding accounts
two_sessions_lost = refl

account_cooldown_blocks-account_gate_example :
    is_some (account_gate account 301000).1 ≡ not (account_cooldown_blocks resting 301000)
account_cooldown_blocks-account_gate_example =
    account_cooldown_blocks-account_gate account resting 301000 refl refl

begin_upstream_attempt_rejected_example :
    begin (record account { health = some rejected }) scope 301000
    ≡ (record account { health = some rejected }, none)
begin_upstream_attempt_rejected_example =
    begin_upstream_attempt_rejected quota_blocks model_keys same circuit_key
      (record account { health = some rejected }) rejected scope 301000 refl refl

begin_upstream_attempt_strands_probe_example :
    ((begin account scope 301000).1 ≡ none)
    × ((begin account scope 301000).0.health ≡ some (probing_health resting 301000))
    × (begin (begin account scope 301000).0 other_scope 900999
        ≡ ((begin account scope 301000).0, none))
unfolding accounts
begin_upstream_attempt_strands_probe_example =
    begin_upstream_attempt_strands_probe quota_blocks model_keys same circuit_key account resting
      901000 301000 900999 scope other_scope refl refl refl refl (omega arith) (omega arith) refl
      refl refl refl

settle_stale_example :
    Untouched account sessions
      (settle account sessions (record admission { account_generation = 1 }) quota_answer 2000)
settle_stale_example =
    settle_stale quota_blocks model_keys same circuit_key account sessions
      (record admission { account_generation = 1 }) quota_answer 2000 (omega arith)

settle_quota_rests_example :
    let u' = (settle account sessions admission quota_answer 2000).0 in
    (begin u' other_scope 301000 ≡ (u', none))
    × (admission.account_generation ≢ account_generation u')
unfolding accounts
settle_quota_rests_example =
    settle_quota_rests quota_blocks model_keys same circuit_key account sessions admission admission
      quota_answer 2000 301000 other_scope refl (omega arith) refl refl refl refl refl (omega arith)
      (inr (omega arith))
