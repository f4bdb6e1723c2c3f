-- ===== src/Accounts.antt =====
-- node/src/store.js: the health of an upstream account around its attempts, `beginUpstreamAttempt`
-- and `settleUpstreamAttempt`. The store hands out its live objects, so what an early return has
-- written stays: each operation returns the account also where it refuses. Dates that are absent or
-- cannot be read are `none`.
pub mod Gate
pub mod Settlement
pub mod Probes
pub mod Sessions
mod Tests
use codex_pooler.Prelude.{
  ℕ, suc, ◌+◌, ◌*◌, ◌≤◌, String, Bool, true, false, not, ◌&&◌, ◌||◌, Option, none, some, List, [],
  ◌∷◌, leb, ltb, ◌==◌, if◌then◌else◌, or_else, first_some, is_some, any, keep, str_eq,
}
use codex_pooler.Prelude.Table.{Table, lookup, insert, remove}
use codex_pooler.Outcomes.Cooldown.{
  RetryAfter, CooldownSource, reset_derived, Cooldown, quota_cooldown,
}
pub use codex_pooler.Outcomes.Status.{
  UpstreamType, codex, compass, claude, is_claude, is_codex, OutcomeClass, quota, credential,
  transient, success, caller, neutral, unknown,
}
use codex_pooler.Circuits.{
  Circuits, begin_circuit_lease, record_circuit_failure, complete_circuit_lease,
  release_circuit_lease, is_due,
}

pub data HealthStatus : Type 0 where
  cooldown reauth_required : HealthStatus

pub record AccountHealth : Type 0 where
  pub status : HealthStatus
  pub credential_status : Option ℕ
  pub generation : Option ℕ
  pub cooldown_source : Option CooldownSource
  pub cooldown_started_at : Option ℕ
  pub next_eligible_at : Option ℕ
  pub probe_in_flight : Bool
  pub last_probe_at : Option ℕ

pub record ModelCooldown : Type 0 where
  pub source : CooldownSource
  pub started_at : ℕ
  pub next_eligible_at : ℕ

-- `cooling_disabled` is `claudeCoolingDisabled` of the account; `reauth_at` is the time of a token
-- refresh status that a rejected credential has set.
pub record Upstream : Type 0 where
  pub id : String
  pub upstream_type : UpstreamType
  pub cooling_disabled : Bool
  pub health : Option AccountHealth
  pub health_generation : ℕ
  pub circuits : Circuits
  pub model_health : Table ModelCooldown
  pub reauth_at : Option ℕ
  pub last_successful_at : Option ℕ
  pub updated_at : ℕ

pub record Scope : Type 0 where
  pub model : String
  pub route_class : String
  pub ignore_quota_cooldown : Bool

pub record Admission : Type 0 where
  pub account_generation : ℕ
  pub account_probe : Bool
  pub ignore_quota_cooldown : Bool
  pub circuit_generation : ℕ
  pub scope : Scope

pub record Outcome : Type 0 where
  pub outcome_class : OutcomeClass
  pub status : Option ℕ
  pub model : String
  pub model_scoped : Bool
  pub retry : RetryAfter
  pub resets : List (Option ℕ)

pub record Session : Type 0 where
  pub upstream_id : String
  pub rotation_upstream_id : Option String

abbrev pub probe_interval_ms : ℕ
probe_interval_ms = 5 * 60000

abbrev pub is_reset_derived : Option CooldownSource → Bool
is_reset_derived (some reset_derived) = true
is_reset_derived _ = false

-- `health.generation ?? upstream.healthGeneration`.
abbrev pub account_generation : Upstream → ℕ
account_generation u = elim u.health [
  | none ↦ u.health_generation
  | some h ↦ or_else h.generation u.health_generation
]

abbrev pub clear_health : Upstream → Upstream
clear_health u = record u { health = none; health_generation = suc (account_generation u) }

abbrev pub last_probe : AccountHealth → Option ℕ
last_probe h = first_some h.last_probe_at h.cooldown_started_at

abbrev pub interval_over : Option ℕ → ℕ → Bool
interval_over none now = false
interval_over (some t) now = leb (t + probe_interval_ms) now

pub probe_due : AccountHealth → ℕ → Bool
probe_due h now =
    is_reset_derived h.cooldown_source && not h.probe_in_flight && interval_over (last_probe h) now

-- What the routing plan asks of a health record.
pub account_cooldown_blocks : AccountHealth → ℕ → Bool
account_cooldown_blocks h now = elim h.next_eligible_at [
  | none ↦ false
  | some t ↦
      if leb t now
      then false
      else if not (is_reset_derived h.cooldown_source) || h.probe_in_flight
      then true
      else not (interval_over (last_probe h) now)
]

abbrev pub probing_health : AccountHealth → ℕ → AccountHealth
probing_health h now = record h { probe_in_flight = true; last_probe_at = some now }

-- The account's part of `beginUpstreamAttempt`: refused, or let through, as a probe or not.
gate_until : Upstream → AccountHealth → ℕ → Option ℕ → Upstream × Option Bool
gate_until u h now none = (u, some false)
gate_until u h now (some t) =
    if leb t now
    then (clear_health u, some false)
    else if probe_due h now
    then (record u { health = some (probing_health h now) }, some true)
    else (u, none)

gate_status : Upstream → AccountHealth → ℕ → HealthStatus → Upstream × Option Bool
unfolding gate_until
gate_status u h now reauth_required = (u, none)
gate_status u h now cooldown = gate_until u h now h.next_eligible_at

pub account_gate : Upstream → ℕ → Upstream × Option Bool
unfolding gate_status
account_gate u now = elim u.health [
  | none ↦ (u, some false)
  | some h ↦ gate_status u h now h.status
]

abbrev pub is_cooldown : HealthStatus → Bool
is_cooldown cooldown = true
is_cooldown reauth_required = false

abbrev pub in_cooldown : Option AccountHealth → Bool
in_cooldown none = false
in_cooldown (some h) = is_cooldown h.status

remove_keys : List String → Table ModelCooldown → Table ModelCooldown
remove_keys [] m = m
remove_keys (k ∷ ks) m = remove_keys ks (remove k m)

insert_keys : List String → ModelCooldown → Table ModelCooldown → Table ModelCooldown
insert_keys [] c m = m
insert_keys (k ∷ ks) c m = insert_keys ks c (insert k c m)

abbrev pub blocks_until : Option ModelCooldown → ℕ → Bool
blocks_until none now = false
blocks_until (some c) now = ltb now c.next_eligible_at

-- `clearSessionPinsForUpstream`.
abbrev names_upstream : String → Option String → Bool
names_upstream id none = false
names_upstream id (some r) = str_eq r id

abbrev pub is_pinned_to : String → Session → Bool
is_pinned_to id s = str_eq s.upstream_id id || names_upstream id s.rotation_upstream_id

pub clear_session_pins : String → Table Session → Table Session
clear_session_pins id sessions = keep (λ e. not (is_pinned_to id e.1)) sessions

-- `if (admission.accountProbe && accountCurrent && upstream.health) … probeInFlight = false`.
abbrev pub unprobed : AccountHealth → AccountHealth
unprobed h = record h { probe_in_flight = false }

abbrev pub end_probe : Upstream → Admission → Bool → Upstream
end_probe u a current = record u {
  health = elim u.health [
    | none ↦ none
    | some h ↦ some (if a.account_probe && current then unprobed h else h)
  ];
}

abbrev pub cooldown_health : Cooldown → ℕ → ℕ → AccountHealth
cooldown_health c generation now = record {
  status = cooldown;
  credential_status = none;
  generation = some generation;
  cooldown_source = some c.source;
  cooldown_started_at = some now;
  next_eligible_at = some c.next_eligible_at;
  probe_in_flight = false;
  last_probe_at = none;
}

abbrev pub reauth_health : Option ℕ → ℕ → ℕ → AccountHealth
reauth_health status generation now = record {
  status = reauth_required;
  credential_status = status;
  generation = some generation;
  cooldown_source = none;
  cooldown_started_at = some now;
  next_eligible_at = none;
  probe_in_flight = false;
  last_probe_at = none;
}

-- Parameters: `quotaBlocksRouting`, `claudeModelHealthKeys` on a model (none for an empty one),
-- `normalizeModelKey` and the digest of `circuitKey`.
module _ (quota_blocks : Upstream → ℕ → String → Bool)
    (model_keys : Upstream → String → List String) (normalize_model_key : String → String)
    (circuit_key : Scope → String) where
  delete_model_cooldown : Upstream → String → Upstream
  delete_model_cooldown u model = record u {
    model_health = remove_keys (model_keys u model) u.model_health;
  }

  set_model_cooldown : Upstream → String → Cooldown → ℕ → Upstream
  set_model_cooldown u model c now = record u {
    model_health =
        insert_keys (model_keys u model)
          (record { source = c.source; started_at = now; next_eligible_at = c.next_eligible_at })
          u.model_health;
  }

  model_cooldown_blocks : Upstream → String → ℕ → Bool
  model_cooldown_blocks u model now =
      is_claude u.upstream_type
      && any (λ k. blocks_until (lookup k u.model_health) now) (model_keys u model)

  -- The rest of `beginUpstreamAttempt`, once the account lets the attempt through.
  lease_attempt : Upstream → Scope → Bool → ℕ → Upstream × Option Admission
  lease_attempt u scope probe now =
      let (circuits, lease) = begin_circuit_lease u.circuits (circuit_key scope) now in
      (
        record u { circuits = circuits },
        elim lease [
          | none ↦ none
          | some g ↦ some (record {
            account_generation = account_generation u;
            account_probe = probe;
            ignore_quota_cooldown = scope.ignore_quota_cooldown;
            circuit_generation = g;
            scope = scope;
          })
        ],
      )

  pub admit : Upstream → Scope → ℕ → Option Bool → Upstream × Option Admission
  unfolding lease_attempt model_cooldown_blocks delete_model_cooldown
  admit u scope now none = (u, none)
  admit u scope now (some probe) =
      let u' = if scope.ignore_quota_cooldown then delete_model_cooldown u scope.model else u in
      if not scope.ignore_quota_cooldown
        && not u.cooling_disabled
        && model_cooldown_blocks u scope.model now
      then (u', none)
      else lease_attempt u' scope probe now

  -- A request that ignores the cooldown lifts it first.
  abbrev pub lift_cooldown : Upstream → Scope → Upstream
  lift_cooldown u scope =
      if scope.ignore_quota_cooldown && in_cooldown u.health then clear_health u else u

  pub begin_upstream_attempt : Upstream → Scope → ℕ → Upstream × Option Admission
  begin_upstream_attempt u scope now =
      if not scope.ignore_quota_cooldown && quota_blocks u now scope.model
      then (u, none)
      else let (u', gate) = account_gate (lift_cooldown u scope) now in admit u' scope now gate

  abbrev pub release_circuit : Upstream → Admission → ℕ → Upstream
  release_circuit u a now = record u {
    circuits = release_circuit_lease u.circuits (circuit_key a.scope) a.circuit_generation now;
  }

  -- The model that an outcome speaks of: its own, or that of the attempt.
  abbrev pub outcome_model : Admission → Outcome → String
  outcome_model a o = normalize_model_key (if str_eq o.model "" then a.scope.model else o.model)

  settle_model_scoped : Upstream → Admission → Outcome → Bool → ℕ → Upstream
  unfolding set_model_cooldown delete_model_cooldown
  settle_model_scoped u a o current now =
      let model = outcome_model a o in
      let u' =
        if a.ignore_quota_cooldown || u.cooling_disabled
        then delete_model_cooldown u model
        else set_model_cooldown u model (quota_cooldown o.retry o.resets now) now in
      release_circuit (end_probe u' a current) a now

  abbrev pub rest_account : Upstream → Outcome → ℕ → Upstream
  rest_account u o now = record u {
    health =
        some
          (cooldown_health (quota_cooldown o.retry o.resets now) (suc (account_generation u)) now);
    health_generation = suc (account_generation u);
  }

  settle_quota :
      Upstream → Table Session → Admission → Outcome → Bool → ℕ → Upstream × Table Session
  settle_quota u sessions a o current now =
      if current && not a.ignore_quota_cooldown && not u.cooling_disabled
      then (release_circuit (rest_account u o now) a now, clear_session_pins u.id sessions)
      else if current && in_cooldown u.health
      then (release_circuit (clear_health u) a now, sessions)
      else (release_circuit u a now, sessions)

  abbrev pub reject_account : Upstream → Outcome → ℕ → Upstream
  reject_account u o now = record u {
    health = some (reauth_health o.status (suc (account_generation u)) now);
    health_generation = suc (account_generation u);
    reauth_at = if is_codex u.upstream_type then some now else u.reauth_at;
  }

  settle_credential :
      Upstream → Table Session → Admission → Outcome → Bool → ℕ → Upstream × Table Session
  settle_credential u sessions a o current now =
      if current
      then (release_circuit (reject_account u o now) a now, clear_session_pins u.id sessions)
      else (release_circuit u a now, sessions)

  settle_transient : Upstream → Admission → Bool → ℕ → Upstream
  settle_transient u a current now =
      end_probe
        (if u.cooling_disabled then release_circuit u a now else record u {
          circuits =
              record_circuit_failure u.circuits (circuit_key a.scope) a.circuit_generation now
                "transient";
        })
        a current

  abbrev pub cooldown_is_over : Option AccountHealth → ℕ → Bool
  cooldown_is_over none now = false
  cooldown_is_over (some h) now = is_due h.next_eligible_at now

  abbrev pub recovers : Upstream → Admission → Bool → ℕ → Bool
  recovers u a current now =
      current && is_some u.health && (a.account_probe || cooldown_is_over u.health now)

  settle_success : Upstream → Admission → Outcome → Bool → ℕ → Upstream
  unfolding delete_model_cooldown
  settle_success u a o current now =
      let model = outcome_model a o in
      let u' = record u {
        circuits = complete_circuit_lease u.circuits (circuit_key a.scope) a.circuit_generation now;
        last_successful_at = some now;
      } in
      let u'' =
        if is_claude u.upstream_type && not (str_eq model "")
        then delete_model_cooldown u' model
        else u' in
      if recovers u a current now then clear_health u'' else u''

  settle_class :
      Upstream
      → Table Session
      → Admission
      → Outcome
      → Bool
      → ℕ
      → OutcomeClass
      → Upstream × Table Session
  unfolding settle_quota settle_credential settle_transient settle_success
  settle_class u sessions a o current now quota = settle_quota u sessions a o current now
  settle_class u sessions a o current now credential = settle_credential u sessions a o current now
  settle_class u sessions a o current now transient = (settle_transient u a current now, sessions)
  settle_class u sessions a o current now success = (settle_success u a o current now, sessions)
  settle_class u sessions a o current now _ =
      (end_probe (release_circuit u a now) a current, sessions)

  abbrev pub is_model_scoped : Upstream → Admission → Outcome → Bool
  is_model_scoped u a o =
      o.model_scoped && is_claude u.upstream_type && not (str_eq (outcome_model a o) "")

  pub settle_upstream_attempt :
      Upstream → Table Session → Admission → Outcome → ℕ → Upstream × Table Session
  unfolding settle_model_scoped settle_class
  settle_upstream_attempt u sessions a o now =
      let current = a.account_generation == account_generation u in
      let (u', sessions') =
        if is_model_scoped u a o
        then (settle_model_scoped u a o current now, sessions)
        else settle_class u sessions a o current now o.outcome_class in
      (record u' { updated_at = now }, sessions')

  pub clear_upstream_cooldown : Upstream → ℕ → Upstream
  clear_upstream_cooldown u now =
      if in_cooldown u.health then record (clear_health u) { updated_at = now } else u
