-- ===== src/Accounts/Settlement.antt =====
-- What the settlement of an attempt does to the account.
use codex_pooler.Prelude.{
  ℕ, suc, ◌+◌, ◌≤◌, ◌<◌, ◌≡◌, ◌≢◌, refl, String, Bool, false, none, some, List, arith, if_elim,
  ◌==◌, ◌⊎◌, inl, inr,
}
use codex_pooler.Prelude.Table.{Table}
use codex_pooler.Outcomes.Cooldown.{Cooldown, quota_cooldown}
use codex_pooler.Accounts.{
  Upstream, AccountHealth, Scope, Admission, Outcome, OutcomeClass, quota, credential, Session,
  account_generation, settle_upstream_attempt, settle_class, settle_model_scoped, settle_quota,
  settle_credential, settle_transient, settle_success, delete_model_cooldown, set_model_cooldown,
  is_model_scoped, begin_upstream_attempt, probe_interval_ms, cooldown_health, reauth_health,
  probe_due, is_reset_derived,
}
use codex_pooler.Accounts.Gate.{account_gate_shut, begin_refused, begin_upstream_attempt_rejected}

-- The account's health, its generation and the sessions are as they were.
abbrev pub Untouched : Upstream → Table Session → Upstream × Table Session → Type 0
Untouched u sessions r =
    (r.0.health ≡ u.health) × (r.0.health_generation ≡ u.health_generation) × (r.1 ≡ sessions)

module _ (quota_blocks : Upstream → ℕ → String → Bool)
    (model_keys : Upstream → String → List String) (normalize_model_key : String → String)
    (circuit_key : Scope → String) where
  abbrev settle : Upstream → Table Session → Admission → Outcome → ℕ → Upstream × Table Session
  settle = settle_upstream_attempt quota_blocks model_keys normalize_model_key circuit_key

  settle_class-Untouched :
      (u : Upstream) (sessions : Table Session) (a : Admission) (o : Outcome) (now : ℕ)
      (c : OutcomeClass)
      → Untouched u sessions (
          settle_class quota_blocks model_keys normalize_model_key circuit_key u sessions a o false
            now c)
  unfolding settle_class settle_quota settle_credential settle_transient settle_success
      delete_model_cooldown
  settle_class-Untouched u sessions a o now quota = ground arith
  settle_class-Untouched u sessions a o now _ = ground arith

  settle_model_scoped-Untouched :
      (u : Upstream) (a : Admission) (o : Outcome) (now : ℕ)
      → ((settle_model_scoped quota_blocks model_keys normalize_model_key circuit_key u a o false
            now).health
          ≡ u.health)
        × ((settle_model_scoped quota_blocks model_keys normalize_model_key circuit_key u a o false
              now).health_generation
            ≡ u.health_generation)
  unfolding settle_model_scoped delete_model_cooldown set_model_cooldown
  settle_model_scoped-Untouched u a o now = ground arith

  -- An outcome that arrives after the account moved on to another generation, of whatever kind, does
  -- not touch the account's health, its generation or the session pins.
  pub settle_stale :
      (u : Upstream) (sessions : Table Session) (a : Admission) (o : Outcome) (now : ℕ)
      → a.account_generation ≢ account_generation u
      → Untouched u sessions (settle u sessions a o now)
  unfolding settle_upstream_attempt
  settle_stale u sessions a o now old =
      let off : (a.account_generation == account_generation u) ≡ false = ground arith in
      rw (off, settle_upstream_attempt)
        (if_elim {A = Upstream × Table Session} (λ r. Untouched u sessions r)
          (is_model_scoped quota_blocks model_keys normalize_model_key circuit_key u a o)
          (λ _. let (p, q) = settle_model_scoped-Untouched u a o now in (p, q, refl))
          (λ _. settle_class-Untouched u sessions a o now o.outcome_class))

  settle_class_generation :
      (u : Upstream) (sessions : Table Session) (a : Admission) (o : Outcome) (b : Bool) (now : ℕ)
      (c : OutcomeClass)
      → account_generation u
        ≤ account_generation
            (settle_class quota_blocks model_keys normalize_model_key circuit_key u sessions a o b
              now c).0
  unfolding settle_class settle_quota settle_credential settle_transient settle_success
      delete_model_cooldown
  settle_class_generation u sessions a o b now quota = ground arith
  settle_class_generation u sessions a o b now _ = ground arith

  settle_model_scoped_generation :
      (u : Upstream) (a : Admission) (o : Outcome) (b : Bool) (now : ℕ)
      → account_generation u
        ≤ account_generation (
            settle_model_scoped quota_blocks model_keys normalize_model_key circuit_key u a o b now)
  unfolding settle_model_scoped delete_model_cooldown set_model_cooldown
  settle_model_scoped_generation u a o b now = ground arith

  -- The generation that an account shows never falls, whatever is settled.
  pub settle_generation :
      (u : Upstream) (sessions : Table Session) (a : Admission) (o : Outcome) (now : ℕ)
      → account_generation u ≤ account_generation (settle u sessions a o now).0
  unfolding settle_upstream_attempt
  settle_generation u sessions a o now =
      let current = a.account_generation == account_generation u in
      if_elim {A = Upstream × Table Session} (λ r. account_generation u ≤ account_generation r.0)
        (is_model_scoped quota_blocks model_keys normalize_model_key circuit_key u a o)
        (λ _. settle_model_scoped_generation u a o current now)
        (λ _. settle_class_generation u sessions a o current now o.outcome_class)

  not_due_yet :
      (c : Cooldown) (g now later : ℕ)
      → (is_reset_derived (some c.source) ≡ false) ⊎ (later < now + probe_interval_ms)
      → probe_due (cooldown_health c g now) later ≡ false
  unfolding probe_due
  not_due_yet c g now later (inl other) = ground arith
  not_due_yet c g now later (inr soon) = ground arith

  account_generation_of :
      (u : Upstream) (h : AccountHealth) (g : ℕ)
      → u.health ≡ some h
      → h.generation ≡ some g
      → account_generation u ≡ g
  account_generation_of u h g found known = rw (found, known) refl

  stale_generation : (new old a : ℕ) → new ≡ suc old → a ≤ old → a ≢ new
  stale_generation new old a next older = omega arith

  settle_quota_health :
      (u : Upstream) (sessions : Table Session) (a : Admission) (o : Outcome) (now : ℕ)
      → a.account_generation ≡ account_generation u
      → o.outcome_class ≡ quota
      → o.model_scoped ≡ false
      → a.ignore_quota_cooldown ≡ false
      → u.cooling_disabled ≡ false
      → (settle u sessions a o now).0.health
        ≡ some
            (cooldown_health (quota_cooldown o.retry o.resets now) (suc (account_generation u)) now)
  unfolding settle_upstream_attempt settle_class settle_quota
  settle_quota_health u sessions a o now current is_quota plain strict cools = ground arith

  -- A quota answer to a current attempt that keeps to the cooldown, not scoped to a model and on an
  -- account whose cooling is not disabled, rests the account. On the state that this leaves, an attempt
  -- that keeps to the cooldown is refused and changes nothing until the cooldown ends; where it is
  -- derived from reset headers, this is said of its first five minutes only. All attempts already
  -- out, with the account's generation or an earlier one, are out of date.
  pub settle_quota_rests :
      (u : Upstream) (sessions : Table Session) (a other : Admission) (o : Outcome) (now later : ℕ)
      (scope : Scope)
      → a.account_generation ≡ account_generation u
      → other.account_generation ≤ account_generation u
      → o.outcome_class ≡ quota
      → o.model_scoped ≡ false
      → a.ignore_quota_cooldown ≡ false
      → u.cooling_disabled ≡ false
      → scope.ignore_quota_cooldown ≡ false
      → later < (quota_cooldown o.retry o.resets now).next_eligible_at
      → (is_reset_derived (some (quota_cooldown o.retry o.resets now).source) ≡ false)
        ⊎ (later < now + probe_interval_ms)
      → let u' = (settle u sessions a o now).0 in
        (begin_upstream_attempt quota_blocks model_keys normalize_model_key circuit_key u' scope
            later
          ≡ (u', none))
        × (other.account_generation ≢ account_generation u')
  settle_quota_rests u sessions a other o now later scope current older is_quota plain strict cools
        strict' early soon =
      let u' = (settle u sessions a o now).0 in
      let h =
        cooldown_health (quota_cooldown o.retry o.resets now) (suc (account_generation u)) now in
      let kept = settle_quota_health u sessions a o now current is_quota plain strict cools in
      (
        begin_refused quota_blocks model_keys normalize_model_key circuit_key u' scope later strict'
            (account_gate_shut u' h _ later kept refl refl early (
              not_due_yet (quota_cooldown o.retry o.resets now) (suc (account_generation u)) now
                later soon)),
        (λ same.
            stale_generation (account_generation u') (account_generation u) other.account_generation
              (account_generation_of u' h _ kept refl) older same),
      )

  settle_credential_health :
      (u : Upstream) (sessions : Table Session) (a : Admission) (o : Outcome) (now : ℕ)
      → a.account_generation ≡ account_generation u
      → o.outcome_class ≡ credential
      → o.model_scoped ≡ false
      → (settle u sessions a o now).0.health
        ≡ some (reauth_health o.status (suc (account_generation u)) now)
  unfolding settle_upstream_attempt settle_class settle_credential
  settle_credential_health u sessions a o now current is_credential plain = ground arith

  -- A rejected credential blocks the account for every attempt, whatever it ignores, and at any time.
  pub settle_credential_blocks :
      (u : Upstream) (sessions : Table Session) (a : Admission) (o : Outcome) (now later : ℕ)
      (scope : Scope)
      → a.account_generation ≡ account_generation u
      → o.outcome_class ≡ credential
      → o.model_scoped ≡ false
      → let u' = (settle u sessions a o now).0 in
        begin_upstream_attempt quota_blocks model_keys normalize_model_key circuit_key u' scope
          later
        ≡ (u', none)
  settle_credential_blocks u sessions a o now later scope current is_credential plain =
      begin_upstream_attempt_rejected quota_blocks model_keys normalize_model_key circuit_key
        (settle u sessions a o now).0 (reauth_health o.status (suc (account_generation u)) now)
        scope later (settle_credential_health u sessions a o now current is_credential plain) refl
