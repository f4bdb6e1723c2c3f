-- ===== src/Accounts/Probes.antt =====
-- A probe that no attempt carries.
use codex_pooler.Prelude.{
  ℕ, ◌<◌, ◌≡◌, ap, ◌∙◌, String, Bool, true, false, Option, none, some, List, arith,
}
use codex_pooler.Circuits.{begin_circuit_lease}
use codex_pooler.Accounts.{
  Upstream, AccountHealth, cooldown, Scope, Admission, probe_due, admit, lease_attempt,
  begin_upstream_attempt, probing_health, delete_model_cooldown,
}
use codex_pooler.Accounts.Gate.{account_gate_shut, account_gate_probe, begin_by_gate, begin_refused}

module _ (quota_blocks : Upstream → ℕ → String → Bool)
    (model_keys : Upstream → String → List String) (normalize_model_key : String → String)
    (circuit_key : Scope → String) where
  abbrev begin : Upstream → Scope → ℕ → Upstream × Option Admission
  begin = begin_upstream_attempt quota_blocks model_keys normalize_model_key circuit_key

  -- The circuit refuses what the gate let through, and the account keeps what the gate wrote.
  admit_refused :
      (u : Upstream) (scope : Scope) (now : ℕ) (probe : Bool)
      → (begin_circuit_lease u.circuits (circuit_key scope) now).1 ≡ none
      → ((admit quota_blocks model_keys normalize_model_key circuit_key u scope now (some probe)).1
          ≡ none)
        × ((admit quota_blocks model_keys normalize_model_key circuit_key u scope now
              (some probe)).0.health
            ≡ u.health)
  unfolding admit lease_attempt delete_model_cooldown
  admit_refused u scope now probe shut = (ground arith, ground arith)

  probe_due_in_flight : (h : AccountHealth) (t now : ℕ) → probe_due (probing_health h t) now ≡ false
  unfolding probe_due
  probe_due_in_flight h t now = ground arith

  -- When the probe of a cooling account is due, the attempt keeps to cooldowns, its model is not at
  -- rest and its circuit refuses it, no admission is given, yet the account counts as being probed:
  -- the next attempt that keeps to cooldowns, for whatever model, is refused and changes nothing as
  -- long as the cooldown is not over.
  pub begin_upstream_attempt_strands_probe :
      (u : Upstream) (h : AccountHealth) (t now later : ℕ) (scope other : Scope)
      → u.health ≡ some h
      → h.status ≡ cooldown
      → h.next_eligible_at ≡ some t
      → probe_due h now ≡ true
      → now < t
      → later < t
      → scope.ignore_quota_cooldown ≡ false
      → other.ignore_quota_cooldown ≡ false
      → quota_blocks u now scope.model ≡ false
      → (begin_circuit_lease u.circuits (circuit_key scope) now).1 ≡ none
      → ((begin u scope now).1 ≡ none)
        × ((begin u scope now).0.health ≡ some (probing_health h now))
        × (begin (begin u scope now).0 other later ≡ ((begin u scope now).0, none))
  begin_upstream_attempt_strands_probe u h t now later scope other found cooling until due early
        early' strict strict' free shut =
      let gate = account_gate_probe u h t now found cooling until early due in
      let eq =
        begin_by_gate quota_blocks model_keys normalize_model_key circuit_key u scope now _ strict
          free gate in
      let (none_given, kept) =
        admit_refused (record u { health = some (probing_health h now) }) scope now true shut in
      let none_given' = ap (λ (r : Upstream × Option Admission). r.1) eq ∙ none_given in
      let kept' = ap (λ (r : Upstream × Option Admission). r.0.health) eq ∙ kept in
      (
        none_given',
        kept',
        begin_refused quota_blocks model_keys normalize_model_key circuit_key (begin u scope now).0
            other later strict'
            (account_gate_shut (begin u scope now).0 (probing_health h now) t later kept' cooling
              until early' (probe_due_in_flight h now later)),
      )
