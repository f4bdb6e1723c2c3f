-- ===== src/Accounts/Gate.antt =====
-- Whom the account's health lets through.
use codex_pooler.Prelude.{
  ℕ, ◌<◌, ◌≡◌, String, Bool, true, false, not, Option, none, some, List, arith, is_some,
}
use codex_pooler.Accounts.{
  Upstream, AccountHealth, cooldown, reauth_required, Scope, Admission, probe_due,
  account_cooldown_blocks, probing_health, account_gate, admit, begin_upstream_attempt,
}

-- The routing plan and the dispatcher agree on a cooldown: the gate refuses an account that cools
-- down exactly when the plan counts it as blocked.
pub account_cooldown_blocks-account_gate :
    (u : Upstream) (h : AccountHealth) (now : ℕ)
    → u.health ≡ some h
    → h.status ≡ cooldown
    → is_some (account_gate u now).1 ≡ not (account_cooldown_blocks h now)
unfolding account_gate account_cooldown_blocks probe_due
account_cooldown_blocks-account_gate u h now found cooling =
    rw (found, account_gate, cooling) (ground arith)

-- While the cooldown runs and no probe is due, or one is out, the gate stays shut.
pub account_gate_shut :
    (u : Upstream) (h : AccountHealth) (t now : ℕ)
    → u.health ≡ some h
    → h.status ≡ cooldown
    → h.next_eligible_at ≡ some t
    → now < t
    → probe_due h now ≡ false
    → account_gate u now ≡ (u, none)
unfolding account_gate
account_gate_shut u h t now found cooling until early idle =
    rw (found, account_gate, cooling, until) (ground arith)

pub account_gate_probe :
    (u : Upstream) (h : AccountHealth) (t now : ℕ)
    → u.health ≡ some h
    → h.status ≡ cooldown
    → h.next_eligible_at ≡ some t
    → now < t
    → probe_due h now ≡ true
    → account_gate u now ≡ (record u { health = some (probing_health h now) }, some true)
unfolding account_gate
account_gate_probe u h t now found cooling until early due =
    rw (found, account_gate, cooling, until) (ground arith)

pub account_gate_rejected :
    (u : Upstream) (h : AccountHealth) (now : ℕ)
    → u.health ≡ some h
    → h.status ≡ reauth_required
    → account_gate u now ≡ (u, none)
unfolding account_gate
account_gate_rejected u h now found rejected = rw (found, account_gate) (ground arith)

module _ (quota_blocks : Upstream → ℕ → String → Bool)
    (model_keys : Upstream → String → List String) (normalize_model_key : String → String)
    (circuit_key : Scope → String) where
  abbrev begin : Upstream → Scope → ℕ → Upstream × Option Admission
  begin = begin_upstream_attempt quota_blocks model_keys normalize_model_key circuit_key

  -- An attempt that keeps to the cooldown goes through the gate as it stands.
  pub begin_by_gate :
      (u : Upstream) (scope : Scope) (now : ℕ) (r : Upstream × Option Bool)
      → scope.ignore_quota_cooldown ≡ false
      → quota_blocks u now scope.model ≡ false
      → account_gate u now ≡ r
      → begin u scope now
        ≡ admit quota_blocks model_keys normalize_model_key circuit_key r.0 scope now r.1
  unfolding begin_upstream_attempt
  begin_by_gate u scope now r strict free gate = ground arith

  pub begin_refused :
      (u : Upstream) (scope : Scope) (now : ℕ)
      → scope.ignore_quota_cooldown ≡ false
      → account_gate u now ≡ (u, none)
      → begin u scope now ≡ (u, none)
  unfolding begin_upstream_attempt admit
  begin_refused u scope now strict gate = ground arith

  -- An account that wants new credentials gets no attempt, whatever is ignored.
  pub begin_upstream_attempt_rejected :
      (u : Upstream) (h : AccountHealth) (scope : Scope) (now : ℕ)
      → u.health ≡ some h
      → h.status ≡ reauth_required
      → begin u scope now ≡ (u, none)
  unfolding begin_upstream_attempt admit
  begin_upstream_attempt_rejected u h scope now found rejected =
      ground (arith, account_gate_rejected u h now found rejected)
