-- ===== src/Accounts/Sessions.antt =====
-- The session pins that a settlement leaves.
use codex_pooler.Prelude.{ℕ, ◌≡◌, String, Bool, true, not, List, All}
use codex_pooler.Prelude.Table.{Table}
use codex_pooler.Accounts.{
  Upstream, Scope, Admission, Outcome, Session, settle_upstream_attempt, is_pinned_to,
}

abbrev pub NotPinned : String → Table Session → Type 0
NotPinned id sessions = All (λ (e : String × Session). not (is_pinned_to id e.1) ≡ true) sessions

module _ (quota_blocks : Upstream → ℕ → String → Bool)
    (model_keys : Upstream → String → List String) (normalize_model_key : String → String)
    (circuit_key : Scope → String) where
  abbrev settle : Upstream → Table Session → Admission → Outcome → ℕ → Upstream × Table Session
  settle = settle_upstream_attempt quota_blocks model_keys normalize_model_key circuit_key
