-- ===== src/Routing/PaidCredits.antt =====
-- When a Codex account is used on paid credits.
use codex_pooler.Prelude.{
  ℕ, ◌≡◌, refl, sym, ap, ◌∙◌, inl, inr, String, Bool, true, false, not, ◌&&◌, ◌||◌, Option, none,
  some, arith, if◌then◌else◌, any, Bool-cases,
}
use codex_pooler.Outcomes.Status.{is_codex}
use codex_pooler.Routing.{
  Upstream, Capacity, Decision, Basis, no_capacity, included, windowless, provider_credits,
  is_fresh, is_exhausted, spend_exhausted, is_disallowed, has_balance, usable_credits,
  capacity_windows, decide_capacity, decide_evidence, codex_capacity_decision, is_nil,
}

abbrev is_paid : Basis → Bool
is_paid provider_credits = true
is_paid _ = false

-- What the use of paid credits takes.
pub record IsPaidFor (u : Upstream) (c : Capacity) (model : String) (now : ℕ) : Type 0 where
  pub opted_in : u.allow_provider_credits ≡ true
  pub fresh : is_fresh u c now ≡ true
  pub in_credit : has_balance c.credits ≡ true
  pub within_spend : spend_exhausted c.spend_control (is_fresh u c now) now ≡ false
  pub no_included :
      (any (is_exhausted (is_fresh u c now) now) (capacity_windows c model)
        || is_disallowed c.allowed)
      ≡ true

usable-parts :
    (u : Upstream) (c : Capacity) (fresh : Bool)
    → usable_credits u c fresh ≡ true
    → (fresh ≡ true) × (u.allow_provider_credits ≡ true) × (has_balance c.credits ≡ true)
usable-parts u c fresh h = ground arith

-- The decision by its tests: the spending control, what is included, whether there is an account
-- window, and whether credits may be used.
abbrev decision : Bool → Bool → Bool → Bool → Bool → Decision
decision spend ok windowless_only usable fresh =
    if spend
    then record { eligible = false; basis = no_capacity; fresh = fresh }
    else if ok
    then record {
      eligible = true;
      basis = if windowless_only then windowless else included;
      fresh = fresh;
    }
    else record {
      eligible = usable;
      basis = if usable then provider_credits else no_capacity;
      fresh = fresh;
    }

decision_paid :
    (spend ok windowless_only usable fresh : Bool)
    → is_paid (decision spend ok windowless_only usable fresh).basis ≡ true
    → (spend ≡ false)
      × (ok ≡ false)
      × (usable ≡ true)
      × ((decision spend ok windowless_only usable fresh).eligible ≡ true)
decision_paid true ok w usable fresh h = cc
decision_paid false true true usable fresh h = cc
decision_paid false true false usable fresh h = cc
decision_paid false false w true fresh h = (refl, refl, refl, refl)
decision_paid false false w false fresh h = cc

not_ok-reason :
    (exhausted fresh disallowed : Bool)
    → (not exhausted && not (fresh && disallowed)) ≡ false
    → (exhausted || disallowed) ≡ true
not_ok-reason exhausted fresh disallowed h = ground arith

decide_capacity_paid :
    (u : Upstream) (c : Capacity) (model : String) (now : ℕ)
    → is_paid (decide_capacity u c model now (is_fresh u c now)).basis ≡ true
    → IsPaidFor u c model now × ((decide_capacity u c model now (is_fresh u c now)).eligible ≡ true)
decide_capacity_paid u c model now h =
    let fresh = is_fresh u c now in
    let exhausted = any (is_exhausted fresh now) (capacity_windows c model) in
    let (within, not_ok, usable, eligible) =
      decision_paid (spend_exhausted c.spend_control fresh now)
        (not exhausted && not (fresh && is_disallowed c.allowed)) (is_nil c.windows)
        (usable_credits u c fresh) fresh h in
    let (is_recent, opted, balance) = usable-parts u c fresh usable in
    (
      record {
        opted_in = opted;
        fresh = is_recent;
        in_credit = balance;
        within_spend = within;
        no_included = not_ok-reason exhausted fresh (is_disallowed c.allowed) not_ok;
      },
      eligible,
    )

evidence_paid :
    (u : Upstream) (capacity : Option Capacity) (model : String) (now : ℕ) (d : Decision)
    → decide_evidence u capacity model now ≡ some d
    → is_paid d.basis ≡ true
    → (c : Capacity) × (capacity ≡ some c) × IsPaidFor u c model now × (d.eligible ≡ true)
evidence_paid u none model now d e h = cc
evidence_paid u (some c) model now d e h =
    let same : decide_capacity u c model now (is_fresh u c now) ≡ d = cc in
    let (paid, eligible) =
      decide_capacity_paid u c model now (ap (λ x. is_paid x.basis) same ∙ h) in
    (c, refl, paid, ap (λ x. x.eligible) (sym same) ∙ eligible)

-- Paid credits are used only for an account that allows it, on fresh evidence of a balance, within its
-- spending control, and when a window of the account or of the model is exhausted or the account is
-- not allowed otherwise; and then the account is eligible.
pub codex_capacity_decision-IsPaidFor :
    (u : Upstream) (model : String) (now : ℕ) (d : Decision)
    → codex_capacity_decision u model now ≡ some d
    → is_paid d.basis ≡ true
    → (c : Capacity) × (u.quota.capacity ≡ some c) × IsPaidFor u c model now × (d.eligible ≡ true)
unfolding codex_capacity_decision
codex_capacity_decision-IsPaidFor u model now d e h =
    elim (Bool-cases (is_codex u.account.upstream_type)) [
      | inl k ↦ evidence_paid u u.quota.capacity model now d (rw k at e) h
      | inr k ↦ cc (rw k at e)
    ]
