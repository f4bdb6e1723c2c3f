-- ===== src/Routing.antt =====
-- node/src/store.js: the routing plan, `candidatePlanDetails`, over the upstream accounts. This file:
-- what the plan reads of an account, with the capacity of Codex accounts, `codexCapacityDecision` of
-- node/src/provider-credits.js. Percentages are in hundredths; a priority is a natural number.
pub mod PaidCredits
pub mod Ordering
pub mod Permuting
pub mod Tiers
pub mod Exclusions
pub mod Plan
pub mod Coverage
pub mod Eligibility
pub mod Complete
pub mod Affinity
pub mod Sound
mod Tests
use codex_pooler.Prelude.{
  ℕ, ◌+◌, ◌*◌, ◌≤◌, String, Bool, true, false, not, ◌&&◌, ◌||◌, Option, none, some, List, [], ◌∷◌,
  ◌++◌, leb, ltb, ◌==◌, if◌then◌else◌, any, keep, str_eq, is_some, or_else, min,
}
use codex_pooler.Spending.{Spending}
use codex_pooler.Outcomes.Status.{is_codex}
use codex_pooler.Accounts as Accounts

-- A date that may be missing or unreadable.
pub data ResetAt : Type 0 where
  no_reset unreadable : ResetAt
  resets_at : ℕ → ResetAt

pub record Window : Type 0 where
  pub remaining_percent : ℕ
  pub reset_at : ResetAt
  pub model : Option String

pub record Credits : Type 0 where
  pub has_credits : Bool
  pub unlimited : Bool
  pub balance : Option ℕ

pub record Capacity : Type 0 where
  pub credential_epoch : Option ℕ
  pub allowed : Option Bool
  pub windows : List Window
  pub model_windows : List Window
  pub spend_control : Option Window
  pub credits : Option Credits

-- A percentage is absent where the source reads no finite number.
pub record Quota : Type 0 where
  pub remaining_percent : Option ℕ
  pub observed_at : Option ℕ
  pub reset_at : Option ℕ
  pub is_project : Bool
  pub capacity : Option Capacity

pub data RefreshStatus : Type 0 where
  refresh_ok refresh_failed refresh_reauth : RefreshStatus

pub record TokenRefresh : Type 0 where
  pub status : RefreshStatus
  pub scheduled : Bool

pub record Features : Type 0 where
  pub responses : Bool
  pub streaming : Bool
  pub tools : Bool
  pub image_input : Bool
  pub reasoning : Bool

pub record RoutingRules : Type 0 where
  pub models : List String
  pub features : Features
  pub service_tiers : List String

-- `is_ais` is `isAisUpstream` of the account.
pub record Upstream : Type 0 where
  pub account : Accounts.Upstream
  pub scope_id : String
  pub is_ais : Bool
  pub priority : Option ℕ
  pub quota : Quota
  pub credential_epoch : Option ℕ
  pub allow_provider_credits : Bool
  pub spending : Spending
  pub routing : RoutingRules
  pub token_refresh : TokenRefresh
  pub access_token_expires_at : Option ℕ
  pub model_catalog_epoch : ℕ

pub data Basis : Type 0 where
  no_capacity included windowless provider_credits : Basis

pub record Decision : Type 0 where
  pub eligible : Bool
  pub basis : Basis
  pub fresh : Bool

abbrev pub freshness_ms : ℕ
freshness_ms = 5 * 60000

abbrev pub same_number : Option ℕ → Option ℕ → Bool
same_number none none = true
same_number none (some _) = false
same_number (some _) none = false
same_number (some a) (some b) = a == b

abbrev pub is_recent : Option ℕ → ℕ → Bool
is_recent none now = false
is_recent (some t) now = leb t now && ltb now (t + freshness_ms)

abbrev pub is_fresh : Upstream → Capacity → ℕ → Bool
is_fresh u c now =
    same_number c.credential_epoch u.credential_epoch && is_recent u.quota.observed_at now

abbrev pub still_blocks : ResetAt → Bool → ℕ → Bool
still_blocks no_reset fresh now = fresh
still_blocks unreadable fresh now = false
still_blocks (resets_at t) fresh now = ltb now t

abbrev pub is_exhausted : Bool → ℕ → Window → Bool
is_exhausted fresh now w = w.remaining_percent == 0 && still_blocks w.reset_at fresh now

abbrev pub is_model_window : String → Window → Bool
is_model_window model w = elim w.model [ none ↦ false | some m ↦ str_eq m model ]

abbrev pub spend_exhausted : Option Window → Bool → ℕ → Bool
spend_exhausted none fresh now = false
spend_exhausted (some w) fresh now = is_exhausted fresh now w

abbrev pub is_disallowed : Option Bool → Bool
is_disallowed none = false
is_disallowed (some b) = not b

abbrev pub has_balance : Option Credits → Bool
has_balance none = false
has_balance (some c) = c.has_credits && (c.unlimited || ltb 0 (or_else c.balance 0))

abbrev pub is_nil {ℓ} : {A : Type ℓ} → List A → Bool
is_nil [] = true
is_nil (_ ∷ _) = false

abbrev pub usable_credits : Upstream → Capacity → Bool → Bool
usable_credits u c fresh = fresh && u.allow_provider_credits && has_balance c.credits

abbrev pub capacity_windows : Capacity → String → List Window
capacity_windows c model = c.windows ++ keep (is_model_window model) c.model_windows

abbrev pub decide_capacity : Upstream → Capacity → String → ℕ → Bool → Decision
decide_capacity u c model now fresh =
    if spend_exhausted c.spend_control fresh now
    then record { eligible = false; basis = no_capacity; fresh = fresh }
    else if not (any (is_exhausted fresh now) (capacity_windows c model))
        && not (fresh && is_disallowed c.allowed)
    then record {
      eligible = true;
      basis = if is_nil c.windows then windowless else included;
      fresh = fresh;
    }
    else record {
      eligible = usable_credits u c fresh;
      basis = if usable_credits u c fresh then provider_credits else no_capacity;
      fresh = fresh;
    }

abbrev pub decide_evidence : Upstream → Option Capacity → String → ℕ → Option Decision
decide_evidence u none model now = none
decide_evidence u (some c) model now = some (decide_capacity u c model now (is_fresh u c now))

unfoldable pub codex_capacity_decision : Upstream → String → ℕ → Option Decision
codex_capacity_decision u model now =
    if is_codex u.account.upstream_type then decide_evidence u u.quota.capacity model now else none

abbrev pub basis_tier : Basis → ℕ
basis_tier windowless = 1
basis_tier provider_credits = 2
basis_tier included = 0
basis_tier no_capacity = 0

abbrev pub decision_tier : Option Decision → ℕ
decision_tier none = 0
decision_tier (some d) = basis_tier d.basis

pub capacity_tier : Upstream → ℕ → String → ℕ
capacity_tier u now model = decision_tier (codex_capacity_decision u model now)

-- `quotaOrderingMetadata`.
pub data QuotaView : Type 0 where
  quota_unknown : QuotaView
  quota_stale quota_known : ℕ → QuotaView

abbrev pub full_percent : ℕ
full_percent = 10000

abbrev pub is_stale : Option ℕ → ℕ → Bool
is_stale none now = true
is_stale (some t) now = leb (t + freshness_ms) now

abbrev pub view_percent : Option ℕ → Option ℕ → ℕ → QuotaView
view_percent none observed now = quota_unknown
view_percent (some p) observed now =
    if is_stale observed now
    then quota_stale (min full_percent p)
    else quota_known (min full_percent p)

abbrev pub quota_ordering_metadata : Upstream → ℕ → QuotaView
quota_ordering_metadata u now = view_percent u.quota.remaining_percent u.quota.observed_at now

abbrev pub viewed_percent : QuotaView → Option ℕ
viewed_percent quota_unknown = none
viewed_percent (quota_stale p) = some p
viewed_percent (quota_known p) = some p

abbrev pub is_zero : Option ℕ → Bool
is_zero none = false
is_zero (some p) = p == 0

abbrev pub unreset_blocks : Upstream → ℕ → Option ℕ → Bool
unreset_blocks u now none =
    u.quota.is_project
    || not (is_some u.quota.observed_at)
    || not (is_stale u.quota.observed_at now)
unreset_blocks u now (some t) = ltb now t

abbrev pub blocks_by_quota : Upstream → ℕ → Option Decision → Bool
blocks_by_quota u now (some d) = not d.eligible
blocks_by_quota u now none =
    is_zero (viewed_percent (quota_ordering_metadata u now))
    && unreset_blocks u now u.quota.reset_at

pub quota_blocks_routing : Upstream → ℕ → String → Bool
quota_blocks_routing u now model =
    if u.is_ais then false else blocks_by_quota u now (codex_capacity_decision u model now)
