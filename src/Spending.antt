-- ===== src/Spending.antt =====
-- node/src/domain.js: the spending cap of an upstream account and the settlement of usage against it.
-- Money is in millionths of a dollar, caps in credits of 40000; `spentCredits` is always
-- `spentCostMicros / 40000`, so it is no field here. Dates are milliseconds.
pub mod Ledger
pub mod Eligibility
mod Tests
use codex_pooler.Prelude.{
  ℕ, ◌+◌, ◌-◌, ◌*◌, ◌≤◌, String, Bool, true, false, not, ◌&&◌, ◌||◌, Option, none, some, List, [],
  ◌∷◌, ◌++◌, leb, ltb, ◌==◌, if◌then◌else◌, any, str_eq, is_some,
}
use codex_pooler.Prelude.Table.{Table, lookup, insert, evict}

pub data CostSource : Type 0 where
  upstream_reported pricing_snapshot : CostSource

pub record Settlement : Type 0 where
  pub settled_cost_micros : ℕ
  pub started_at : ℕ
  pub cost_source : CostSource

pub record Spending : Type 0 where
  pub cap_credits : ℕ
  pub spent_cost_micros : ℕ
  pub cap_started_at : Option ℕ
  pub last_activity_at : Option ℕ
  pub settlements : Table Settlement

abbrev pub micros_per_credit : ℕ
micros_per_credit = 40000

abbrev pub settlement_limit : ℕ
settlement_limit = 100

abbrev pub max_safe_integer : ℕ
max_safe_integer = 9007199254740991

-- What a caller hands in: absent where the text is neither of the two sources, the number is no
-- integer from 0 on or the date cannot be read.
pub record UsageInput : Type 0 where
  pub attempt_id : String
  pub cost_source : Option CostSource
  pub settled_cost_micros : Option ℕ
  pub started_at : Option ℕ

pub data UsageError : Type 0 where
  no_attempt_id bad_cost_source bad_cost cost_too_large bad_date : UsageError

-- `deltaMicros` is `settled_cost_micros - previous_cost_micros`, and it is applied where `counted`.
pub record Receipt : Type 0 where
  pub attempt_id : String
  pub settled_cost_micros : ℕ
  pub previous_cost_micros : ℕ
  pub counted : Bool

pub data UsageResult : Type 0 where
  refused : UsageError → UsageResult
  recorded : Spending → Receipt → UsageResult

abbrev pub set_spending_cap : ℕ → ℕ → Spending
set_spending_cap cap now = record {
  cap_credits = cap;
  spent_cost_micros = 0;
  cap_started_at = if ltb 0 cap then some now else none;
  last_activity_at = none;
  settlements = [];
}

abbrev pub since : Option ℕ → ℕ → Bool
since none t = false
since (some c) t = leb c t

-- Usage that started at `t` counts against the cap.
abbrev pub is_counted : Spending → ℕ → Bool
is_counted sp t = ltb 0 sp.cap_credits && since sp.cap_started_at t

abbrev pub previous_cost : Option Settlement → ℕ
previous_cost none = 0
previous_cost (some s) = s.settled_cost_micros

-- An attempt that is settled again keeps the time of its first settlement.
abbrev pub effective_start : Option Settlement → ℕ → ℕ
effective_start none t = t
effective_start (some s) t = s.started_at

abbrev pub started_before : String × Settlement → String × Settlement → Bool
started_before a b = leb a.1.started_at b.1.started_at

unfoldable pub prune_settlements : Table Settlement → Table Settlement
prune_settlements m = evict (λ e. e.0) started_before settlement_limit m

-- `Math.max(0, currentMicros + deltaMicros)`. For an amount beyond the safe integers the source takes
-- `spentCredits` times 40000 instead, the same number here, where nothing is lost by rounding.
abbrev pub settled_total : ℕ → ℕ → ℕ → ℕ
settled_total current cost previous = current + cost - previous

abbrev pub settlement_of : ℕ → ℕ → CostSource → Settlement
settlement_of cost t source = record {
  settled_cost_micros = cost;
  started_at = t;
  cost_source = source;
}

unfoldable pub settle_usage : Spending → String → CostSource → ℕ → ℕ → Spending × Receipt
unfolding prune_settlements
settle_usage sp id source cost started =
    let previous = lookup id sp.settlements in
    let start = effective_start previous started in
    let before = previous_cost previous in
    let counted = is_counted sp start in
    (
      record {
        cap_credits = sp.cap_credits;
        spent_cost_micros =
            if counted
            then settled_total sp.spent_cost_micros cost before
            else sp.spent_cost_micros;
        cap_started_at = sp.cap_started_at;
        last_activity_at = some start;
        settlements =
            prune_settlements (insert id (settlement_of cost start source) sp.settlements);
      },
      record {
        attempt_id = id;
        settled_cost_micros = cost;
        previous_cost_micros = before;
        counted = counted;
      },
    )

abbrev pub finish_usage : Spending × Receipt → UsageResult
finish_usage (sp, r) = recorded sp r

abbrev with_date : Spending → String → CostSource → ℕ → Option ℕ → UsageResult
with_date sp id source cost none = refused bad_date
with_date sp id source cost (some t) = finish_usage (settle_usage sp id source cost t)

abbrev with_cost : Spending → String → CostSource → Option ℕ → Option ℕ → UsageResult
with_cost sp id source none date = refused bad_cost
with_cost sp id source (some cost) date =
    if ltb max_safe_integer cost then refused cost_too_large else with_date sp id source cost date

abbrev with_source : Spending → UsageInput → Option CostSource → UsageResult
with_source sp input none = refused bad_cost_source
with_source sp input (some source) =
    with_cost sp input.attempt_id source input.settled_cost_micros input.started_at

unfoldable pub record_usage : Spending → UsageInput → UsageResult
unfolding settle_usage
record_usage sp input =
    if str_eq input.attempt_id ""
    then refused no_attempt_id
    else with_source sp input input.cost_source

-- The two statuses of `spendingSummary`.
pub data RoutingStatus : Type 0 where
  not_set normal reached : RoutingStatus

pub data ContinuationStatus : Type 0 where
  cap_unset allowed cap_reached : ContinuationStatus

unfoldable pub routing_status : Spending → RoutingStatus
routing_status sp =
    if leb sp.cap_credits 0
    then not_set
    else if leb (sp.cap_credits * micros_per_credit) sp.spent_cost_micros
    then reached
    else normal

-- `spentCredits < capCredits * 1.25`.
abbrev pub within_margin : Spending → Bool
within_margin sp = ltb (sp.spent_cost_micros * 4) (sp.cap_credits * 5 * micros_per_credit)

unfoldable pub continuation_status : Spending → ContinuationStatus
continuation_status sp =
    if leb sp.cap_credits 0 then cap_unset else if within_margin sp then allowed else cap_reached

pub data Exclusion : Type 0 where
  spend_cap_unset spend_cap_reached : Exclusion

-- `spendingEligibility`: the reason that excludes an account, if there is one.
unfoldable pub spending_eligibility : Spending → Bool → Option Exclusion
spending_eligibility sp continuation =
    if leb sp.cap_credits 0
    then some spend_cap_unset
    else if continuation && within_margin sp
    then none
    else if leb (sp.cap_credits * micros_per_credit) sp.spent_cost_micros
    then some spend_cap_reached
    else none

-- An upstream as `filterSpendCapEligible` sees it; `is_ais` is `isAisUpstream` of it.
pub record Candidate : Type 0 where
  pub id : String
  pub is_ais : Bool
  pub spending : Spending

pub record Options : Type 0 where
  pub continuation_id : Option String
  pub allow_unknown_quota : Bool
  pub ignore_spending_cap : Bool

pub data FilterError : Type 0 where
  pinned_continuation_spend_cap_reached no_eligible_backend : FilterError

pub record Filtered : Type 0 where
  pub eligible : List Candidate
  pub exclusions : List (String × Exclusion)
  pub error : Option FilterError

abbrev pub is_id : Option String → String → Bool
is_id none id = false
is_id (some c) id = str_eq id c

abbrev pub exclusion_of : Options → Candidate → Option Exclusion
exclusion_of o u =
    if o.ignore_spending_cap || (o.allow_unknown_quota && u.is_ais)
    then none
    else spending_eligibility u.spending (is_id o.continuation_id u.id)

abbrev pub add_candidate :
    Candidate
    → Option Exclusion
    → List Candidate × List (String × Exclusion)
    → List Candidate × List (String × Exclusion)
add_candidate u none (chosen, excluded) = (u ∷ chosen, excluded)
add_candidate u (some x) (chosen, excluded) = (chosen, (u.id, x) ∷ excluded)

unfoldable pub split_candidates :
    Options → List Candidate → List Candidate × List (String × Exclusion)
split_candidates o [] = ([], [])
split_candidates o (u ∷ us) = add_candidate u (exclusion_of o u) (split_candidates o us)

abbrev pub is_cap_reached : Exclusion → Bool
is_cap_reached spend_cap_reached = true
is_cap_reached spend_cap_unset = false

abbrev pub is_pinned_exclusion : Options → String × Exclusion → Bool
is_pinned_exclusion o e = is_id o.continuation_id e.0 && is_cap_reached e.1

abbrev pub is_empty {ℓ} : {A : Type ℓ} → List A → Bool
is_empty [] = true
is_empty (_ ∷ _) = false

unfoldable pub filter_spend_cap_eligible : List Candidate → Options → Filtered
unfolding split_candidates
filter_spend_cap_eligible us o =
    let (chosen, excluded) = split_candidates o us in
    if any (is_pinned_exclusion o) excluded
    then record {
      eligible = [];
      exclusions = excluded;
      error = some pinned_continuation_spend_cap_reached;
    }
    else if is_empty chosen
    then record { eligible = []; exclusions = excluded; error = some no_eligible_backend }
    else record { eligible = chosen; exclusions = excluded; error = none }
