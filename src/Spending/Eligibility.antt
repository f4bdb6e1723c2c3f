-- ===== src/Spending/Eligibility.antt =====
-- Whom the spending caps exclude.
use codex_pooler.Prelude.{
  ◌||◌, ◌*◌, ltb, Option, ◌+◌, ◌≡◌, Bool, String, All, ◌&&◌, if◌then◌else◌, true, false, not, none,
  some, List, [], arith, length, keep, any, In, is_some,
}
use codex_pooler.Spending.{
  micros_per_credit, within_margin, Spending, RoutingStatus, normal, ContinuationStatus, allowed,
  routing_status, continuation_status, spending_eligibility, Exclusion, Candidate, Options,
  Filtered, pinned_continuation_spend_cap_reached, exclusion_of, is_empty, is_id, is_cap_reached,
  no_eligible_backend,
}

abbrev pub is_normal : RoutingStatus → Bool
is_normal normal = true
is_normal _ = false

abbrev pub is_allowed : ContinuationStatus → Bool
is_allowed allowed = true
is_allowed _ = false

-- The summary tells what routing does: an account takes new work exactly when its routing status is
-- normal, and goes on with work it is pinned to exactly when its continuation status allows it.
-- Whoever may take new work may also go on.
pub spending_eligibility-spending_summary :
    (sp : Spending)
    → (is_some (spending_eligibility sp false) ≡ not (is_normal (routing_status sp)))
      × (is_some (spending_eligibility sp true) ≡ not (is_allowed (continuation_status sp)))
      × (spending_eligibility sp false ≡ none → spending_eligibility sp true ≡ none)
unfolding spending_eligibility routing_status continuation_status
spending_eligibility-spending_summary sp = (ground arith, ground arith, ground arith)

-- Who may spend: anyone while caps are ignored, an AIS account while unknown quotas are allowed, and
-- an account with a cap that is not reached, or is within its margin for the conversation pinned to it.
abbrev pub may_spend : Options → Candidate → Bool
may_spend o u =
    let cap = u.spending.cap_credits in
    o.ignore_spending_cap
    || (o.allow_unknown_quota && u.is_ais)
    || (ltb 0 cap
        && (ltb u.spending.spent_cost_micros (cap * micros_per_credit)
            || (is_id o.continuation_id u.id && within_margin u.spending)))

abbrev is_reached : Option Exclusion → Bool
is_reached none = false
is_reached (some x) = is_cap_reached x

-- An account that a conversation is pinned to, with a cap and beyond its margin.
abbrev pub is_pinned_capped : Options → Candidate → Bool
is_pinned_capped o u =
    is_id o.continuation_id u.id && (not (may_spend o u) && ltb 0 u.spending.cap_credits)

-- A report names an account among the candidates with the reason that excludes it.
abbrev pub IsReported : List Candidate → Options → String × Exclusion → Type 0
IsReported us o e = (u : Candidate) × In u us × (u.id ≡ e.0) × (exclusion_of o u ≡ some e.1)

-- What is asked of an answer of the filter: the error it must have, the accounts it must give, and
-- that what it reports are accounts with their reasons, every one that has any.
abbrev pub IsFiltered : List Candidate → Options → Filtered → Type 0
IsFiltered us o r =
    (r.error ≡ (
      if any (is_pinned_capped o) us
      then some pinned_continuation_spend_cap_reached
      else if is_empty (keep (may_spend o) us)
      then some no_eligible_backend
      else none))
    × (r.eligible ≡ (if any (is_pinned_capped o) us then [] else keep (may_spend o) us))
    × All (λ (e : String × Exclusion). IsReported us o e) r.exclusions
    × ((u : Candidate)
        → In u us
        → (x : Exclusion) → exclusion_of o u ≡ some x
        → In (u.id, x) r.exclusions)
    × (length (keep (may_spend o) us) + length r.exclusions ≡ length us)
