-- ===== src/Spending/Tests.antt =====
-- A small ledger, and the theorems at inputs that meet their hypotheses.
use codex_pooler.Prelude.{◌≡◌, refl, true, false, none, some, List, [], ◌∷◌, arith, length}
use codex_pooler.Prelude.Table.{lookup}
use codex_pooler.Spending.{
  Spending, pricing_snapshot, upstream_reported, settle_usage, record_usage, refused, bad_date,
  set_spending_cap, spending_eligibility, Candidate, Options, filter_spend_cap_eligible,
  split_candidates, settlement_of,
}
use codex_pooler.Spending.Ledger.{IsBacked, settle_usage-IsBacked, settle_usage_corrects}

abbrev ledger : Spending
ledger = record {
  cap_credits = 10;
  spent_cost_micros = 90000;
  cap_started_at = some 1000;
  last_activity_at = some 3000;
  settlements =
      ("early", settlement_of 7000 900 pricing_snapshot)
      ∷ ("late", settlement_of 50000 3000 upstream_reported)
      ∷ [];
}

ledger-IsBacked : IsBacked ledger
ledger-IsBacked = omega arith

-- A correction of a settlement that counts lowers what is spent, a settlement from before the cap
-- does not count, and a date that cannot be read is refused.
settlements_count :
    ((settle_usage ledger "late" upstream_reported 20000 9000).0.spent_cost_micros ≡ 60000)
    × ((settle_usage ledger "early" upstream_reported 20000 9000).0.spent_cost_micros ≡ 90000)
    × (record_usage ledger (record {
      attempt_id = "x";
      cost_source = some pricing_snapshot;
      settled_cost_micros = some 1;
      started_at = none;
    })
        ≡ refused bad_date)
unfolding settle_usage record_usage lookup
settlements_count = (refl, refl, refl)

settle_usage-IsBacked_example : IsBacked (settle_usage ledger "late" upstream_reported 20000 9000).0
settle_usage-IsBacked_example =
    settle_usage-IsBacked ledger "late" upstream_reported 20000 9000 ledger-IsBacked

settle_usage_corrects_example :
    (settle_usage
      (settle_usage ledger "new" pricing_snapshot 500 4000).0
      "new"
      upstream_reported
      800
      5000).0.spent_cost_micros
    ≡ (settle_usage ledger "new" pricing_snapshot 800 4000).0.spent_cost_micros
settle_usage_corrects_example =
    settle_usage_corrects ledger "new" pricing_snapshot upstream_reported 500 800 4000 5000
      ledger-IsBacked (omega arith)

abbrev candidates : List Candidate
candidates =
    record { id = "a"; is_ais = false; spending = record ledger { spent_cost_micros = 420000 } }
    ∷ record { id = "b"; is_ais = false; spending = ledger }
    ∷ record { id = "c"; is_ais = true; spending = set_spending_cap 0 0 }
    ∷ []

abbrev options : Options
options = record { continuation_id = none; allow_unknown_quota = true; ignore_spending_cap = false }

two_may_spend : length (filter_spend_cap_eligible candidates options).eligible ≡ 2
unfolding filter_spend_cap_eligible split_candidates spending_eligibility
two_may_spend = refl
