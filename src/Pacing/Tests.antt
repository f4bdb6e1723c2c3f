-- ===== src/Pacing/Tests.antt =====
-- A queue that is paced, and the theorems at inputs that meet their hypotheses.
use codex_pooler.Prelude.{ℕ, ◌+◌, ◌≡◌, refl, String, true, false, some, [], ◌∷◌}
use codex_pooler.Prelude.Table.{lookup, insert}
use codex_pooler.Prelude.Sorting.{sort, insert_sorted}
use codex_pooler.Pacing.{
  Policy, PacerState, started, failed, queue_expired, wake_at, is_again, eligible_at, expire,
  first_ready, earliest, drop_entry, prune_model_starts, schedule, drain, drain_all,
}
use codex_pooler.Pacing.Normalizing.{absent, number, PolicyInput}
use codex_pooler.Pacing.Operations.{acquire_state}
use codex_pooler.Pacing.Schedule.{places, answers, drain_all-answers}
use codex_pooler.Pacing.Waiting.{IsSpaced, start_times, start_times-IsSpaced}
use codex_pooler.Pacing.Acquire.{IsAnswered, acquire_state-IsAnswered}

abbrev same : String → String
same s = s

abbrev policy : Policy
policy = record {
  enabled = true;
  min_start_interval_ms = 1000;
  model_intervals = ("slow", 5000) ∷ [];
  max_queue_depth = 3;
  max_queue_age_ms = 30000;
}

abbrev crowd : PacerState
crowd = record {
  queue =
      record { sequence = 1; model = "slow"; enqueued_at = 10000 }
      ∷ record { sequence = 2; model = "fast"; enqueued_at = 39000 }
      ∷ record { sequence = 3; model = "slow"; enqueued_at = 39500 }
      ∷ [];
  last_start_at = some 39000;
  model_starts = ("slow", 39000) ∷ [];
}

pacing : Unit {0}
unfolding drain schedule expire first_ready earliest drop_entry prune_model_starts eligible_at sort
    insert_sorted lookup insert
pacing = tt

-- At 40 s the first entry has expired, the second starts, and the third waits for its model.
one_expires_one_starts :
    let s = drain_all same crowd policy 40000 in
    (s.events ≡ failed 1 queue_expired 4 ∷ started 2 1000 ∷ []) × (s.wake ≡ wake_at 44000)
unfolding pacing
one_expires_one_starts = (refl, refl)

drain_all-answers_example :
    let s = drain_all same crowd policy 40000 in
    (is_again s.wake ≡ false)
    × ((k : ℕ) → places k s.state.queue + answers k s.events ≡ places k crowd.queue)
drain_all-answers_example = drain_all-answers same crowd policy 40000

start_times-IsSpaced_example : IsSpaced (some 39000) policy (
    start_times same crowd policy
      ((40000, crowd.queue) ∷ (40001, crowd.queue) ∷ (45000, crowd.queue) ∷ []))
start_times-IsSpaced_example =
    start_times-IsSpaced same crowd policy
      ((40000, crowd.queue) ∷ (40001, crowd.queue) ∷ (45000, crowd.queue) ∷ [])

acquire_state-IsAnswered_example :
    IsAnswered crowd policy 40000 (acquire_state same 4 crowd policy "fast" 40000 true)
acquire_state-IsAnswered_example = acquire_state-IsAnswered same 4 crowd policy "fast" 40000 true

abbrev input : PolicyInput
input = record {
  enabled = some true;
  min_start_interval_ms = number 1000;
  model_intervals = ("slow", number 5000) ∷ [];
  max_queue_depth = number 3;
  max_queue_age_ms = absent;
}
