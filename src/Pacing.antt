-- ===== src/Pacing.antt =====
-- node/src/upstream-pacer.js: requests to one upstream start no closer together than its policy
-- wants, and wait in a queue meanwhile. A promise that is answered is an event here. Times are
-- milliseconds; the timer of a state is the time at which `schedule` runs again.
pub mod Normalizing
pub mod Operations
pub mod Schedule
pub mod Waiting
pub mod Acquire
mod Tests
use codex_pooler.Prelude.{
  ℕ, suc, zero, ◌+◌, ◌-◌, ◌*◌, ◌/◌, ◌≤◌, max, min, String, Bool, true, false, not, ◌&&◌, ◌||◌,
  Option, none, some, List, [], ◌∷◌, ◌++◌, map, leb, ltb, ◌==◌, if◌then◌else◌, any, keep, or_else,
  str_eq, is_some, length,
}
use codex_pooler.Prelude.Table.{Table, lookup, insert, remove}
use codex_pooler.Prelude.Sorting.{sort}

pub record Policy : Type 0 where
  pub enabled : Bool
  pub min_start_interval_ms : ℕ
  pub model_intervals : Table ℕ
  pub max_queue_depth : ℕ
  pub max_queue_age_ms : ℕ

pub record Entry : Type 0 where
  pub sequence : ℕ
  pub model : String
  pub enqueued_at : ℕ

pub record PacerState : Type 0 where
  pub queue : List Entry
  pub last_start_at : Option ℕ
  pub model_starts : Table ℕ

pub data PacingCode : Type 0 where
  aborted queue_full queue_expired account_removed would_wait : PacingCode

-- The answer to the entry with a sequence number: it has started after a wait, or it has failed.
pub data PacerEvent : Type 0 where
  started : ℕ → ℕ → PacerEvent
  failed : ℕ → PacingCode → ℕ → PacerEvent

-- How `schedule` goes on: not at all, at once in a microtask, or by the timer.
pub data Wake : Type 0 where
  idle again : Wake
  wake_at : ℕ → Wake

pub record Step : Type 0 where
  pub state : PacerState
  pub events : List PacerEvent
  pub wake : Wake

abbrev pub new_state : PacerState
new_state = record { queue = []; last_start_at = none; model_starts = [] }

abbrev pub model_interval : Policy → String → ℕ
model_interval p model = or_else (lookup model p.model_intervals) 0

-- `Math.max(1, Math.ceil(Math.max(0, at - now) / 1000))`.
abbrev pub retry_after_seconds : ℕ → ℕ → ℕ
retry_after_seconds at now = max 1 ((at - now + 999) / 1000)

abbrev plus : Option ℕ → ℕ → ℕ
plus none d = 0
plus (some t) d = t + d

abbrev pub deadline : Policy → Entry → ℕ
deadline p e = e.enqueued_at + p.max_queue_age_ms

-- `Math.min` over the entries of a queue that is not empty.
abbrev pub earlier : ℕ → Option ℕ → ℕ
earlier t none = t
earlier t (some s) = min t s

unfoldable pub earliest : (Entry → ℕ) → List Entry → Option ℕ
earliest f [] = none
earliest f (e ∷ es) = some (earlier (f e) (earliest f es))

-- `removeEntry`: entries are told apart by their sequence numbers.
unfoldable pub drop_entry : ℕ → List Entry → List Entry
drop_entry n [] = []
drop_entry n (e ∷ es) = if e.sequence == n then es else e ∷ drop_entry n es

abbrev pub head_of {ℓ} : {A : Type ℓ} → List A → Option A
head_of [] = none
head_of (x ∷ _) = some x

unfoldable pub prune_model_starts : Policy → Table ℕ → Table ℕ
prune_model_starts p m = keep (λ e. ltb 0 (model_interval p e.0)) m

abbrev pub note_model_start : Policy → String → ℕ → Table ℕ → Table ℕ
note_model_start p model now m = if ltb 0 (model_interval p model) then insert model now m else m

abbrev pub is_expired : Policy → ℕ → Entry → Bool
is_expired p now e = leb (deadline p e) now

abbrev pub to_wake : ℕ → Option ℕ → Wake
to_wake now none = idle
to_wake now (some t) = wake_at (max now t)

abbrev pub start_entry : PacerState → Policy → ℕ → List Entry → List PacerEvent → Entry → Step
start_entry st p now kept gone e = record {
  state = record {
    queue = drop_entry e.sequence kept;
    last_start_at = some now;
    model_starts = note_model_start p e.model now st.model_starts;
  };
  events = gone ++ started e.sequence (now - e.enqueued_at) ∷ [];
  wake = again;
}

abbrev pub pruned : PacerState → Policy → PacerState
pruned st p = record st { model_starts = prune_model_starts p st.model_starts }

abbrev pub is_again : Wake → Bool
is_again again = true
is_again _ = false

-- The parameter is `normalizeModel`, a trim and a change to lower case.
module _ (normalize_model : String → String) where
  unfoldable pub eligible_at : PacerState → Policy → String → ℕ
  eligible_at st p model =
      let normalized = normalize_model model in
      max (plus st.last_start_at p.min_start_interval_ms)
        (plus (lookup normalized st.model_starts) (model_interval p normalized))

  -- `started` where the policy is enabled; without one nothing is noted.
  unfoldable pub start : PacerState → Policy → String → ℕ → PacerState
  start st p model now =
      if p.enabled
      then record st {
        last_start_at = some now;
        model_starts = note_model_start p (normalize_model model) now st.model_starts;
      }
      else st

  unfoldable pub next_slot_at : PacerState → Policy → ℕ → ℕ
  unfolding earliest eligible_at
  next_slot_at st p now = elim (earliest (λ e. eligible_at st p e.model) st.queue) [
    | some t ↦ max now t
    | none ↦ elim st.last_start_at [ none ↦ now | some t ↦ max now (t + p.min_start_interval_ms) ]
  ]

  abbrev pub expired_event : PacerState → Policy → ℕ → Entry → PacerEvent
  expired_event st p now e =
      failed e.sequence queue_expired (retry_after_seconds (eligible_at st p e.model) now)

  unfoldable pub expire : PacerState → Policy → ℕ → List Entry → List Entry × List PacerEvent
  unfolding eligible_at
  expire st p now [] = ([], [])
  expire st p now (e ∷ es) =
      let (kept, gone) = expire st p now es in
      if is_expired p now e then (kept, expired_event st p now e ∷ gone) else (e ∷ kept, gone)

  abbrev pub is_ready : PacerState → Policy → ℕ → Entry → Bool
  is_ready st p now e = leb (eligible_at st p e.model) now

  -- By the time at which the entry may start, then by its place in the queue.
  abbrev pub starts_before : PacerState → Policy → Entry → Entry → Bool
  starts_before st p a b =
      let s = eligible_at st p a.model in
      let t = eligible_at st p b.model in ltb s t || (s == t && leb a.sequence b.sequence)

  unfoldable pub first_ready : PacerState → Policy → ℕ → List Entry → Option Entry
  unfolding sort eligible_at
  first_ready st p now es = head_of (sort (starts_before st p) (keep (is_ready st p now) es))

  abbrev pub wake_time : PacerState → Policy → Entry → ℕ
  wake_time st p e = min (deadline p e) (eligible_at st p e.model)

  abbrev pub wait_on : PacerState → Policy → ℕ → List Entry → List PacerEvent → Step
  wait_on st p now kept gone = record {
    state = record st { queue = kept };
    events = gone;
    wake = to_wake now (earliest (wake_time st p) kept);
  }

  -- One run of `schedule` for an enabled policy.
  unfoldable pub schedule : PacerState → Policy → ℕ → Step
  unfolding expire first_ready earliest drop_entry prune_model_starts
  schedule st p now =
      let st' = pruned st p in
      let (kept, gone) = expire st' p now st'.queue in
      elim (first_ready st' p now kept) [
        | some e ↦ start_entry st' p now kept gone e
        | none ↦ wait_on st' p now kept gone
      ]

  -- `schedule` and the runs that it queues as microtasks, for a number of runs. The source reads the
  -- clock anew in each of them; here all runs of one drain see the same reading.
  unfoldable pub drain : ℕ → PacerState → Policy → ℕ → Step
  unfolding schedule
  drain zero st p now = record { state = st; events = []; wake = again }
  drain (suc fuel) st p now =
      let s = schedule st p now in
      let rest = drain fuel s.state p now in
      if is_again s.wake then record rest { events = s.events ++ rest.events } else s

  -- Each run starts an entry or is the last, so a run more than the queue is long is enough.
  abbrev pub drain_all : PacerState → Policy → ℕ → Step
  drain_all st p now = drain (suc (length st.queue)) st p now

abbrev pub start_event : ℕ → Entry → PacerEvent
start_event now e = started e.sequence (now - e.enqueued_at)

abbrev pub fail_event : PacingCode → Entry → PacerEvent
fail_event code e = failed e.sequence code 1
