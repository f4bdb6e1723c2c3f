-- ===== src/Pacing/Operations.antt =====
-- The operations of a pacer. The upstreams that the store has, with their policies, are handed in.
use codex_pooler.Prelude.{
  ℕ, suc, String, Bool, true, false, not, ◌&&◌, Option, none, some, List, [], ◌∷◌, ◌++◌, map, leb,
  if◌then◌else◌, or_else, length,
}
use codex_pooler.Prelude.Table.{Table, lookup, insert, remove}
use codex_pooler.Pacing.{
  Policy, PacerState, PacingCode, aborted, queue_full, account_removed, would_wait, PacerEvent,
  failed, new_state, retry_after_seconds, eligible_at, start, next_slot_at, expire, drain_all,
  drop_entry, start_event, fail_event,
}

-- All states of a pacer, with its next sequence number.
pub record Pacer : Type 0 where
  pub states : Table PacerState
  pub sequence : ℕ
  pub closed : Bool

-- What `acquire` answers at once: a start, a refusal, or a place in the queue.
pub data Answer : Type 0 where
  now_started : Answer
  rejected : PacingCode → ℕ → Answer
  queued : ℕ → Answer

pub data Signal : Type 0 where
  live already_aborted : Signal

abbrev pub is_aborted : Signal → Bool
is_aborted live = false
is_aborted already_aborted = true

-- What is left of a state, if anything, with the answers it gave.
abbrev pub enqueue : PacerState → ℕ → String → ℕ → PacerState
enqueue st n model now = record st {
  queue = st.queue ++ record { sequence = n; model = model; enqueued_at = now } ∷ [];
}

all_failed : PacingCode → Table PacerState → List PacerEvent
all_failed code [] = []
all_failed code ((_, st) ∷ m) = map (fail_event code) st.queue ++ all_failed code m

unfoldable pub close : Pacer → Pacer × List PacerEvent
unfolding all_failed
close pc =
    if pc.closed
    then (pc, [])
    else (record pc { states = []; closed = true }, all_failed aborted pc.states)

abbrev pub state_for : Pacer → String → PacerState
state_for pc id = or_else (lookup id pc.states) new_state

abbrev pub has_none {ℓ} : {A : Type ℓ} → List A → Bool
has_none [] = true
has_none (_ ∷ _) = false

abbrev pub next_sequence : Answer → ℕ → ℕ
next_sequence (queued _) n = suc n
next_sequence now_started n = n
next_sequence (rejected _ _) n = n

abbrev pub put_state {ℓ} : {V : Type ℓ} → String → Option V → Table V → Table V
put_state id none m = remove id m
put_state id (some st) m = insert id st m

module _ (normalize_model : String → String) where
  -- A run of `schedule`, for whatever policy the upstream has: without an enabled one all entries
  -- start and the state goes.
  unfoldable pub run_state : PacerState → Option Policy → ℕ → Option PacerState × List PacerEvent
  run_state st none now = (none, map (fail_event account_removed) st.queue)
  run_state st (some p) now =
      if p.enabled
      then (
        some (drain_all normalize_model st p now).state,
        (drain_all normalize_model st p now).events,
      )
      else (none, map (start_event now) st.queue)

  unfoldable pub reconcile_states :
      Table Policy → Table PacerState → ℕ → Table PacerState × List PacerEvent
  unfolding run_state
  reconcile_states upstreams [] now = ([], [])
  reconcile_states upstreams ((id, st) ∷ m) now =
      let (left, events) = run_state st (lookup id upstreams) now in
      let (rest, later) = reconcile_states upstreams m now in
      (elim left [ none ↦ rest | some st' ↦ (id, st') ∷ rest ], events ++ later)

  unfoldable pub reconcile : Pacer → Table Policy → ℕ → Pacer × List PacerEvent
  unfolding reconcile_states
  reconcile pc upstreams now =
      if pc.closed
      then (pc, [])
      else let (states, events) = reconcile_states upstreams pc.states now in
        (record pc { states = states }, events)

  -- `schedule` of the pacer: an upstream that is gone makes it reconcile all states.
  unfoldable pub reschedule :
      Pacer → Table Policy → String → PacerState → ℕ → Pacer × List PacerEvent
  unfolding reconcile run_state
  reschedule pc upstreams id st now = elim (lookup id upstreams) [
    | none ↦ reconcile (record pc { states = insert id st pc.states }) upstreams now
    | some p ↦
        let (left, events) = run_state st (some p) now in
        (record pc { states = put_state id left pc.states }, events)
  ]

  -- The abort of a request that waits.
  unfoldable pub abort : Pacer → Table Policy → String → ℕ → ℕ → Pacer × List PacerEvent
  unfolding reschedule drop_entry
  abort pc upstreams id n now =
      let st = state_for pc id in
      let (pc', events) =
        reschedule pc upstreams id (record st { queue = drop_entry n st.queue }) now in
      (pc', failed n aborted 1 ∷ events)

  -- `acquire` on the state of an upstream whose policy is enabled; the first argument is the next
  -- sequence number and the last says that the request may wait.
  unfoldable pub acquire_state :
      ℕ → PacerState → Policy → String → ℕ → Bool → PacerState × List PacerEvent × Answer
  unfolding expire eligible_at next_slot_at start
  acquire_state n st p model now may_wait =
      let (kept, gone) = expire normalize_model st p now st.queue in
      let st' = record st { queue = kept } in
      let at = eligible_at normalize_model st' p model in
      if has_none kept && leb at now
      then (start normalize_model st' p model now, gone, now_started)
      else if not may_wait
      then (st', gone, rejected would_wait (retry_after_seconds at now))
      else if leb p.max_queue_depth (length kept)
      then (
        st',
        gone,
        rejected queue_full (retry_after_seconds (next_slot_at normalize_model st' p now) now),
      )
      else let s = drain_all normalize_model (enqueue st' n (normalize_model model) now) p now in
        (s.state, gone ++ s.events, queued n)

  unfoldable pub acquire :
      Pacer → Table Policy → String → String → Signal → Bool → ℕ → Pacer × List PacerEvent × Answer
  unfolding acquire_state
  acquire pc upstreams id model signal may_wait now =
      if pc.closed then (pc, [], rejected aborted 1) else elim (lookup id upstreams) [
        | none ↦ (pc, [], rejected account_removed 1)
        | some p ↦
            if not p.enabled
            then (pc, [], now_started)
            else if is_aborted signal
            then (pc, [], rejected aborted 1)
            else let (st, events, answer) =
                acquire_state pc.sequence (state_for pc id) p model now may_wait in
              (
                record pc {
                  states = insert id st pc.states;
                  sequence = next_sequence answer pc.sequence;
                },
                events,
                answer,
              )
      ]
