-- ===== src/Pacing/Waiting.antt =====
-- How far apart requests start, and that nobody waits without a timer.
use codex_pooler.Prelude.{
  ℕ, suc, zero, ◌+◌, ◌-◌, ◌≤◌, ◌<◌, ◌≡◌, refl, String, true, Option, none, some, List, [], ◌∷◌,
  ◌++◌, arith, All, Option-cases, inl, inr, sym, subst, ◌⊎◌,
}
use codex_pooler.Pacing.{
  Policy, Entry, PacerState, PacerEvent, started, failed, Wake, idle, wake_at, Step, eligible_at,
  expire, is_ready, schedule, pruned, wake_time,
}
use codex_pooler.Pacing.Schedule.{schedule-cases, first_ready-In}

-- How many of the answers are starts.
abbrev pub starts : List PacerEvent → ℕ
starts [] = 0
starts (started _ _ ∷ es) = suc (starts es)
starts (failed _ _ _ ∷ es) = starts es

starts-append : (xs ys : List PacerEvent) → starts (xs ++ ys) ≡ starts xs + starts ys
starts-append [] ys = omega arith
starts-append (started _ _ ∷ xs) ys = omega (arith, starts-append xs ys)
starts-append (failed _ _ _ ∷ xs) ys = starts-append xs ys

-- The queue is empty and no timer runs, or a timer runs for a time that is still to come and not
-- after the deadline of any entry or the time at which it may start.
abbrev pub IsTimed : (Entry → ℕ) → ℕ → List Entry → Wake → Type 0
IsTimed f now es w =
    ((es ≡ []) × (w ≡ idle)) ⊎ ((t : ℕ) × (w ≡ wake_at t) × (now < t) × All (λ e. t ≤ f e) es)

-- The account has rested since its last start.
abbrev pub HasRested : Option ℕ → Policy → ℕ → Type 0
HasRested none p now = Unit
HasRested (some t) p now = t + p.min_start_interval_ms ≤ now

-- Times each of which comes after the one before it by the interval of the policy at least.
abbrev pub IsSpaced : Option ℕ → Policy → List ℕ → Type 0
IsSpaced last p [] = Unit
IsSpaced last p (t ∷ ts) = HasRested last p t × IsSpaced (some t) p ts

-- A time for each of the starts of a run.
abbrev pub append_times : ℕ → ℕ → List ℕ → List ℕ
append_times zero now ts = ts
append_times (suc n) now ts = now ∷ append_times n now ts

module _ (normalize_model : String → String) where
  expire-starts :
      (st : PacerState) (p : Policy) (now : ℕ) (es : List Entry)
      → starts (expire normalize_model st p now es).1 ≡ 0
  unfolding expire
  expire-starts st p now [] = refl
  expire-starts st p now (e ∷ es) = ground (arith, expire-starts st p now es)

  -- Nobody who waits has passed the deadline or may start already, and the timer will tell.
  abbrev pub IsWaiting : Policy → ℕ → Step → Type 0
  IsWaiting p now s =
      All (λ e. now < wake_time normalize_model s.state p e) s.state.queue
      × IsTimed (wake_time normalize_model s.state p) now s.state.queue s.wake

  ready-HasRested :
      (st : PacerState) (p : Policy) (now : ℕ) (e : Entry)
      → is_ready normalize_model st p now e ≡ true
      → HasRested st.last_start_at p now
  unfolding eligible_at
  ready-HasRested st p now e ready = elim (Option-cases st.last_start_at) [
    | inl q ↦ rw q tt
    | inr (t, q) ↦ rw q (ground arith)
  ]

  schedule-starts :
      (st : PacerState) (p : Policy) (now : ℕ)
      → let s = schedule normalize_model st p now in
        ((starts s.events ≡ 0) × (s.state.last_start_at ≡ st.last_start_at))
        ⊎ ((starts s.events ≡ 1)
            × (s.state.last_start_at ≡ some now)
            × HasRested st.last_start_at p now)
  schedule-starts st p now =
      let st' = pruned st p in
      let r = expire normalize_model st' p now st.queue in
      elim (schedule-cases normalize_model st p now) [
        | inl (e, f) ↦ inl (rw e (expire-starts st' p now st.queue, refl))
        | inr (x, e, f) ↦ inr (
          rw e (
              omega (
                arith,
                starts-append r.1 (started x.sequence (now - x.enqueued_at) ∷ []),
                expire-starts st' p now st.queue,
              )),
          rw e refl,
          ready-HasRested st' p now x (first_ready-In normalize_model st' p now r.0 x f).1,
        )
      ]

  -- When requests start, run by run: before each run the clock stands where it likes, and the queue
  -- is whatever arrivals and aborts have made of it.
  abbrev pub start_times : PacerState → Policy → List (ℕ × List Entry) → List ℕ
  start_times st p [] = []
  start_times st p ((now, queue) ∷ runs) =
      let s = schedule normalize_model (record st { queue = queue }) p now in
      append_times (starts s.events) now (start_times s.state p runs)

  -- However the clock goes on from run to run of the scheduler, and whoever joins or leaves the queue
  -- between them, each start keeps the interval of the policy from the start before it.
  pub start_times-IsSpaced :
      (st : PacerState) (p : Policy) (runs : List (ℕ × List Entry))
      → IsSpaced st.last_start_at p (start_times st p runs)
  start_times-IsSpaced st p [] = tt
  start_times-IsSpaced st p ((now, queue) ∷ runs) =
      let st' = record st { queue = queue } in
      let s = schedule normalize_model st' p now in
      let rest = start_times-IsSpaced s.state p runs in
      elim (schedule-starts st' p now) [
        | inl (none_started, same) ↦
            subst
              (λ n. IsSpaced st.last_start_at p (append_times n now (start_times s.state p runs)))
              (sym none_started) (subst (λ o. IsSpaced o p (start_times s.state p runs)) same rest)
        | inr (one, just, rested) ↦
            subst
              (λ n. IsSpaced st.last_start_at p (append_times n now (start_times s.state p runs)))
              (sym one) (rested, subst (λ o. IsSpaced o p (start_times s.state p runs)) just rest)
      ]
