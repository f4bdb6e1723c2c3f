-- ===== src/Pacing/Schedule.antt =====
-- What a run of `schedule` does to the queue.
use codex_pooler.Prelude.{
  ℕ, suc, zero, ◌+◌, ◌-◌, ◌<◌, ◌≡◌, refl, String, true, false, none, some, List, [], ◌∷◌, arith,
  ◌==◌, if_elim, length, length-append, All, In, All-keep_passes, keep, Option-cases, inl, inr, ap,
  sym, subst, ◌⊎◌, ◌++◌, Bool, Bool-cases, ==_iff,
}
use codex_pooler.Prelude.Sorting.{sort, All-sort}
use codex_pooler.Pacing.{
  Policy, Entry, PacerState, PacerEvent, started, failed, is_expired, Step, expire, is_ready,
  first_ready, starts_before, schedule, start_entry, wait_on, pruned, drop_entry, drain, drain_all,
  is_again, head_of, deadline,
}

==_refl : (a b : ℕ) → a ≡ b → (a == b) ≡ true
==_refl a b h = ground arith

head_of-All :
    (P : Entry → Type 0) (e : Entry) (xs : List Entry) → All P xs → head_of xs ≡ some e → P e
head_of-All P e [] a q = cc
head_of-All P e (x ∷ xs) a q = let same : x ≡ e = cc in subst P same a.0

drop_entry-length :
    (e : Entry) (es : List Entry) → In e es → suc (length (drop_entry e.sequence es)) ≡ length es
unfolding drop_entry
drop_entry-length e [] m = elim m [ ]
drop_entry-length e (x ∷ xs) (inl q) =
    if_elim {A = List Entry} (λ r. suc (length r) ≡ suc (length xs)) (x.sequence == e.sequence)
      (λ _. refl) (λ n. cc (n, ==_refl x.sequence e.sequence (λ i. (sym q i).sequence)))
drop_entry-length e (x ∷ xs) (inr m) =
    if_elim {A = List Entry} (λ r. suc (length r) ≡ suc (length xs)) (x.sequence == e.sequence)
      (λ _. refl) (λ _. ap suc (drop_entry-length e xs m))

abbrev pub once_if : Bool → ℕ
once_if true = 1
once_if false = 0

-- How many entries of a queue have a sequence number.
abbrev pub places : ℕ → List Entry → ℕ
places k [] = 0
places k (e ∷ es) = once_if (e.sequence == k) + places k es

abbrev pub number_of : PacerEvent → ℕ
number_of (started n _) = n
number_of (failed n _ _) = n

-- How many answers go to the entries with a sequence number.
abbrev pub answers : ℕ → List PacerEvent → ℕ
answers k [] = 0
answers k (v ∷ vs) = once_if (number_of v == k) + answers k vs

pub answers-append :
    (k : ℕ) (vs ws : List PacerEvent) → answers k (vs ++ ws) ≡ answers k vs + answers k ws
answers-append k [] ws = omega arith
answers-append k (v ∷ vs) ws = omega (arith, answers-append k vs ws)

pub places-append : (k : ℕ) (xs ys : List Entry) → places k (xs ++ ys) ≡ places k xs + places k ys
places-append k [] ys = omega arith
places-append k (x ∷ xs) ys = omega (arith, places-append k xs ys)

drop_entry-places :
    (k : ℕ) (e : Entry) (es : List Entry)
    → In e es
    → places k (drop_entry e.sequence es) + once_if (e.sequence == k) ≡ places k es
unfolding drop_entry
drop_entry-places k e [] m = elim m [ ]
drop_entry-places k e (x ∷ xs) m = elim (Bool-cases (x.sequence == e.sequence)) [
  | inl q ↦
      let same : x.sequence ≡ e.sequence = (==_iff x.sequence e.sequence).0 q in
      rw (q, drop_entry) (rw same (omega arith))
  | inr q ↦ elim m [
    | inl r ↦ cc (q, ==_refl x.sequence e.sequence (λ i. (sym r i).sequence))
    | inr r ↦ rw (q, drop_entry) (omega (arith, drop_entry-places k e xs r))
  ]
]

module _ (normalize_model : String → String) where
  pub expire-places :
      (k : ℕ) (st : PacerState) (p : Policy) (now : ℕ) (es : List Entry)
      → let r = expire normalize_model st p now es in places k r.0 + answers k r.1 ≡ places k es
  unfolding expire
  expire-places k st p now [] = omega arith
  expire-places k st p now (e ∷ es) = elim (Bool-cases (is_expired p now e)) [
    | inl q ↦ rw (q, expire) (omega (arith, expire-places k st p now es))
    | inr q ↦ rw (q, expire) (omega (arith, expire-places k st p now es))
  ]

  pub expire-length :
      (st : PacerState) (p : Policy) (now : ℕ) (es : List Entry)
      → let r = expire normalize_model st p now es in length r.0 + length r.1 ≡ length es
  unfolding expire
  expire-length st p now [] = omega arith
  expire-length st p now (e ∷ es) = ground (arith, expire-length st p now es)

  pub expire-kept :
      (st : PacerState) (p : Policy) (now : ℕ) (es : List Entry)
      → All (λ e. now < deadline p e) (expire normalize_model st p now es).0
  unfolding expire
  expire-kept st p now [] = tt
  expire-kept st p now (e ∷ es) = ground (arith, expire-kept st p now es)

  -- The entry that `schedule` picks is in the queue and ready.
  pub first_ready-In :
      (st : PacerState) (p : Policy) (now : ℕ) (es : List Entry) (e : Entry)
      → first_ready normalize_model st p now es ≡ some e
      → In e es × (is_ready normalize_model st p now e ≡ true)
  unfolding first_ready
  first_ready-In st p now es e h =
      let ready = keep (is_ready normalize_model st p now) es in
      head_of-All (λ x. In x es × (is_ready normalize_model st p now x ≡ true)) e
        (sort (starts_before normalize_model st p) ready)
        (All-sort (starts_before normalize_model st p)
          (λ x. In x es × (is_ready normalize_model st p now x ≡ true)) ready
          (All-keep_passes (is_ready normalize_model st p now) es))
        h

  pub schedule-cases :
      (st : PacerState) (p : Policy) (now : ℕ)
      → let st' = pruned st p in
        let r = expire normalize_model st' p now st.queue in
        ((schedule normalize_model st p now ≡ wait_on normalize_model st' p now r.0 r.1)
          × (first_ready normalize_model st' p now r.0 ≡ none))
        ⊎ ((e : Entry) × (schedule normalize_model st p now ≡ start_entry st' p now r.0 r.1 e)
            × (first_ready normalize_model st' p now r.0 ≡ some e))
  unfolding schedule
  schedule-cases st p now =
      let st' = pruned st p in
      let r = expire normalize_model st' p now st.queue in
      elim (Option-cases (first_ready normalize_model st' p now r.0)) [
        | inl e ↦ inl (rw (e, schedule) refl, e)
        | inr (x, e) ↦ inr (x, rw (e, schedule) refl, e)
      ]

  -- A run answers as many entries as leave the queue, and unless it is the last it answers some.
  schedule-length :
      (st : PacerState) (p : Policy) (now : ℕ)
      → let s = schedule normalize_model st p now in
        (length s.state.queue + length s.events ≡ length st.queue)
        × (is_again s.wake ≡ true → length s.state.queue < length st.queue)
  schedule-length st p now =
      let st' = pruned st p in
      let r = expire normalize_model st' p now st.queue in
      let sum = expire-length st' p now st.queue in
      elim (schedule-cases st p now) [
        | inl (e, _) ↦ rw e (sum, λ h. ground arith)
        | inr (x, e, f) ↦
            let less = drop_entry-length x r.0 (first_ready-In st' p now r.0 x f).0 in
            rw e (
              omega (
                arith,
                sum,
                less,
                length-append r.1 (started x.sequence (now - x.enqueued_at) ∷ []),
              ),
              λ _. omega (arith, sum, less),
            )
      ]

  drain-length :
      (fuel : ℕ) (st : PacerState) (p : Policy) (now : ℕ)
      → let s = drain normalize_model fuel st p now in
        (length s.state.queue + length s.events ≡ length st.queue)
        × (length st.queue < fuel → is_again s.wake ≡ false)
  unfolding drain
  drain-length zero st p now = (omega arith, λ h. absurd (omega (arith, h)))
  drain-length (suc fuel) st p now =
      let s = schedule normalize_model st p now in
      let rest = drain normalize_model fuel s.state p now in
      let (sum, less) = schedule-length st p now in
      let (sum', ends) = drain-length fuel s.state p now in
      if_elim {A = Step}
        (λ r.
          (length r.state.queue + length r.events ≡ length st.queue)
          × (length st.queue < suc fuel → is_again r.wake ≡ false))
        (is_again s.wake)
        (λ e. (
          omega (arith, sum, sum', length-append s.events rest.events),
          λ h. ends (omega (arith, h, less e)),
        ))
        (λ e. (sum, λ _. e))

  -- Whoever a run takes out of the queue is the one it answers.
  schedule-places :
      (k : ℕ) (st : PacerState) (p : Policy) (now : ℕ)
      → let s = schedule normalize_model st p now in
        places k s.state.queue + answers k s.events ≡ places k st.queue
  schedule-places k st p now =
      let st' = pruned st p in
      let r = expire normalize_model st' p now st.queue in
      let sum = expire-places k st' p now st.queue in
      elim (schedule-cases st p now) [
        | inl (e, _) ↦ rw e sum
        | inr (x, e, f) ↦ rw e (
            omega (
              arith,
              sum,
              drop_entry-places k x r.0 (first_ready-In st' p now r.0 x f).0,
              answers-append k r.1 (started x.sequence (now - x.enqueued_at) ∷ []),
            ))
      ]

  drain-places :
      (k fuel : ℕ) (st : PacerState) (p : Policy) (now : ℕ)
      → let s = drain normalize_model fuel st p now in
        places k s.state.queue + answers k s.events ≡ places k st.queue
  unfolding drain
  drain-places k zero st p now = omega arith
  drain-places k (suc fuel) st p now =
      let s = schedule normalize_model st p now in
      let rest = drain normalize_model fuel s.state p now in
      if_elim {A = Step} (λ r. places k r.state.queue + answers k r.events ≡ places k st.queue)
        (is_again s.wake)
        (λ _. omega (
          arith,
          schedule-places k st p now,
          drain-places k fuel s.state p now,
          answers-append k s.events rest.events,
        ))
        (λ _. schedule-places k st p now)

  pub drain_all-length :
      (st : PacerState) (p : Policy) (now : ℕ)
      → let s = drain_all normalize_model st p now in
        length s.state.queue + length s.events ≡ length st.queue
  drain_all-length st p now = (drain-length (suc (length st.queue)) st p now).0

  -- The microtasks come to an end: with a run more than the queue is long there is no further one.
  -- For each sequence number, what has left the queue is what was answered: an entry that is gone has
  -- its own answer, and one that stays has none.
  pub drain_all-answers :
      (st : PacerState) (p : Policy) (now : ℕ)
      → let s = drain_all normalize_model st p now in
        (is_again s.wake ≡ false)
        × ((k : ℕ) → places k s.state.queue + answers k s.events ≡ places k st.queue)
  drain_all-answers st p now = (
    (drain-length (suc (length st.queue)) st p now).1 (omega arith),
    λ k. drain-places k (suc (length st.queue)) st p now,
  )
