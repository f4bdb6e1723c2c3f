-- ===== src/Pacing/Acquire.antt =====
-- What `acquire` answers.
use codex_pooler.Prelude.{
  ℕ, ◌+◌, ◌≤◌, ◌≡◌, refl, String, Bool, true, not, ◌&&◌, List, [], ◌∷◌, arith, leb, if_elim, length,
  ◌==◌, length-append, not-leb→lt, ◌∙◌,
}
use codex_pooler.Pacing.{
  Policy, Entry, PacerState, PacerEvent, eligible_at, start, expire, drain_all,
}
use codex_pooler.Pacing.Operations.{
  Answer, now_started, rejected, queued, acquire_state, enqueue, has_none,
}
use codex_pooler.Pacing.Schedule.{
  expire-length, expire-places, drain_all-answers, drain_all-length, once_if, places, answers,
  places-append, answers-append,
}

-- How often a request that is told to wait is told so under a sequence number.
abbrev pub waiting : ℕ → Answer → ℕ
waiting k (queued n) = once_if (n == k)
waiting k now_started = 0
waiting k (rejected _ _) = 0

-- What holds of a state, the answers given and the answer to the request.
abbrev pub IsAnswered : PacerState → Policy → ℕ → PacerState × List PacerEvent × Answer → Type 0
IsAnswered st p now r =
    let (st', events, answer) = r in
    ((k : ℕ) → places k st'.queue + answers k events ≡ places k st.queue + waiting k answer)
    × (length st.queue ≤ p.max_queue_depth → length st'.queue ≤ p.max_queue_depth)
    × (answer ≡ now_started → st'.queue ≡ [])

module _ (normalize_model : String → String) where
  start-queue :
      (st : PacerState) (p : Policy) (model : String) (now : ℕ)
      → (start normalize_model st p model now).queue ≡ st.queue
  unfolding start
  start-queue st p model now = ground arith

  empty_list : (es : List Entry) → has_none es ≡ true → es ≡ []
  empty_list [] h = refl
  empty_list (e ∷ es) h = cc

  both_true : (a b : Bool) → (a && b) ≡ true → a ≡ true
  both_true a b h = ground arith

  -- However a request is answered, nobody is lost: for each sequence number, what leaves the queue is
  -- what is answered, and the request joins exactly when it is told to wait, under the number it is
  -- told. A queue within the depth of the policy stays within it, and a request that starts at once
  -- leaves nobody waiting.
  pub acquire_state-IsAnswered :
      (n : ℕ) (st : PacerState) (p : Policy) (model : String) (now : ℕ) (may_wait : Bool)
      → IsAnswered st p now (acquire_state normalize_model n st p model now may_wait)
  unfolding acquire_state
  acquire_state-IsAnswered n st p model now may_wait =
      let r = expire normalize_model st p now st.queue in
      let st' = record st { queue = r.0 } in
      let at = eligible_at normalize_model st' p model in
      let size = expire-length normalize_model st p now st.queue in
      let sum = λ (k : ℕ). expire-places normalize_model k st p now st.queue in
      if_elim {A = PacerState × List PacerEvent × Answer} (IsAnswered st p now)
        (has_none r.0 && leb at now)
        (λ e.
          let bare = start-queue st' p model now in
          let none_left = empty_list r.0 (both_true (has_none r.0) (leb at now) e) in
          (
            λ k. rw bare (omega (arith, sum k)),
            λ h. rw bare (omega (arith, size, h)),
            λ _. bare ∙ none_left,
          ))
        (λ _.
          if_elim {A = PacerState × List PacerEvent × Answer} (IsAnswered st p now) (not may_wait)
            (λ _. ((λ k. omega (arith, sum k)), (λ h. omega (arith, size, h)), λ h. cc))
            (λ _.
              if_elim {A = PacerState × List PacerEvent × Answer} (IsAnswered st p now)
                (leb p.max_queue_depth (length r.0))
                (λ _. ((λ k. omega (arith, sum k)), (λ h. omega (arith, size, h)), λ h. cc))
                (λ e.
                  let own : Entry = record {
                    sequence = n;
                    model = normalize_model model;
                    enqueued_at = now;
                  } in
                  let longer = enqueue st' n (normalize_model model) now in
                  let s = drain_all normalize_model longer p now in
                  let told = (drain_all-answers normalize_model longer p now).1 in
                  let fewer = drain_all-length normalize_model longer p now in
                  let more = length-append r.0 (own ∷ []) in
                  let room = not-leb→lt p.max_queue_depth (length r.0) e in
                  (
                    λ k. omega (
                      arith,
                      sum k,
                      told k,
                      places-append k r.0 (own ∷ []),
                      answers-append k r.1 s.events,
                    ),
                    (λ h. omega (arith, fewer, more, room)),
                    λ h. cc,
                  ))))
