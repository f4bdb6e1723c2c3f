-- ===== src/Pacing/Normalizing.antt =====
-- `normalizePacingPolicy`: how a policy is read.
use codex_pooler.Prelude.{
  ℕ, ◌*◌, ◌≤◌, subst, Bool-cases, ◌≡◌, String, Bool, false, ◌||◌, Option, none, some, List, [], ◌∷◌,
  arith, ltb, if◌then◌else◌, length, or_else, All, Option-cases, inl, inr,
}
use codex_pooler.Prelude.Table.{Table, insert, All-insert}
use codex_pooler.Pacing.{Policy}

-- A field as `boundedInteger` finds it: absent (or empty), no integer from 0 on, or a number.
pub data Field : Type 0 where
  absent malformed : Field
  number : ℕ → Field

-- `enabled` has been made a Boolean; a model is trimmed and in lower case.
pub record PolicyInput : Type 0 where
  pub enabled : Option Bool
  pub min_start_interval_ms : Field
  pub model_intervals : List (String × Field)
  pub max_queue_depth : Field
  pub max_queue_age_ms : Field

abbrev pub max_interval_ms : ℕ
max_interval_ms = 5 * 60000

abbrev pub max_model_intervals : ℕ
max_model_intervals = 64

unfoldable pub bounded_integer : Field → ℕ → ℕ → ℕ → Option ℕ
bounded_integer absent fallback low high = some fallback
bounded_integer malformed fallback low high = none
bounded_integer (number n) fallback low high = if ltb n low || ltb high n then none else some n

infixl 20 ◌>>=◌
abbrev ◌>>=◌ : {A : Type 0} {B : Type 0} → Option A → (A → Option B) → Option B
none >>= f = none
(some a) >>= f = f a

abbrev policy_of : PolicyInput → ℕ → ℕ → ℕ → Table ℕ → Policy
policy_of v interval depth age intervals = record {
  enabled = or_else v.enabled false;
  min_start_interval_ms = interval;
  model_intervals = intervals;
  max_queue_depth = depth;
  max_queue_age_ms = age;
}

-- The parameter tests a model against `MODEL_PATTERN`.
module _ (is_model_id : String → Bool) where
  unfoldable pub read_intervals : Table ℕ → List (String × Field) → Option (Table ℕ)
  unfolding bounded_integer
  read_intervals m [] = some m
  read_intervals m ((model, field) ∷ rest) = elim (bounded_integer field 0 0 max_interval_ms) [
    | none ↦ none
    | some interval ↦
        if is_model_id model then read_intervals (insert model interval m) rest else none
  ]

  abbrev intervals_of : List (String × Field) → Option (Table ℕ)
  intervals_of fields =
      if ltb max_model_intervals (length fields) then none else read_intervals [] fields

  -- `none` where the source throws.
  unfoldable pub normalize_pacing_policy : PolicyInput → Option Policy
  unfolding read_intervals
  normalize_pacing_policy v = do
    interval ← bounded_integer v.min_start_interval_ms 0 0 max_interval_ms
    depth ← bounded_integer v.max_queue_depth 20 1 100
    age ← bounded_integer v.max_queue_age_ms 30000 100 600000
    intervals ← intervals_of v.model_intervals
    some (policy_of v interval depth age intervals)

abbrev pub IsPolicy : Policy → Type 0
IsPolicy p =
    (p.min_start_interval_ms ≤ max_interval_ms)
    × (1 ≤ p.max_queue_depth)
    × (p.max_queue_depth ≤ 100)
    × (100 ≤ p.max_queue_age_ms)
    × (p.max_queue_age_ms ≤ 600000)
    × All (λ (e : String × ℕ). e.1 ≤ max_interval_ms) p.model_intervals

bounded_integer-within :
    (f : Field) (fallback low high n : ℕ)
    → low ≤ fallback
    → fallback ≤ high
    → bounded_integer f fallback low high ≡ some n
    → (low ≤ n) × (n ≤ high)
unfolding bounded_integer
bounded_integer-within absent fallback low high n h k e = ground arith
bounded_integer-within malformed fallback low high n h k e = cc
bounded_integer-within (number m) fallback low high n h k e = ground arith

module _ (is_model_id : String → Bool) where
  read_intervals-within :
      (m : Table ℕ) (fields : List (String × Field)) (r : Table ℕ)
      → All (λ (e : String × ℕ). e.1 ≤ max_interval_ms) m
      → read_intervals is_model_id m fields ≡ some r
      → All (λ (e : String × ℕ). e.1 ≤ max_interval_ms) r
  unfolding read_intervals
  read_intervals-within m [] r h e =
      let same : m ≡ r = cc in subst (All (λ (x : String × ℕ). x.1 ≤ max_interval_ms)) same h
  read_intervals-within m ((model, field) ∷ rest) r h e =
      elim (Option-cases (bounded_integer field 0 0 max_interval_ms)) [
        | inl n ↦ cc (rw (n, read_intervals) at e)
        | inr (k, q) ↦ elim (Bool-cases (is_model_id model)) [
          | inr b ↦ cc (rw (q, b, read_intervals) at e)
          | inl b ↦
              read_intervals-within (insert model k m) rest r
                (All-insert (λ (x : String × ℕ). x.1 ≤ max_interval_ms) model k m
                  (bounded_integer-within field 0 0 max_interval_ms k (omega arith) (omega arith)
                    q).1
                  h)
                (rw (q, b, read_intervals) at e)
        ]
      ]

  intervals_of-within :
      (fields : List (String × Field)) (m : Table ℕ)
      → intervals_of is_model_id fields ≡ some m
      → All (λ (e : String × ℕ). e.1 ≤ max_interval_ms) m
  intervals_of-within fields m e = elim (Bool-cases (ltb max_model_intervals (length fields))) [
    | inl b ↦ cc (rw b at e)
    | inr b ↦ read_intervals-within [] fields m tt (rw b at e)
  ]

  -- Whatever policy is accepted keeps to its bounds, with every interval of a model.
  pub normalize_pacing_policy-IsPolicy :
      (v : PolicyInput) (p : Policy) → normalize_pacing_policy is_model_id v ≡ some p → IsPolicy p
  unfolding normalize_pacing_policy
  normalize_pacing_policy-IsPolicy v p e =
      elim (Option-cases (bounded_integer v.min_start_interval_ms 0 0 max_interval_ms)) [
        | inl n ↦ cc (rw (n, normalize_pacing_policy) at e)
        | inr (i, ei) ↦ elim (Option-cases (bounded_integer v.max_queue_depth 20 1 100)) [
          | inl n ↦ cc (rw (ei, n, normalize_pacing_policy) at e)
          | inr (d, ed) ↦
              elim (Option-cases (bounded_integer v.max_queue_age_ms 30000 100 600000)) [
                | inl n ↦ cc (rw (ei, ed, n, normalize_pacing_policy) at e)
                | inr (a, ea) ↦ elim (Option-cases (intervals_of is_model_id v.model_intervals)) [
                  | inl n ↦ cc (rw (ei, ed, ea, n, normalize_pacing_policy) at e)
                  | inr (m, em) ↦
                      let same : policy_of v i d a m ≡ p =
                        cc (rw (ei, ed, ea, em, normalize_pacing_policy) at e) in
                      subst IsPolicy same (
                        (bounded_integer-within v.min_start_interval_ms 0 0 max_interval_ms i
                            (omega arith) (omega arith) ei).1,
                        (bounded_integer-within v.max_queue_depth 20 1 100 d (omega arith)
                            (omega arith) ed).0,
                        (bounded_integer-within v.max_queue_depth 20 1 100 d (omega arith)
                            (omega arith) ed).1,
                        (bounded_integer-within v.max_queue_age_ms 30000 100 600000 a (omega arith)
                            (omega arith) ea).0,
                        (bounded_integer-within v.max_queue_age_ms 30000 100 600000 a (omega arith)
                            (omega arith) ea).1,
                        intervals_of-within v.model_intervals m em,
                      )
                ]
              ]
        ]
      ]
