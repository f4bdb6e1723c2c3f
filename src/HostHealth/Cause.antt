-- ===== src/HostHealth/Cause.antt =====
-- `dispatchBlocked` and `provenPreconnectCode`: the walks along an error's chain of causes. Errors
-- are objects on a heap, so a chain may run into itself.
use codex_pooler.Prelude.{
  ℕ, zero, suc, ◌≡◌, refl, sym, subst, ◌⊎◌, ◌≤◌, ◌<◌, ◌↔◌, inl, inr, String, Bool, true, false,
  ◌&&◌, Option, none, some, List, [], ◌∷◌, arith, any, leb, ◌==◌, if◌then◌else◌, str_eq, All, In,
  All-In, All-map_mono, any-In, ==_iff, Bool-cases, Option-cases,
}

pub record Fault : Type 0 where
  pub dispatch_blocked : Bool
  pub code : Option String
  pub cause : Option ℕ

abbrev preconnect_codes : List String
preconnect_codes =
    "ECONNREFUSED" ∷ "ENOTFOUND" ∷ "EAI_AGAIN" ∷ "ENETUNREACH" ∷ "ENETDOWN" ∷ "EHOSTUNREACH" ∷ []

-- `toUpperCase` and the length in UTF-16 units are the platform's.
module _ (upper : String → String) (utf16_length : String → ℕ) (heap : ℕ → Fault) where
  unfoldable pub blocked_walk : ℕ → Option ℕ → Bool
  blocked_walk zero current = false
  blocked_walk (suc rounds) none = false
  blocked_walk (suc rounds) (some i) =
      let rest = blocked_walk rounds (heap i).cause in
      if (heap i).dispatch_blocked then true else rest

  -- `depth <= maxDepth` makes one round more than the depth says.
  unfoldable pub dispatch_blocked : ℕ → Option ℕ → Bool
  unfolding blocked_walk
  dispatch_blocked max_depth error = blocked_walk (suc max_depth) error

  -- The code of one error, `none` unless it is in the set.
  abbrev listed_code : Option String → Option String
  listed_code none = none
  listed_code (some c) =
      if leb (utf16_length c) 64 && any (λ k. str_eq k (upper c)) preconnect_codes
      then some (upper c)
      else none

  code_walk : ℕ → List ℕ → Option ℕ → Option String
  code_walk zero seen current = none
  code_walk (suc rounds) seen none = none
  code_walk (suc rounds) seen (some i) =
      let rest = code_walk rounds (i ∷ seen) (heap i).cause in
      if any (λ j. j == i) seen
      then none
      else elim (listed_code (heap i).code) [ some c ↦ some c | none ↦ rest ]

  pub proven_preconnect_code : ℕ → Option ℕ → Option String
  unfolding code_walk
  proven_preconnect_code max_depth error = code_walk max_depth [] error

  -- What `settleError` asks of an error: blocked errors prove nothing.
  pub settlement_code : ℕ → Option ℕ → Option String
  settlement_code max_depth error =
      if dispatch_blocked 5 error then none else proven_preconnect_code max_depth error

  -- The error that stands `n` causes below another.
  abbrev pub nth_cause : ℕ → Option ℕ → Option ℕ
  nth_cause zero current = current
  nth_cause (suc n) none = none
  nth_cause (suc n) (some i) = nth_cause n (heap i).cause

  abbrev pub IsBlocked : Option ℕ → Type 0
  IsBlocked none = ⊥
  IsBlocked (some i) = (heap i).dispatch_blocked ≡ true

  blocked_walk_sound :
      (rounds : ℕ) (e : Option ℕ)
      → blocked_walk rounds e ≡ true
      → (n : ℕ) × (n < rounds) × IsBlocked (nth_cause n e)
  unfolding blocked_walk
  blocked_walk_sound zero e h = cc
  blocked_walk_sound (suc rounds) none h = cc
  blocked_walk_sound (suc rounds) (some i) h = elim (Bool-cases (heap i).dispatch_blocked) [
    | inl b ↦ (0, omega arith, b)
    | inr b ↦
        let (n, p, q) = blocked_walk_sound rounds (heap i).cause (ground arith) in
        (suc n, omega arith, q)
  ]

  blocked_walk_complete :
      (rounds n : ℕ) (e : Option ℕ)
      → n < rounds
      → IsBlocked (nth_cause n e)
      → blocked_walk rounds e ≡ true
  unfolding blocked_walk
  blocked_walk_complete zero n e p h = absurd (omega arith)
  blocked_walk_complete (suc rounds) zero none p h = absurd h
  blocked_walk_complete (suc rounds) zero (some i) p h = ground arith
  blocked_walk_complete (suc rounds) (suc n) none p h = absurd h
  blocked_walk_complete (suc rounds) (suc n) (some i) p h =
      ground (arith, blocked_walk_complete rounds n (heap i).cause (omega arith) h)

  -- An error counts as blocked exactly when it, or one of its first `max_depth` causes, is marked.
  pub dispatch_blocked_iff :
      (max_depth : ℕ) (error : Option ℕ)
      → (dispatch_blocked max_depth error ≡ true)
        ↔ ((n : ℕ) × (n ≤ max_depth) × IsBlocked (nth_cause n error))
  unfolding dispatch_blocked
  dispatch_blocked_iff max_depth error = (
    λ h. let (n, p, q) = blocked_walk_sound (suc max_depth) error h in (n, omega arith, q),
    λ h. blocked_walk_complete (suc max_depth) h.0 error (omega arith) h.2,
  )

  -- The walk with no record of the errors seen: the first listed code within so many rounds.
  pub first_code : ℕ → Option ℕ → Option String
  first_code zero current = none
  first_code (suc rounds) none = none
  first_code (suc rounds) (some i) =
      let rest = first_code rounds (heap i).cause in
      elim (listed_code (heap i).code) [ some c ↦ some c | none ↦ rest ]

  abbrev Seen : Option ℕ → List ℕ → Type 0
  Seen none seen = Unit
  Seen (some i) seen = In i seen

  -- An error already passed has no listed code, and leads to one passed or to the current one.
  abbrev Passed : Option ℕ → List ℕ → ℕ → Type 0
  Passed current seen i =
      (listed_code (heap i).code ≡ none) × (((heap i).cause ≡ current) ⊎ Seen (heap i).cause seen)

  first_code_of_loop :
      (rounds : ℕ) (seen : List ℕ) (e : Option ℕ)
      → All (λ i. (listed_code (heap i).code ≡ none) × Seen (heap i).cause seen) seen
      → Seen e seen
      → first_code rounds e ≡ none
  unfolding first_code
  first_code_of_loop zero seen e all s = refl
  first_code_of_loop (suc rounds) seen none all s = refl
  first_code_of_loop (suc rounds) seen (some i) all s =
      let (p, q) =
        All-In (λ i. (listed_code (heap i).code ≡ none) × Seen (heap i).cause seen) i seen all s in
      rw (p, first_code) (first_code_of_loop rounds seen (heap i).cause all q)

  Seen-cons : (i : ℕ) (seen : List ℕ) (o : Option ℕ) → Seen o seen → Seen o (i ∷ seen)
  Seen-cons i seen none s = tt
  Seen-cons i seen (some j) s = inr s

  Seen-current : (i : ℕ) (seen : List ℕ) (o : Option ℕ) → o ≡ some i → In i seen → Seen o seen
  Seen-current i seen o e s = subst (λ x. Seen x seen) (sym e) s

  In-seen : (i : ℕ) (seen : List ℕ) → any (λ j. j == i) seen ≡ true → In i seen
  In-seen i seen h =
      let (j, m, e) = any-In (λ j. j == i) seen h in subst (λ k. In k seen) ((==_iff j i).0 e) m

  Passed-loop :
      (i : ℕ) (seen : List ℕ)
      → In i seen
      → (j : ℕ) → Passed (some i) seen j
      → (listed_code (heap j).code ≡ none) × Seen (heap j).cause seen
  Passed-loop i seen m j (p, inl e) = (p, Seen-current i seen (heap j).cause e m)
  Passed-loop i seen m j (p, inr s) = (p, s)

  Passed-cons :
      (i : ℕ) (seen : List ℕ) (j : ℕ) → Passed (some i) seen j → Passed (heap i).cause (i ∷ seen) j
  Passed-cons i seen j (p, inl e) = (p, inr (Seen-current i (i ∷ seen) (heap j).cause e (inl refl)))
  Passed-cons i seen j (p, inr s) = (p, inr (Seen-cons i seen (heap j).cause s))

  code_walk_lem :
      (rounds : ℕ) (seen : List ℕ) (e : Option ℕ)
      → All (Passed e seen) seen
      → code_walk rounds seen e ≡ first_code rounds e
  unfolding code_walk first_code
  code_walk_lem zero seen e all = refl
  code_walk_lem (suc rounds) seen none all = refl
  code_walk_lem (suc rounds) seen (some i) all = elim (Bool-cases (any (λ j. j == i) seen)) [
    | inl loop ↦ rw loop (
        sym (
          first_code_of_loop (suc rounds) seen (some i)
            (All-map_mono (Passed (some i) seen) _ seen (Passed-loop i seen (In-seen i seen loop))
              all)
            (In-seen i seen loop)))
    | inr new ↦ elim (Option-cases (listed_code (heap i).code)) [
      | inr (c, e) ↦ rw (new, e, first_code) refl
      | inl e ↦
          rw (new, e, first_code)
            (code_walk_lem rounds (i ∷ seen) (heap i).cause
              ((e, inl refl), All-map_mono (Passed (some i) seen) _ seen (Passed-cons i seen) all))
    ]
  ]

  -- Stopping at an error seen before loses no code: the result is that of the plain walk.
  pub proven_preconnect_code-eq-first_code :
      (max_depth : ℕ) (error : Option ℕ)
      → proven_preconnect_code max_depth error ≡ first_code max_depth error
  unfolding proven_preconnect_code
  proven_preconnect_code-eq-first_code max_depth error = code_walk_lem max_depth [] error tt
