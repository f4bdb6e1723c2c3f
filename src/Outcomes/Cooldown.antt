-- ===== src/Outcomes/Cooldown.antt =====
-- `quotaCooldown`, `parseRetryAfterMs` and `parseResetCooldownMs`: how long an account rests after a
-- quota answer. Numbers and dates in headers are read by the platform;
-- a reset time is a whole number, while the source also takes fractions of a second.
use codex_pooler.Prelude.{
  ℕ, ◌+◌, ◌-◌, ◌*◌, ◌≤◌, ◌<◌, ◌≡◌, refl, ◌≢◌, ◌⊎◌, inl, inr, Option, none, some, List, [], ◌∷◌,
  arith, min, ltb, leb, if◌then◌else◌, All, In, Option-cases, ap, ◌∙◌, leb→le, not-leb→lt, ltb→lt,
  not-ltb→le, Bool-cases,
}

-- A `Retry-After` value as read: `ceil(seconds * 1000)` of a decimal number, or a date.
pub data RetryAfter : Type 0 where
  unreadable : RetryAfter
  delay : ℕ → RetryAfter
  at_time : ℕ → RetryAfter

abbrev pub max_retry_after_ms : ℕ
max_retry_after_ms = 24 * 60 * 60 * 1000

abbrev pub max_reset_cooldown_ms : ℕ
max_reset_cooldown_ms = 15 * 60 * 1000

abbrev pub default_quota_cooldown_ms : ℕ
default_quota_cooldown_ms = 60000

unfoldable pub parse_retry_after_ms : RetryAfter → ℕ → Option ℕ
parse_retry_after_ms unreadable now = none
parse_retry_after_ms (delay ms) now = some (min ms max_retry_after_ms)
parse_retry_after_ms (at_time t) now =
    if ltb t now then none else some (min (t - now) max_retry_after_ms)

-- Seconds below 10^12, milliseconds from there on.
abbrev pub reset_timestamp : ℕ → ℕ
reset_timestamp n = if ltb n 1000000000000 then n * 1000 else n

abbrev best_of : Option ℕ → ℕ → Option ℕ
best_of none d = some d
best_of (some b) d = if ltb d b then some d else some b

-- One round of the loop over the reset headers; `none` is a value that is no finite number.
abbrev reset_round : ℕ → Option ℕ → Option ℕ → Option ℕ
reset_round now best none = best
reset_round now best (some n) =
    if leb n 0
    then best
    else if leb (reset_timestamp n) now
    then best
    else best_of best (min (reset_timestamp n - now) max_reset_cooldown_ms)

unfoldable pub reset_rounds : ℕ → Option ℕ → List (Option ℕ) → Option ℕ
reset_rounds now best [] = best
reset_rounds now best (v ∷ vs) = reset_rounds now (reset_round now best v) vs

unfoldable pub parse_reset_cooldown_ms : List (Option ℕ) → ℕ → Option ℕ
unfolding reset_rounds
parse_reset_cooldown_ms values now = reset_rounds now none values

pub data CooldownSource : Type 0 where
  retry_after reset_derived default_source : CooldownSource

pub record Cooldown : Type 0 where
  pub source : CooldownSource
  pub cooldown_ms : ℕ
  pub next_eligible_at : ℕ

abbrev cooldown_for : CooldownSource → ℕ → ℕ → Cooldown
cooldown_for source ms now = record {
  source = source;
  cooldown_ms = ms;
  next_eligible_at = now + ms;
}

unfoldable pub quota_cooldown : RetryAfter → List (Option ℕ) → ℕ → Cooldown
quota_cooldown retry resets now = elim (parse_retry_after_ms retry now) [
  | some ms ↦ cooldown_for retry_after ms now
  | none ↦ elim (parse_reset_cooldown_ms resets now) [
    | some ms ↦ cooldown_for reset_derived ms now
    | none ↦ cooldown_for default_source default_quota_cooldown_ms now
  ]
]

-- A reset time that counts: a positive number that lies in the future.
abbrev pub IsUpcoming : ℕ → ℕ → Type 0
IsUpcoming now n = (0 < n) × (now < reset_timestamp n)

-- No reset time of the list counts.
abbrev pub HasPassed : ℕ → Option ℕ → Type 0
HasPassed now none = Unit
HasPassed now (some n) = ¬ IsUpcoming now n

-- A wait is no longer than a reset time of the list asks for.
abbrev pub IsWithin : ℕ → ℕ → Option ℕ → Type 0
IsWithin now d none = Unit
IsWithin now d (some n) = IsUpcoming now n → now + d ≤ reset_timestamp n

-- The wait that a reset time of the list asks for.
abbrev pub IsAskedFor : ℕ → List (Option ℕ) → ℕ → Type 0
IsAskedFor now vs d =
    (n : ℕ) × In (some n) vs
    × IsUpcoming now n
    × (d ≡ min (reset_timestamp n - now) max_reset_cooldown_ms)

IsWithin-mono : (now d b : ℕ) (v : Option ℕ) → d ≤ b → IsWithin now b v → IsWithin now d v
IsWithin-mono now d b none h w = tt
IsWithin-mono now d b (some n) h w = λ u. omega (arith, w u)

-- A round on a best wait so far keeps it or replaces it by a shorter one.
reset_round-some :
    (now b n : ℕ)
    → (b' : ℕ) × (reset_round now (some b) (some n) ≡ some b')
      × (b' ≤ b)
      × IsWithin now b' (some n)
      × ((b' ≡ b) ⊎ (IsUpcoming now n × (b' ≡ min (reset_timestamp n - now) max_reset_cooldown_ms)))
reset_round-some now b n = elim (Bool-cases (leb n 0)) [
  | inl z ↦ (b, rw z refl, omega arith, λ u. absurd (omega (arith, leb→le n 0 z)), inl refl)
  | inr p ↦ elim (Bool-cases (leb (reset_timestamp n) now)) [
    | inl q ↦ (b, rw (p, q) refl, omega arith, λ u. absurd (omega (arith, leb→le _ _ q)), inl refl)
    | inr q ↦
        let d = min (reset_timestamp n - now) max_reset_cooldown_ms in
        let later = not-leb→lt _ _ q in
        elim (Bool-cases (ltb d b)) [
          | inl r ↦ (
            d,
            rw (p, q, r) refl,
            omega (arith, ltb→lt d b r),
            λ u. omega arith,
            inr ((not-leb→lt _ _ p, later), refl),
          )
          | inr r ↦
              (b, rw (p, q, r) refl, omega arith, λ u. omega (arith, not-ltb→le d b r), inl refl)
        ]
  ]
]

reset_rounds-some :
    (now b : ℕ) (vs : List (Option ℕ))
    → (d : ℕ) × (reset_rounds now (some b) vs ≡ some d)
      × (d ≤ b)
      × All (IsWithin now d) vs
      × ((d ≡ b) ⊎ IsAskedFor now vs d)
unfolding reset_rounds
reset_rounds-some now b [] = (b, refl, omega arith, tt, inl refl)
reset_rounds-some now b (none ∷ vs) =
    let (d, e, l, w, a) = reset_rounds-some now b vs in
    (d, e, l, (tt, w), ground (arith, weaken d a))
  where
    weaken : (d : ℕ) → (d ≡ b) ⊎ IsAskedFor now vs d → (d ≡ b) ⊎ IsAskedFor now (none ∷ vs) d
    weaken d (inl e) = inl e
    weaken d (inr (n, m, u, e)) = inr (n, inr m, u, e)
reset_rounds-some now b (some n ∷ vs) =
    let (b', e', l', w', a') = reset_round-some now b n in
    let (d, e, l, w, a) = reset_rounds-some now b' vs in
    (
      d,
      ap (λ (o : Option ℕ). reset_rounds now o vs) e' ∙ e,
      omega arith,
      (IsWithin-mono now d b' (some n) l w', w),
      join b' d a' a,
    )
  where
    join :
        (b' d : ℕ)
        → (b' ≡ b) ⊎ (IsUpcoming now n × (b' ≡ min (reset_timestamp n - now) max_reset_cooldown_ms))
        → (d ≡ b') ⊎ IsAskedFor now vs d
        → (d ≡ b) ⊎ IsAskedFor now (some n ∷ vs) d
    join b' d a' (inr (k, m, u, e)) = inr (k, inr m, u, e)
    join b' d (inl p) (inl q) = inl (q ∙ p)
    join b' d (inr (u, p)) (inl q) = inr (n, inl refl, u, q ∙ p)

-- What the loop finds in a list of reset times.
abbrev pub IsShortest : ℕ → List (Option ℕ) → Option ℕ → Type 0
IsShortest now vs o =
    ((o ≡ none) × All (HasPassed now) vs)
    ⊎ ((d : ℕ) × (o ≡ some d) × All (IsWithin now d) vs × IsAskedFor now vs d)

IsWithin-of_HasPassed : (now d : ℕ) (v : Option ℕ) → HasPassed now v → IsWithin now d v
IsWithin-of_HasPassed now d none p = tt
IsWithin-of_HasPassed now d (some n) p = λ u. absurd (p u)

IsShortest-cons :
    (now : ℕ) (v : Option ℕ) (vs : List (Option ℕ)) (o : Option ℕ)
    → HasPassed now v
    → IsShortest now vs o
    → IsShortest now (v ∷ vs) o
IsShortest-cons now v vs o p (inl (e, all)) = inl (e, (p, all))
IsShortest-cons now v vs o p (inr (d, e, w, (n, m, u, q))) =
    inr (d, e, (IsWithin-of_HasPassed now d v p, w), (n, inr m, u, q))

IsShortest-start :
    (now n : ℕ) (vs : List (Option ℕ))
    → IsUpcoming now n
    → IsShortest now
        (some n ∷ vs)
        (reset_rounds now (some (min (reset_timestamp n - now) max_reset_cooldown_ms)) vs)
IsShortest-start now n vs u =
    let b = min (reset_timestamp n - now) max_reset_cooldown_ms in
    let (d, e, l, w, a) = reset_rounds-some now b vs in
    inr (d, e, ((λ _. omega arith), w), asked d a)
  where
    asked :
        (d : ℕ)
        → (d ≡ min (reset_timestamp n - now) max_reset_cooldown_ms) ⊎ IsAskedFor now vs d
        → IsAskedFor now (some n ∷ vs) d
    asked d (inl e) = (n, inl refl, u, e)
    asked d (inr (k, m, v, e)) = (k, inr m, v, e)

reset_rounds-IsShortest :
    (now : ℕ) (vs : List (Option ℕ)) → IsShortest now vs (reset_rounds now none vs)
unfolding reset_rounds
reset_rounds-IsShortest now [] = inl (refl, tt)
reset_rounds-IsShortest now (none ∷ vs) =
    IsShortest-cons now none vs _ tt (reset_rounds-IsShortest now vs)
reset_rounds-IsShortest now (some n ∷ vs) = elim (Bool-cases (leb n 0)) [
  | inl z ↦
      rw (z, reset_rounds)
        (IsShortest-cons now (some n) vs _ (λ u. omega (arith, leb→le n 0 z))
          (reset_rounds-IsShortest now vs))
  | inr p ↦ elim (Bool-cases (leb (reset_timestamp n) now)) [
    | inl q ↦
        rw (p, q, reset_rounds)
          (IsShortest-cons now (some n) vs _ (λ u. omega (arith, leb→le _ _ q))
            (reset_rounds-IsShortest now vs))
    | inr q ↦
        rw (p, q, reset_rounds) (IsShortest-start now n vs (not-leb→lt _ _ p, not-leb→lt _ _ q))
  ]
]

-- With reset headers that are all absent, unreadable or past there is no wait. Otherwise the wait is
-- the one that some upcoming reset asks for, cut at fifteen minutes, and no upcoming reset asks for
-- a shorter one.
pub parse_reset_cooldown_ms-IsShortest :
    (values : List (Option ℕ)) (now : ℕ)
    → IsShortest now values (parse_reset_cooldown_ms values now)
unfolding parse_reset_cooldown_ms
parse_reset_cooldown_ms-IsShortest values now = reset_rounds-IsShortest now values

parse_retry_after_ms-le :
    (r : RetryAfter) (now ms : ℕ) → parse_retry_after_ms r now ≡ some ms → ms ≤ max_retry_after_ms
unfolding parse_retry_after_ms
parse_retry_after_ms-le unreadable now ms e = cc
parse_retry_after_ms-le (delay d) now ms e = ground arith
parse_retry_after_ms-le (at_time t) now ms e = ground arith

parse_reset_cooldown_ms-le :
    (values : List (Option ℕ)) (now ms : ℕ)
    → parse_reset_cooldown_ms values now ≡ some ms
    → ms ≤ max_reset_cooldown_ms
parse_reset_cooldown_ms-le values now ms e = go (parse_reset_cooldown_ms-IsShortest values now)
  where
    go : IsShortest now values (parse_reset_cooldown_ms values now) → ms ≤ max_reset_cooldown_ms
    go (inl (n, _)) = cc
    go (inr (d, p, _, (k, _, _, q))) = ground arith

-- Every quota cooldown lasts at most a day, at most fifteen minutes where it is derived from reset
-- headers, and exactly a minute where neither header says anything; it ends that long from now.
pub quota_cooldown_bounds :
    (retry : RetryAfter) (resets : List (Option ℕ)) (now : ℕ)
    → let c = quota_cooldown retry resets now in
      (c.next_eligible_at ≡ now + c.cooldown_ms)
      × (c.cooldown_ms ≤ max_retry_after_ms)
      × ((c.source ≡ reset_derived) → c.cooldown_ms ≤ max_reset_cooldown_ms)
      × ((c.source ≡ default_source) → c.cooldown_ms ≡ default_quota_cooldown_ms)
      × ((parse_retry_after_ms retry now ≢ none) → c.source ≡ retry_after)
unfolding quota_cooldown
quota_cooldown_bounds retry resets now = elim (Option-cases (parse_retry_after_ms retry now)) [
  | inr (ms, e) ↦
      rw (e, quota_cooldown)
        (refl, parse_retry_after_ms-le retry now ms e, (λ h. cc), (λ h. cc), (λ _. refl))
  | inl e ↦ elim (Option-cases (parse_reset_cooldown_ms resets now)) [
    | inr (ms, q) ↦
        let small = parse_reset_cooldown_ms-le resets now ms q in
        rw (e, q, quota_cooldown)
          (refl, omega arith, (λ _. small), (λ h. cc), (λ h. absurd (h refl)))
    | inl q ↦
        rw (e, q, quota_cooldown)
          (refl, omega arith, (λ h. cc), (λ _. refl), (λ h. absurd (h refl)))
  ]
]
