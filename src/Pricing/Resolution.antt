-- ===== src/Pricing/Resolution.antt =====
-- Which price row is chosen.
use codex_pooler.Prelude.{
  ℕ, ◌≤◌, ◌≡◌, refl, String, Bool, true, false, ◌||◌, Option, some, List, [], ◌∷◌, arith,
  if◌then◌else◌, if_elim, keep, All, In, All-In, All-map_mono, All-keep_passes, Bool-cases,
  Option-cases, inl, inr, first_some, subst,
}
use codex_pooler.Pricing.{
  Tier, Bucket, Row, same_tier, same_bucket, fallback_tier, is_dated, has_none, preferred,
  supersedes, latest_of, is_generation, find_bucket, is_long, pick, Search, found, passed, stopped,
  search_rows, search_candidate, or_rest, resolve_price, long_context, default_bucket,
  short_context,
}

find_bucket-In : (b : Bucket) (rows : List Row) (r : Row) → find_bucket b rows ≡ some r → In r rows
unfolding find_bucket
find_bucket-In b [] r h = cc
find_bucket-In b (x ∷ xs) r h = elim (Bool-cases (same_bucket x.bucket b)) [
  | inl e ↦ inl (some_row x r (rw e at h))
  | inr e ↦ inr (find_bucket-In b xs r (rw e at h))
]
  where
    some_row : (x r : Row) → some x ≡ some r → r ≡ x
    some_row x r q = cc

either_bucket :
    (a b : Bucket) (rows : List Row) (r : Row)
    → first_some (find_bucket a rows) (find_bucket b rows) ≡ some r
    → In r rows
either_bucket a b rows r h = elim (Option-cases (find_bucket a rows)) [
  | inl e ↦ find_bucket-In b rows r (rw e at h)
  | inr (x, e) ↦ find_bucket-In a rows r (cc (e, rw e at h))
]

pick-In : (rows : List Row) (long : Bool) (r : Row) → pick rows long ≡ some r → In r rows
pick-In rows true r h = either_bucket long_context default_bucket rows r h
pick-In rows false r h = either_bucket default_bucket short_context rows r h

later_row :
    (row latest : Row)
    → let next = if supersedes row latest then row else latest in
      (latest.effective_at ≤ next.effective_at) × (row.effective_at ≤ next.effective_at)
later_row row latest =
    if_elim {A = Row}
      (λ next. (latest.effective_at ≤ next.effective_at) × (row.effective_at ≤ next.effective_at))
      (supersedes row latest) (λ e. ground arith) (λ e. ground arith)

latest_of-newest :
    (latest : Row) (rows : List Row)
    → (latest.effective_at ≤ (latest_of latest rows).effective_at)
      × All (λ x. x.effective_at ≤ (latest_of latest rows).effective_at) rows
unfolding latest_of
latest_of-newest latest [] = (omega arith, tt)
latest_of-newest latest (row ∷ rows) =
    let (older, newer) = later_row row latest in
    let (first, rest) = latest_of-newest (if supersedes row latest then row else latest) rows in
    (omega (arith, older, first), (omega (arith, newer, first), rest))

-- A row of the list that is as new as any.
abbrev pub IsNewest : List Row → Row → Type 0
IsNewest rows r = In r rows × All (λ x. x.effective_at ≤ r.effective_at) rows

generation_date :
    (anchor r : Row) → is_generation anchor r ≡ true → r.effective_at ≡ anchor.effective_at
generation_date anchor r h = ground arith

search_rows-IsNewest :
    (rows : List Row) (tokens : ℕ) (r : Row) → search_rows rows tokens ≡ found r → IsNewest rows r
search_rows-IsNewest [] tokens r h = cc
search_rows-IsNewest (x ∷ xs) tokens r h =
    let anchor = latest_of x xs in
    elim (Option-cases (is_long anchor.context_rule tokens)) [
      | inl e ↦ cc (rw e at h)
      | inr (long, e) ↦
          let rows = keep (is_generation anchor) (x ∷ xs) in
          elim (Option-cases (pick rows long)) [
            | inl n ↦ cc (rw (e, n) at h)
            | inr (y, q) ↦
                let same : y ≡ r = cc (rw (e, q) at h) in
                let (m, g) =
                  All-In (λ z. In z (x ∷ xs) × (is_generation anchor z ≡ true)) y rows
                    (All-keep_passes (is_generation anchor) (x ∷ xs)) (pick-In rows long y q) in
                let date = generation_date anchor y g in
                let (first, rest) = latest_of-newest x xs in
                subst (IsNewest (x ∷ xs)) same (
                  m,
                  (
                    omega (arith, first, date),
                    All-map_mono (λ z. z.effective_at ≤ anchor.effective_at)
                        (λ z. z.effective_at ≤ y.effective_at) xs
                        (λ z low. omega (arith, low, date)) rest,
                  ),
                )
          ]
    ]

-- The row is one of the prices, bears the candidate's name, is in force, and its tier is the one
-- asked for or the one that it falls back to.
abbrev pub IsApplicable : List Row → String → Tier → ℕ → Row → Type 0
IsApplicable prices candidate tier at r =
    In r prices
    × (is_dated candidate at r ≡ true)
    × ((same_tier r.tier tier || same_tier r.tier (fallback_tier tier)) ≡ true)

dated-IsApplicable :
    (prices : List Row) (candidate : String) (tier : Tier) (at : ℕ) (test : Row → Bool)
    → ((r : Row)
        → test r ≡ true
        → (same_tier r.tier tier || same_tier r.tier (fallback_tier tier)) ≡ true)
    → All (IsApplicable prices candidate tier at) (keep test (keep (is_dated candidate at) prices))
dated-IsApplicable prices candidate tier at test fits =
    let dated = keep (is_dated candidate at) prices in
    All-map_mono (λ r. In r dated × (test r ≡ true)) (IsApplicable prices candidate tier at)
      (keep test dated)
      (λ r h.
        let (m, d) =
          All-In (λ z. In z prices × (is_dated candidate at z ≡ true)) r dated
            (All-keep_passes (is_dated candidate at) prices) h.0 in
        (m, d, fits r h.1))
      (All-keep_passes test dated)

preferred-IsApplicable :
    (prices : List Row) (candidate : String) (tier : Tier) (at : ℕ)
    → All
        (IsApplicable prices candidate tier at)
        (preferred (keep (is_dated candidate at) prices) tier)
unfolding preferred
preferred-IsApplicable prices candidate tier at =
    if_elim {A = List Row} (All (IsApplicable prices candidate tier at))
      (has_none (keep (λ r. same_tier r.tier tier) (keep (is_dated candidate at) prices)))
      (λ _.
        dated-IsApplicable prices candidate tier at (λ r. same_tier r.tier (fallback_tier tier))
          (λ r h. right_true (same_tier r.tier tier) (same_tier r.tier (fallback_tier tier)) h))
      (λ _.
        dated-IsApplicable prices candidate tier at (λ r. same_tier r.tier tier)
          (λ r h. left_true (same_tier r.tier tier) (same_tier r.tier (fallback_tier tier)) h))
  where
    right_true : (a b : Bool) → b ≡ true → (a || b) ≡ true
    right_true a b h = ground arith

    left_true : (a b : Bool) → a ≡ true → (a || b) ≡ true
    left_true a b h = ground arith

or_rest-cases :
    (P : Row → Type 0) (s : Search) (rest : Option Row) (r : Row)
    → ((x : Row) → s ≡ found x → P x)
    → (rest ≡ some r → P r)
    → or_rest s rest ≡ some r
    → P r
or_rest-cases P passed rest r here there h = there h
or_rest-cases P stopped rest r here there h = cc
or_rest-cases P (found x) rest r here there h = let same : x ≡ r = cc in subst P same (here x refl)

-- A row that resolves the price of one of the candidates.
abbrev pub IsResolved : List Row → List String → Tier → ℕ → Row → Type 0
IsResolved prices candidates tier at r =
    (c : String) × In c candidates
    × IsApplicable prices c tier at r
    × IsNewest (preferred (keep (is_dated c at) prices) tier) r

-- A price is found only for one of the candidates, in a row that applies to it, and no row of the
-- tier that was chosen for that candidate took effect later.
pub resolve_price-IsResolved :
    (prices : List Row) (candidates : List String) (tier : Tier) (at tokens : ℕ) (r : Row)
    → resolve_price prices candidates tier at tokens ≡ some r
    → IsResolved prices candidates tier at r
unfolding resolve_price search_candidate
resolve_price-IsResolved prices [] tier at tokens r h = cc
resolve_price-IsResolved prices (c ∷ cs) tier at tokens r h =
    let rows = preferred (keep (is_dated c at) prices) tier in
    or_rest-cases (IsResolved prices (c ∷ cs) tier at) (search_candidate prices c tier at tokens)
      (resolve_price prices cs tier at tokens) r
      (λ x e.
        let newest = search_rows-IsNewest rows tokens x e in
        (
          c,
          inl refl,
          All-In (IsApplicable prices c tier at) x rows (preferred-IsApplicable prices c tier at)
              newest.0,
          newest,
        ))
      (λ q.
        let (d, m, a, n) = resolve_price-IsResolved prices cs tier at tokens r q in
        (d, inr m, a, n))
      h
