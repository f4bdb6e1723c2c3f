-- ===== src/Compatibility/Evidence.antt =====
-- What a promotion rests on, and that the observations stay bounded.
use codex_pooler.Prelude.{
  ℕ, suc, ◌≤◌, ◌≡◌, refl, subst, Bool, true, false, not, ◌||◌, Option, none, some, List, [], ◌∷◌,
  arith, ltb, if◌then◌else◌, if_elim, or_else, length, Bool-cases, inl, inr, All-of_In, All, All-In,
  String, sym,
}
use codex_pooler.Prelude.Table.{
  lookup-In, lookup, insert, HasDistinctKeys, length-evict, insert-HasDistinctKeys,
  evict-HasDistinctKeys,
}
use codex_pooler.Compatibility.{
  Generation, same_generation, Entry, Learning, Rejection, Outcome, promote, generation_for,
  other_generation, new_entry, renew_entry, is_independent, observe_entry, used_before,
  prune_observations, entry_after, learn, observe, observe_all,
}
use codex_pooler.Compatibility.Dated.{IsDated, AllDated, observe_all-AllDated, known_generation}

-- Earlier evidence that a promotion rests on.
pub record IsEvidence (l : Learning) (r : Rejection) (now : ℕ) (e : Entry) : Type 0 where
  pub stored : lookup r.observation_key l.observations ≡ some e
  pub counted : 1 ≤ e.count
  pub generation : Generation
  pub known : e.last_generation ≡ some generation
  pub current : same_generation generation (generation_for r) ≡ true
  pub confirmed : e.count ≡ 1 → is_independent l.observation_gap_ms r now e ≡ true

observe_entry-count :
    (gap : ℕ) (r : Rejection) (g : Generation) (now : ℕ) (x : Entry)
    → (observe_entry gap r g now x).count
      ≡ (if is_independent gap r now x then suc x.count else x.count)
observe_entry-count gap r g now x = elim (Bool-cases (is_independent gap r now x)) [
  | inl i ↦ rw i refl
  | inr i ↦ rw i refl
]

renew_entry-count :
    (g : Generation) (now : ℕ) (e : Entry)
    → other_generation e.last_generation g ≡ true
    → (renew_entry g now e).count ≡ 0
renew_entry-count g now e o = rw o refl

renew_entry_current :
    (g : Generation) (now : ℕ) (e : Entry)
    → other_generation e.last_generation g ≡ false
    → renew_entry g now e ≡ e
renew_entry_current g now e o = rw o refl

seldom_counted :
    (b : Bool) (c : ℕ) → ltb (if b then suc c else c) 2 ≡ false → (1 ≤ c) × (c ≡ 1 → b ≡ true)
seldom_counted true c h = (ground arith, λ _. refl)
seldom_counted false c h = (ground arith, λ e. ground arith)

promoted_entry :
    (gap : ℕ) (r : Rejection) (g : Generation) (now : ℕ) (e : Entry)
    → ltb (observe_entry gap r g now (renew_entry g now e)).count 2 ≡ false
    → (1 ≤ e.count)
      × (other_generation e.last_generation g ≡ false)
      × (e.count ≡ 1 → is_independent gap r now e ≡ true)
promoted_entry gap r g now e h =
    let x = renew_entry g now e in
    let (counted, confirmed) =
      seldom_counted (is_independent gap r now x) x.count
        (subst (λ n. ltb n 2 ≡ false) (observe_entry-count gap r g now x) h) in
    elim (Bool-cases (other_generation e.last_generation g)) [
      | inl o ↦ absurd (omega (arith, counted, renew_entry-count g now e o))
      | inr o ↦
          let current = renew_entry_current g now e o in
          (
            subst (λ y. 1 ≤ y.count) current counted,
            o,
            subst (λ y. y.count ≡ 1 → is_independent gap r now y ≡ true) current confirmed,
          )
    ]

-- A rejection that was never seen counts once.
new_entry_unpromoted :
    (gap : ℕ) (r : Rejection) (g : Generation) (now : ℕ)
    → ltb (observe_entry gap r g now (renew_entry g now (new_entry now))).count 2 ≡ true
new_entry_unpromoted gap r g now = refl

entry_promotes :
    (l : Learning) (r : Rejection) (now : ℕ) (o : Option Entry)
    → lookup r.observation_key l.observations ≡ o
    → ltb
        (observe_entry l.observation_gap_ms r
          (generation_for r)
          now
          (renew_entry (generation_for r) now (or_else o (new_entry now)))).count
        2
      ≡ false
    → AllDated l
    → (e : Entry) × IsEvidence l r now e
entry_promotes l r now none found h d =
    cc (new_entry_unpromoted l.observation_gap_ms r (generation_for r) now)
entry_promotes l r now (some e) found h d =
    let (counted, current, confirmed) =
      promoted_entry l.observation_gap_ms r (generation_for r) now e h in
    let dated =
      All-In (λ (y : String × Entry). IsDated y.1) (r.observation_key, e) l.observations d
        (lookup-In r.observation_key e l.observations found) in
    let (g, known, same) =
      known_generation e.last_generation (generation_for r) (dated counted) current in
    (
      e,
      record {
        stored = found;
        counted = counted;
        generation = g;
        known = known;
        current = same;
        confirmed = confirmed;
      },
    )

abbrev pub is_promotion : Outcome → Bool
is_promotion (promote p) = true
is_promotion _ = false

promotes :
    (l : Learning) (r : Rejection) (now : ℕ)
    → AllDated l
    → is_promotion (observe l r now).1 ≡ true
    → (r.is_valid ≡ true)
      × (other_generation r.request_generation (generation_for r) ≡ false)
      × ((e : Entry) × IsEvidence l r now e)
unfolding observe
promotes l r now d h = elim (Bool-cases (not l.passive_enabled || not r.is_valid)) [
  | inl off ↦ cc (rw off at h)
  | inr on ↦ elim (Bool-cases (other_generation r.request_generation (generation_for r))) [
    | inl old ↦ cc (rw (on, old) at h)
    | inr current ↦ elim (Bool-cases (ltb (entry_after l r now).count 2)) [
      | inl few ↦ cc (rw (on, current, few) at h)
      | inr enough ↦ (
        ground arith,
        current,
        entry_promotes l r now (lookup r.observation_key l.observations) refl enough d,
      )
    ]
  ]
]

-- Whatever rejections a gateway has seen since it held no observation, it promotes a fact only on a
-- valid rejection for which there is earlier evidence that was counted under the account's present
-- generation; if that is a single observation, the rejection is independent of it. A request from
-- before the present generation promotes nothing.
pub observe-IsEvidence :
    (l : Learning) (rs : List (Rejection × ℕ)) (r : Rejection) (now : ℕ)
    → l.observations ≡ []
    → let l' = observe_all l rs in
      is_promotion (observe l' r now).1 ≡ true
      → (r.is_valid ≡ true)
        × (other_generation r.request_generation (generation_for r) ≡ false)
        × ((e : Entry) × IsEvidence l' r now e)
observe-IsEvidence l rs r now fresh h =
    promotes (observe_all l rs) r now
      (observe_all-AllDated l rs
        (subst (λ m. All (λ (x : String × Entry). IsDated x.1) m) (sym fresh) tt))
      h

abbrev pub IsBounded : Learning → Type 0
IsBounded l = HasDistinctKeys l.observations × (length l.observations ≤ 256)

learn-IsBounded : (l : Learning) (r : Rejection) (now : ℕ) → IsBounded l → IsBounded (learn l r now)
unfolding prune_observations
learn-IsBounded l r now (d, _) =
    let m = insert r.observation_key (entry_after l r now) l.observations in
    let distinct =
      insert-HasDistinctKeys r.observation_key (entry_after l r now) l.observations d in
    (
      evict-HasDistinctKeys (λ e. e.0) used_before 256 m distinct,
      length-evict (λ e. e.0) used_before 256 m distinct
          (All-of_In (λ e. e.0 ≡ e.0) m (λ e _. refl)),
    )

observe-IsBounded :
    (l : Learning) (r : Rejection) (now : ℕ) → IsBounded l → IsBounded (observe l r now).0
unfolding observe
observe-IsBounded l r now b =
    if_elim {A = Learning × Outcome} (λ s. IsBounded s.0) (not l.passive_enabled || not r.is_valid)
      (λ _. b)
      λ _.
        if_elim {A = Learning × Outcome} (λ s. IsBounded s.0)
          (other_generation r.request_generation (generation_for r)) (λ _. b)
          λ _.
            if_elim {A = Learning × Outcome} (λ s. IsBounded s.0)
              (ltb (entry_after l r now).count 2) (λ _. learn-IsBounded l r now b)
              (λ _. learn-IsBounded l r now b)

-- However many rejections follow one another, at most 256 observations are held, each under its own
-- key.
pub observe_all-IsBounded :
    (l : Learning) (rs : List (Rejection × ℕ)) → IsBounded l → IsBounded (observe_all l rs)
unfolding observe_all
observe_all-IsBounded l [] b = b
observe_all-IsBounded l ((r, now) ∷ rs) b =
    observe_all-IsBounded (observe l r now).0 rs (observe-IsBounded l r now b)
