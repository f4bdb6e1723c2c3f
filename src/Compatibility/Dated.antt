-- ===== src/Compatibility/Dated.antt =====
-- node/src/compatibility-learning.js: observations that count are dated by a generation.
use codex_pooler.Prelude.{
  ℕ, ◌≤◌, ◌≡◌, refl, true, false, not, ◌||◌, Option, none, some, List, [], ◌∷◌, arith, ltb, if_elim,
  or_else, inl, inr, All, All-In, String, is_some, Option-cases,
}
use codex_pooler.Prelude.Table.{Table, All-insert, All-evict, lookup-In, lookup, insert}
use codex_pooler.Compatibility.{
  Generation, same_generation, entry_before, Entry, Learning, Rejection, Outcome, generation_for,
  other_generation, new_entry, renew_entry, is_independent, observe_entry, used_before,
  prune_observations, entry_after, learn, observe, observe_all,
}

-- Whatever was counted is dated by the generation of the account that it was counted under.
abbrev pub IsDated : Entry → Type 0
IsDated e = 1 ≤ e.count → is_some e.last_generation ≡ true

abbrev pub AllDated : Learning → Type 0
AllDated l = All (λ (x : String × Entry). IsDated x.1) l.observations

new_entry-IsDated : (now : ℕ) → IsDated (new_entry now)
new_entry-IsDated now h = absurd (omega (arith, h))

renew_entry-IsDated :
    (g : Generation) (now : ℕ) (e : Entry) → IsDated e → IsDated (renew_entry g now e)
renew_entry-IsDated g now e d =
    if_elim {A = Entry} IsDated (other_generation e.last_generation g)
      (λ _ h. absurd (omega (arith, h))) (λ _. d)

observe_entry-IsDated :
    (gap : ℕ) (r : Rejection) (g : Generation) (now : ℕ) (e : Entry)
    → IsDated e
    → IsDated (observe_entry gap r g now e)
observe_entry-IsDated gap r g now e d =
    if_elim {A = Entry} IsDated (is_independent gap r now e) (λ _ _. refl) (λ _. d)

stored-IsDated :
    (key : String) (now : ℕ) (m : Table Entry)
    → All (λ (x : String × Entry). IsDated x.1) m
    → IsDated (or_else (lookup key m) (new_entry now))
stored-IsDated key now m d = elim (Option-cases (lookup key m)) [
  | inl e ↦ rw e (new_entry-IsDated now)
  | inr (x, e) ↦
      rw e (All-In (λ (y : String × Entry). IsDated y.1) (key, x) m d (lookup-In key x m e))
]

learn-AllDated : (l : Learning) (r : Rejection) (now : ℕ) → AllDated l → AllDated (learn l r now)
unfolding prune_observations
learn-AllDated l r now d =
    All-evict (λ e. e.0) used_before 256 (λ (x : String × Entry). IsDated x.1)
      (insert r.observation_key (entry_after l r now) l.observations)
      (All-insert (λ (x : String × Entry). IsDated x.1) r.observation_key (entry_after l r now)
        l.observations
        (observe_entry-IsDated l.observation_gap_ms r (generation_for r) now (entry_before l r now)
          (renew_entry-IsDated (generation_for r) now
            (or_else (lookup r.observation_key l.observations) (new_entry now))
            (stored-IsDated r.observation_key now l.observations d)))
        d)

observe-AllDated :
    (l : Learning) (r : Rejection) (now : ℕ) → AllDated l → AllDated (observe l r now).0
unfolding observe
observe-AllDated l r now b =
    if_elim {A = Learning × Outcome} (λ s. AllDated s.0) (not l.passive_enabled || not r.is_valid)
      (λ _. b)
      λ _.
        if_elim {A = Learning × Outcome} (λ s. AllDated s.0)
          (other_generation r.request_generation (generation_for r)) (λ _. b)
          λ _.
            if_elim {A = Learning × Outcome} (λ s. AllDated s.0) (ltb (entry_after l r now).count 2)
              (λ _. learn-AllDated l r now b) (λ _. learn-AllDated l r now b)

pub observe_all-AllDated :
    (l : Learning) (rs : List (Rejection × ℕ)) → AllDated l → AllDated (observe_all l rs)
unfolding observe_all
observe_all-AllDated l [] d = d
observe_all-AllDated l ((r, now) ∷ rs) d =
    observe_all-AllDated (observe l r now).0 rs (observe-AllDated l r now d)

pub known_generation :
    (o : Option Generation) (g : Generation)
    → is_some o ≡ true
    → other_generation o g ≡ false
    → (h : Generation) × (o ≡ some h) × (same_generation h g ≡ true)
known_generation none g h current = cc
known_generation (some x) g h current = (x, refl, ground arith)
