-- ===== src/HostHealth/Invariant.antt =====
-- What every call keeps true of the circuits, whatever leases it is given.
use codex_pooler.Prelude.{
  ℕ, suc, ◌+◌, ◌-◌, ◌≤◌, ◌<◌, ◌≡◌, refl, subst, ◌≢◌, ◌⊎◌, inl, inr, String, Bool, true, false, ◌&&◌,
  ◌||◌, Option, none, some, List, [], ◌∷◌, ◌++◌, arith, length, length-keep, length-drop, All,
  All-map_mono, ltb, leb, Option-cases, Bool-cases, if_elim, not, map, not-leb→lt,
}
use codex_pooler.Prelude.Table.{
  Table, lookup, insert, HasDistinctKeys, All-insert, All-update, All-lookup, length-update,
  insert-HasDistinctKeys, update-HasDistinctKeys, evict-HasDistinctKeys, All-evict, length-evict,
}
use codex_pooler.HostHealth.{
  Call, begins, responds, fails, releases, reconciles, step, run, Config, Entry, Lease, Admission,
  Health, closed, opened, older, prune, entry_for, fresh_entry, begin_entry, begin, current_entry,
  settle_response, release, failed_entry, count_failure, settle_error, reconcile, trim_failures,
  new_health, bounded_integer, is_opened, store_entry,
}

pub record IsEntry (c : Config) (bound : ℕ) (e : String × Entry) : Type 0 where
  pub keyed : e.1.origin ≡ e.0
  pub issued : e.1.generation < bound
  pub few : length e.1.failures ≤ c.failure_threshold
  pub closed_few : (e.1.state ≡ opened) ⊎ (length e.1.failures < c.failure_threshold)
  pub probing : (e.1.probe_in_flight ≡ false) ⊎ (e.1.state ≡ opened)

pub record Inv (h : Health) : Type 0 where
  pub threshold : 0 < h.config.failure_threshold
  pub distinct : HasDistinctKeys h.entries
  pub valid : All (IsEntry h.config h.next_generation) h.entries
  pub bounded : length h.entries ≤ h.config.max_entries

IsEntry-mono : {c : Config} {m n : ℕ} → m ≤ n → (e : String × Entry) → IsEntry c m e → IsEntry c n e
IsEntry-mono h e v = record {
  keyed = v.keyed;
  issued = omega arith;
  few = v.few;
  closed_few = v.closed_few;
  probing = v.probing;
}

IsEntry-self :
    {c : Config} {n : ℕ} {k : String} {e : Entry} → IsEntry c n (k, e) → IsEntry c n (e.origin, e)
IsEntry-self v = record {
  keyed = refl;
  issued = v.issued;
  few = v.few;
  closed_few = v.closed_few;
  probing = v.probing;
}

trim_failures-IsEntry :
    (c' c : Config) (n : ℕ) (k : String) (e : Entry) (now : ℕ)
    → IsEntry c n (k, e)
    → IsEntry c n (k, record (trim_failures c' e now) { last_used_at = now })
unfolding trim_failures
trim_failures-IsEntry c' c n k e now v =
    ground (arith, length-keep (λ t. leb now (t + c'.failure_window_ms) && leb t now) e.failures)

failed_entry-few :
    (c : Config) (e : Entry) (now : ℕ)
    → length (failed_entry c e now).failures ≤ c.failure_threshold
unfolding failed_entry
failed_entry-few c e now =
    let ts = (trim_failures c (record e { last_used_at = now }) now).failures ++ now ∷ [] in
    ground (arith, length-drop (length ts - c.failure_threshold) ts)

-- A write back of an entry keeps the invariant.
store_entry-Inv :
    (h : Health) (e : Entry)
    → Inv h
    → IsEntry h.config h.next_generation (e.origin, e)
    → Inv (store_entry h e)
store_entry-Inv h e v p = record {
  threshold = v.threshold;
  distinct = update-HasDistinctKeys e.origin e h.entries v.distinct;
  valid = All-update (IsEntry h.config h.next_generation) e.origin e h.entries p v.valid;
  bounded = omega (arith, length-update e.origin e h.entries, v.bounded);
}

-- A new generation is above all that were issued.
advance-Inv : (h : Health) → Inv h → Inv (record h { next_generation = suc h.next_generation })
advance-Inv h v = record {
  threshold = v.threshold;
  distinct = v.distinct;
  valid =
      All-map_mono (IsEntry h.config h.next_generation) (IsEntry h.config (suc h.next_generation))
        h.entries (IsEntry-mono (omega arith)) v.valid;
  bounded = v.bounded;
}

begin_entry-Inv :
    (h : Health) (e : Entry) (now : ℕ)
    → Inv h
    → IsEntry h.config h.next_generation (e.origin, e)
    → Inv (begin_entry h e now).0
unfolding begin_entry
begin_entry-Inv h e now v p = elim (Bool-cases (is_opened e.state)) [
  | inl o ↦ elim (Bool-cases (ltb now e.open_until || e.probe_in_flight)) [
    | inl b ↦ rw (o, b, begin_entry) (store_entry-Inv h e v p)
    | inr b ↦
        rw (o, b, begin_entry)
          (store_entry-Inv h (record e { probe_in_flight = true }) v (ground arith))
  ]
  | inr o ↦ rw (o, begin_entry) (store_entry-Inv h e v p)
]

current_entry-IsEntry :
    (h : Health) (l : Lease) (e : Entry)
    → Inv h
    → current_entry h l ≡ some e
    → IsEntry h.config h.next_generation (e.origin, e)
unfolding current_entry
current_entry-IsEntry h l e v c = elim (Option-cases (lookup l.origin h.entries)) [
  | inl p ↦ absurd (none_current p)
  | inr (e', p) ↦
      subst (λ x. IsEntry h.config h.next_generation (x.origin, x)) (same e' p)
        (IsEntry-self (All-lookup _ l.origin e' h.entries v.valid p))
]
  where
    none_current : lookup l.origin h.entries ≡ none → ⊥
    none_current p = ground arith

    same : (e' : Entry) → lookup l.origin h.entries ≡ some e' → e' ≡ e
    same e' p = ground arith

settle_response-Inv : (h : Health) (l : Lease) (now : ℕ) → Inv h → Inv (settle_response h l now).0
unfolding settle_response
settle_response-Inv h l now v = elim (Option-cases (current_entry h l)) [
  | inl p ↦ rw (p, settle_response) v
  | inr (e, p) ↦
      rw (p, settle_response)
        (store_entry-Inv (record h { next_generation = suc h.next_generation })
          (record e {
            state = closed;
            failures = [];
            open_until = 0;
            probe_in_flight = false;
            generation = h.next_generation;
            last_used_at = now;
          })
          (advance-Inv h v)
          (record {
            keyed = refl;
            issued = omega arith;
            few = omega arith;
            closed_few = inr v.threshold;
            probing = inl refl;
          }))
]

release-Inv : (h : Health) (l : Lease) (now : ℕ) → Inv h → Inv (release h l now).0
unfolding release
release-Inv h l now v = elim (Option-cases (current_entry h l)) [
  | inl p ↦ rw (p, release) v
  | inr (e, p) ↦
      rw (p, release) (store_entry-Inv h _ v (ground (arith, current_entry-IsEntry h l e v p)))
]

count_failure-Inv :
    (h : Health) (l : Lease) (e : Entry) (now : ℕ)
    → Inv h
    → IsEntry h.config h.next_generation (e.origin, e)
    → Inv (count_failure h l e now).0
      × IsEntry
          (count_failure h l e now).0.config
          (count_failure h l e now).0.next_generation
          ((count_failure h l e now).1.origin, (count_failure h l e now).1)
unfolding count_failure failed_entry
count_failure-Inv h l e now v p =
    let few = failed_entry-few h.config e now in
    if_elim {A = Health × Entry}
      (λ (r : Health × Entry). Inv r.0 × IsEntry r.0.config r.0.next_generation (r.1.origin, r.1))
      l.probe
      (λ _. (
        advance-Inv h v,
        record {
          keyed = refl;
          issued = omega arith;
          few = few;
          closed_few = inl refl;
          probing = inl refl;
        },
      ))
      λ _.
        if_elim {A = Health × Entry}
          (λ (r : Health × Entry).
            Inv r.0 × IsEntry r.0.config r.0.next_generation (r.1.origin, r.1))
          (leb h.config.failure_threshold (length (failed_entry h.config e now).failures))
          (λ _. (
            v,
            record {
              keyed = refl;
              issued = p.issued;
              few = few;
              closed_few = inl refl;
              probing = inl refl;
            },
          ))
          λ b. (
            v,
            record {
              keyed = refl;
              issued = p.issued;
              few = few;
              closed_few = inr (not-leb→lt _ _ b);
              probing = p.probing;
            },
          )

module _ (locale_le : String → String → Bool) where
  -- Pruning restores the bound.
  prune-Inv :
      (h : Health)
      → 0 < h.config.failure_threshold
      → HasDistinctKeys h.entries
      → All (IsEntry h.config h.next_generation) h.entries
      → Inv (prune locale_le h)
  unfolding prune
  prune-Inv h t d v = record {
    threshold = t;
    distinct =
        evict-HasDistinctKeys (λ e. e.1.origin) (older locale_le) h.config.max_entries h.entries d;
    valid =
        All-evict (λ e. e.1.origin) (older locale_le) h.config.max_entries
          (IsEntry h.config h.next_generation) h.entries v;
    bounded =
        length-evict (λ e. e.1.origin) (older locale_le) h.config.max_entries h.entries d
          (All-map_mono (IsEntry h.config h.next_generation) (λ e. e.1.origin ≡ e.0) h.entries
            (λ e p. p.keyed) v);
  }

  entry_for-Inv :
      (h : Health) (origin : String) (now : ℕ)
      → Inv h
      → Inv (entry_for locale_le h origin now).0
        × IsEntry
            (entry_for locale_le h origin now).0.config
            (entry_for locale_le h origin now).0.next_generation
            (origin, (entry_for locale_le h origin now).1)
        × ((entry_for locale_le h origin now).0.config ≡ h.config)
  unfolding entry_for prune
  entry_for-Inv h origin now v = elim (Option-cases (lookup origin h.entries)) [
    | inr (e, p) ↦ rw (p, entry_for) (v, All-lookup _ origin e h.entries v.valid p, refl)
    | inl p ↦
        let e = fresh_entry origin h.next_generation now in
        let fresh : IsEntry h.config (suc h.next_generation) (origin, e) = record {
          keyed = refl;
          issued = omega arith;
          few = omega arith;
          closed_few = inr v.threshold;
          probing = inl refl;
        } in
        rw (p, entry_for)
          (
            prune-Inv
                (record h {
                  entries = insert origin e h.entries;
                  next_generation = suc h.next_generation;
                })
                v.threshold (insert-HasDistinctKeys origin e h.entries v.distinct)
                (All-insert _ origin e h.entries fresh (advance-Inv h v).valid),
            fresh,
            refl,
          )
  ]

  begin-Inv :
      (h : Health) (origin : Option String) (now : ℕ) → Inv h → Inv (begin locale_le h origin now).0
  unfolding begin
  begin-Inv h none now v = v
  begin-Inv h (some origin) now v =
      let (w, p, _) = entry_for-Inv h origin now v in
      if_elim {A = Health × Admission} (λ r. Inv r.0) (not h.config.enabled) (λ _. v)
        λ _.
          begin_entry-Inv (entry_for locale_le h origin now).0
            (record (trim_failures h.config (entry_for locale_le h origin now).1 now) {
              last_used_at = now;
            })
            now w
            (IsEntry-self (
              trim_failures-IsEntry h.config (entry_for locale_le h origin now).0.config _ origin _
                now p))

  settle_error-Inv :
      (h : Health) (l : Option Lease) (code : Option String) (now : ℕ)
      → Inv h
      → Inv (settle_error locale_le h l code now).0
  unfolding settle_error
  settle_error-Inv h none code now v = v
  settle_error-Inv h (some l) none now v = release-Inv h l now v
  settle_error-Inv h (some l) (some code) now v = elim (Option-cases (current_entry h l)) [
    | inl p ↦ rw (p, settle_error) v
    | inr (e, p) ↦
        let (w, q) = count_failure-Inv h l e now v (current_entry-IsEntry h l e v p) in
        let s = store_entry-Inv (count_failure h l e now).0 (count_failure h l e now).1 w q in
        rw (p, settle_error) (prune-Inv _ s.threshold s.distinct s.valid)
  ]

  map_trim-HasDistinctKeys :
      (c : Config) (now : ℕ) (m : Table Entry)
      → HasDistinctKeys m
      → HasDistinctKeys (map (λ e. (e.0, trim_failures c e.1 now)) m)
  map_trim-HasDistinctKeys c now [] d = tt
  map_trim-HasDistinctKeys c now ((k, e) ∷ m) d =
      (apart m d.0, map_trim-HasDistinctKeys c now m d.1)
    where
      apart :
          (m : Table Entry)
          → All (λ e. k ≢ e.0) m
          → All {A = String × Entry} (λ e. k ≢ e.0) (map (λ e. (e.0, trim_failures c e.1 now)) m)
      apart [] h = tt
      apart ((j, e) ∷ m) h = (h.0, apart m h.1)

  map_trim-IsEntry :
      (c : Config) (n now : ℕ) (m : Table Entry)
      → All (IsEntry c n) m
      → All (IsEntry c n) (map (λ e. (e.0, trim_failures c e.1 now)) m)
  unfolding trim_failures
  map_trim-IsEntry c n now [] v = tt
  map_trim-IsEntry c n now ((k, e) ∷ m) (v, vs) = (
    ground (arith, length-keep (λ t. leb now (t + c.failure_window_ms) && leb t now) e.failures),
    map_trim-IsEntry c n now m vs,
  )

  reconcile-Inv : (h : Health) (now : ℕ) → Inv h → Inv (reconcile locale_le h now)
  unfolding reconcile
  reconcile-Inv h now v =
      prune-Inv (record h { entries = map (λ e. (e.0, trim_failures h.config e.1 now)) h.entries })
        v.threshold (map_trim-HasDistinctKeys h.config now h.entries v.distinct)
        (map_trim-IsEntry h.config h.next_generation now h.entries v.valid)

  pub step-Inv : (h : Health) (c : Call) → Inv h → Inv (step locale_le h c)
  unfolding step
  step-Inv h (begins origin now) v = begin-Inv h origin now v
  step-Inv h (responds l now) v = settle_response-Inv h l now v
  step-Inv h (fails l code now) v = settle_error-Inv h l code now v
  step-Inv h (releases l now) v = release-Inv h l now v
  step-Inv h (reconciles now) v = reconcile-Inv h now v

  run-Inv : (h : Health) (cs : List Call) → Inv h → Inv (run locale_le h cs)
  unfolding run
  run-Inv h [] v = v
  run-Inv h (c ∷ cs) v = run-Inv (step locale_le h c) cs (step-Inv h c v)

bounded_integer_bounds :
    (n : Option ℕ) (fallback lo hi : ℕ)
    → lo ≤ fallback
    → fallback ≤ hi
    → (lo ≤ bounded_integer n fallback lo hi) × (bounded_integer n fallback lo hi ≤ hi)
unfolding bounded_integer
bounded_integer_bounds none fallback lo hi p q = (p, q)
bounded_integer_bounds (some n) fallback lo hi p q = ground arith

new_health-Inv : (enabled : Bool) (a b c d e : Option ℕ) → Inv (new_health enabled a b c d e)
unfolding new_health
new_health-Inv enabled a b c d e = record {
  threshold = (bounded_integer_bounds a 2 1 10 (omega arith) (omega arith)).0;
  distinct = tt;
  valid = tt;
  bounded = omega arith;
}

-- From a new circuit breaker, whatever its options, every sequence of calls keeps the entries under
-- their own origins, at most `max_entries` of them, with generations already issued and at most
-- `failure_threshold` failures each; fewer where the circuit is closed, and a probe in flight only
-- where it is open. The leases handed in may be any.
pub run-new_health-Inv :
    (locale_le : String → String → Bool) (enabled : Bool) (a b c d e : Option ℕ) (cs : List Call)
    → Inv (run locale_le (new_health enabled a b c d e) cs)
run-new_health-Inv locale_le enabled a b c d e cs =
    run-Inv locale_le (new_health enabled a b c d e) cs (new_health-Inv enabled a b c d e)
