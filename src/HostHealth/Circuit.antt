-- ===== src/HostHealth/Circuit.antt =====
-- What the circuit promises: blocking while open, one probe at a time, leases good for one
-- generation, opening at the threshold.
use codex_pooler.Prelude.{
  ℕ, ◌+◌, ◌-◌, ◌*◌, ◌/◌, ◌≤◌, ◌<◌, ◌≡◌, refl, sym, ap, subst, ◌∙◌, ◌⊎◌, inl, inr, String, Bool,
  true, false, ◌&&◌, none, some, List, [], ◌∷◌, ◌++◌, arith, length, keep, leb, Option-cases,
  eq_iff, max, length-append, length-drop,
}
use codex_pooler.Prelude.Table.{
  Table, lookup, update, lookup-update, All-lookup, lookup_of_evict, str_eq_refl,
}
use codex_pooler.HostHealth.{
  Entry, Lease, Health, closed, opened, older, prune, entry_for, begin_entry, begin, current_entry,
  settle_response, settle_error, count_failure, failed_entry, release, trim_failures,
  retry_after_seconds, store_entry, lease_for,
}
use codex_pooler.HostHealth.Invariant.{Inv, IsEntry}

lookup-update_self :
    (k : String) (e e' : Entry) (m : Table Entry)
    → lookup k m ≡ some e
    → lookup k (update k e' m) ≡ some e'
lookup-update_self k e e' m p = rw (lookup-update k k e' m, str_eq_refl k, p) refl

module _ (locale_le : String → String → Bool) where
  -- While the circuit of an origin is open and its cooldown runs, or a probe is out, every request
  -- to it is refused, with a wait of at least a second that does not end before the cooldown.
  pub begin_blocked :
      (h : Health) (origin : String) (e : Entry) (now : ℕ)
      → h.config.enabled ≡ true
      → lookup origin h.entries ≡ some e
      → e.state ≡ opened
      → (now < e.open_until) ⊎ (e.probe_in_flight ≡ true)
      → let a = (begin locale_le h (some origin) now).1 in
        (a.admitted ≡ false)
        × (a.lease ≡ none)
        × ((r : ℕ) × (a.retry_after_seconds ≡ some r) × (1 ≤ r) × (e.open_until ≤ now + r * 1000))
  unfolding begin entry_for begin_entry trim_failures retry_after_seconds
  begin_blocked h origin e now on found is_open blocked = (
    ground arith,
    ground arith,
    (max 1 ((e.open_until - now + 999) / 1000), ground arith, omega arith, omega arith),
  )

  begin_found :
      (h : Health) (origin : String) (e : Entry) (now : ℕ)
      → h.config.enabled ≡ true
      → lookup origin h.entries ≡ some e
      → begin locale_le h (some origin) now
        ≡ begin_entry h (record (trim_failures h.config e now) { last_used_at = now }) now
  unfolding begin entry_for
  begin_found h origin e now on found = ground arith

  -- Where the breaker is on, an origin's circuit is open and its time is over, with no probe out, a
  -- request is let through as the probe. The next request to that origin, on the state that this leaves, does not get through,
  -- at whatever time it comes.
  pub begin_one_probe :
      (h : Health) (origin : String) (e : Entry) (now later : ℕ)
      → h.config.enabled ≡ true
      → lookup origin h.entries ≡ some e
      → e.origin ≡ origin
      → e.state ≡ opened
      → e.open_until ≤ now
      → e.probe_in_flight ≡ false
      → let r = begin locale_le h (some origin) now in
        (r.1.lease ≡ some (lease_for e true))
        × ((begin locale_le r.0 (some origin) later).1.admitted ≡ false)
  unfolding begin_entry trim_failures lease_for
  begin_one_probe h origin e now later on found here is_open over free =
      let e' = record (trim_failures h.config e now) { last_used_at = now } in
      let probing = record e' { probe_in_flight = true } in
      let first : begin locale_le h (some origin) now ≡ (
        store_entry h probing,
        record { admitted = true; lease = some (lease_for e' true); retry_after_seconds = none },
      ) =
        begin_found h origin e now on found ∙ ground arith in
      let kept : lookup origin (store_entry h probing).entries ≡ some probing =
        subst (λ k. lookup origin (update k probing h.entries) ≡ some probing) (sym here)
          (lookup-update_self origin e probing h.entries found) in
      rw first (
        refl,
        (begin_blocked (store_entry h probing) origin probing later on kept is_open (inr refl)).0,
      )

-- A lease is no longer current once its origin has a newer generation.
not_current :
    (h : Health) (l : Lease) (e : Entry)
    → lookup l.origin h.entries ≡ some e
    → l.generation < e.generation
    → current_entry h l ≡ none
unfolding current_entry
not_current h l e found newer = rw (found, current_entry) (ground arith)

-- The entry of a lease that is current.
current_entry-lookup :
    (h : Health) (l : Lease) (e : Entry)
    → current_entry h l ≡ some e
    → (lookup l.origin h.entries ≡ some e) × (e.generation ≡ l.generation) × (l.settled ≡ false)
unfolding current_entry
current_entry-lookup h l e c = elim (Option-cases (lookup l.origin h.entries)) [
  | inl p ↦ absurd (none_current p)
  | inr (e', p) ↦ (ground arith, ground arith, ground arith)
]
  where
    none_current : lookup l.origin h.entries ≡ none → ⊥
    none_current p = ground arith

-- A lease out of date settles nothing.
stale_lease :
    (locale_le : String → String → Bool) (h : Health) (l : Lease) (now : ℕ)
    → current_entry h l ≡ none
    → (settle_response h l now ≡ (h, l, false))
      × (release h l now ≡ (h, l, false))
      × ((code : String)
          → ((settle_error locale_le h (some l) (some code) now).0 ≡ h)
            × ((settle_error locale_le h (some l) (some code) now).2.stale ≡ true))
unfolding settle_response release settle_error
stale_lease locale_le h l now p = (
  rw (p, settle_response) refl,
  rw (p, release) refl,
  λ code. (rw (p, settle_error) refl, rw (p, settle_error) refl),
)

abbrev closed_entry : Health → Entry → ℕ → Entry
closed_entry h e now = record e {
  state = closed;
  failures = [];
  open_until = 0;
  probe_in_flight = false;
  generation = h.next_generation;
  last_used_at = now;
}

after_response :
    (h : Health) (l : Lease) (e : Entry) (now : ℕ)
    → Inv h
    → current_entry h l ≡ some e
    → lookup l.origin (settle_response h l now).0.entries ≡ some (closed_entry h e now)
unfolding settle_response
after_response h l e now v c =
    let p = (current_entry-lookup h l e c).0 in
    let k =
      (All-lookup (IsEntry h.config h.next_generation) l.origin e h.entries v.valid p).keyed in
    rw (c, settle_response)
      (subst
        (λ o.
          lookup l.origin (update o (closed_entry h e now) h.entries) ≡ some (closed_entry h e now))
        (sym k) (lookup-update_self l.origin e (closed_entry h e now) h.entries p))

-- A response settles a lease once: the circuit is closed with no failures, and every lease of the
-- same origin that was handed out before, a probe or not, is then refused by every settlement, which
-- leaves the breaker as it is.
pub settle_response_once :
    (locale_le : String → String → Bool) (h : Health) (l other : Lease) (e : Entry) (now later : ℕ)
    → Inv h
    → current_entry h l ≡ some e
    → other.origin ≡ l.origin
    → other.generation < h.next_generation
    → let h' = (settle_response h l now).0 in
      ((e' : Entry) × (lookup l.origin h'.entries ≡ some e')
        × (e'.state ≡ closed)
        × (e'.failures ≡ []))
      × (settle_response h' other later ≡ (h', other, false))
      × (release h' other later ≡ (h', other, false))
      × ((code : String)
          → ((settle_error locale_le h' (some other) (some code) later).0 ≡ h')
            × ((settle_error locale_le h' (some other) (some code) later).2.stale ≡ true))
settle_response_once locale_le h l other e now later v c same old =
    let kept = after_response h l e now v c in
    let stale =
      not_current (settle_response h l now).0 other (closed_entry h e now)
        (subst (λ o. lookup o (settle_response h l now).0.entries ≡ some (closed_entry h e now))
          (sym same) kept)
        old in
    let (a, b, f) = stale_lease locale_le (settle_response h l now).0 other later stale in
    ((closed_entry h e now, kept, refl, refl), a, b, f)

-- The failures that still count at a time: those within the window.
abbrev pub recent : Health → Entry → ℕ → List ℕ
recent h e now = keep (λ t. leb now (t + h.config.failure_window_ms) && leb t now) e.failures

failed_entry-length :
    (h : Health) (e : Entry) (now : ℕ)
    → h.config.failure_threshold ≤ length (recent h e now) + 1
    → h.config.failure_threshold ≤ length (failed_entry h.config e now).failures
unfolding failed_entry trim_failures
failed_entry-length h e now enough =
    let ts = recent h e now ++ now ∷ [] in
    ground (
      arith,
      length-append (recent h e now) (now ∷ []),
      length-drop (length ts - h.config.failure_threshold) ts,
    )

failed_entry-origin :
    (h : Health) (e : Entry) (now : ℕ) → (failed_entry h.config e now).origin ≡ e.origin
unfolding failed_entry
failed_entry-origin h e now = refl

-- What a failure that opens the circuit leaves of the entry.
record Opens (h : Health) (origin : String) (now : ℕ) (r : Health × Entry) : Type 0 where
  entries : r.0.entries ≡ h.entries
  enabled : r.0.config.enabled ≡ h.config.enabled
  at_origin : r.1.origin ≡ origin
  state : r.1.state ≡ opened
  until : r.1.open_until ≡ now + h.config.cooldown_ms

count_failure-Opens :
    (h : Health) (l : Lease) (e : Entry) (now : ℕ)
    → (l.probe ≡ true) ⊎ (h.config.failure_threshold ≤ length (recent h e now) + 1)
    → Opens h e.origin now (count_failure h l e now)
unfolding count_failure
count_failure-Opens h l e now reached =
    ground (arith, failed_entry-origin h e now, failed_entry-length h e now)

pruned_entry :
    (locale_le : String → String → Bool) (h : Health) (origin : String) (e x : Entry)
    → e.origin ≡ origin
    → lookup origin (prune locale_le (store_entry h e)).entries ≡ some x
    → x ≡ e
unfolding prune
pruned_entry locale_le h origin e x same found =
    let kept =
      lookup_of_evict (λ y. y.1.origin) (older locale_le) h.config.max_entries origin x
        (update e.origin e h.entries) found in
    ground (arith, lookup-update e.origin origin e h.entries, eq_iff e.origin origin)

prune-enabled :
    (locale_le : String → String → Bool) (h : Health)
    → (prune locale_le h).config.enabled ≡ h.config.enabled
unfolding prune
prune-enabled locale_le h = refl

-- A pre-connect failure that reaches the threshold within the window, or any failed probe, opens the
-- circuit: the verdict says so, and the origin's entry, unless it was evicted, blocks every request
-- until the cooldown is over.
pub settle_error_opens :
    (locale_le : String → String → Bool) (h : Health) (l : Lease) (e : Entry) (code : String)
    (now later : ℕ)
    → Inv h
    → h.config.enabled ≡ true
    → current_entry h l ≡ some e
    → (l.probe ≡ true) ⊎ (h.config.failure_threshold ≤ length (recent h e now) + 1)
    → later < now + h.config.cooldown_ms
    → let r = settle_error locale_le h (some l) (some code) now in
      (r.2.is_open ≡ true)
      × ((e' : Entry)
          → lookup l.origin r.0.entries ≡ some e'
          → (begin locale_le r.0 (some l.origin) later).1.admitted ≡ false)
unfolding settle_error
settle_error_opens locale_le h l e code now later v on c reached soon =
    let (h', e') = count_failure h l e now in
    let o = count_failure-Opens h l e now reached in
    let p = (current_entry-lookup h l e c).0 in
    let k =
      (All-lookup (IsEntry h.config h.next_generation) l.origin e h.entries v.valid p).keyed in
    rw (c, settle_error)
      (
        rw o.state refl,
        λ x found.
            let same = pruned_entry locale_le h' l.origin e' x (o.at_origin ∙ k) found in
            (begin_blocked locale_le (prune locale_le (store_entry h' e')) l.origin x later
              (prune-enabled locale_le (store_entry h' e') ∙ o.enabled ∙ on) found
              (ap (λ (y : Entry). y.state) same ∙ o.state)
              (inl (
                subst (λ (n : ℕ). later < n) (sym (ap (λ (y : Entry). y.open_until) same ∙ o.until))
                  soon))).0,
      )
