-- ===== src/HostHealth.antt =====
-- node/src/codex-host-health.js: the circuit in front of each Codex origin. Times are milliseconds
-- in ℕ; `now - window` is compared by adding the window to the other side. An origin comes
-- normalised (`new URL` is the platform's), `none` where it is no http or ws address.
pub mod Cause
pub mod Invariant
pub mod Circuit
pub mod Guard
mod Tests
use codex_pooler.Prelude.{
  ℕ, suc, ◌+◌, ◌-◌, ◌/◌, max, String, Bool, true, false, not, ◌&&◌, ◌||◌, Option, none, some, List,
  [], ◌∷◌, ◌++◌, map, length, drop, keep, ltb, leb, ◌==◌, if◌then◌else◌, is_some,
}
use codex_pooler.Prelude.Table.{Table, lookup, insert, update, evict}

-- `boundedInteger`: `none` stands for a value that is no integer.
pub bounded_integer : Option ℕ → ℕ → ℕ → ℕ → ℕ
bounded_integer none fallback lo hi = fallback
bounded_integer (some n) fallback lo hi = if leb lo n && leb n hi then n else fallback

pub record Config : Type 0 where
  pub enabled : Bool
  pub failure_threshold : ℕ
  pub failure_window_ms : ℕ
  pub cooldown_ms : ℕ
  pub max_entries : ℕ
  pub max_cause_depth : ℕ

pub data HostState : Type 0 where
  closed opened : HostState

pub record Entry : Type 0 where
  pub origin : String
  pub generation : ℕ
  pub state : HostState
  pub failures : List ℕ
  pub open_until : ℕ
  pub probe_in_flight : Bool
  pub last_used_at : ℕ

pub record Lease : Type 0 where
  pub origin : String
  pub generation : ℕ
  pub probe : Bool
  pub settled : Bool

pub record Health : Type 0 where
  pub config : Config
  pub entries : Table Entry
  pub next_generation : ℕ

pub record Admission : Type 0 where
  pub admitted : Bool
  pub lease : Option Lease
  pub retry_after_seconds : Option ℕ

-- What `settleError` returns; `stale` is absent, so false, but for a lease out of date.
pub record Verdict : Type 0 where
  pub preconnect : Bool
  pub code : Option String
  pub is_open : Bool
  pub stale : Bool
  pub retry_after_seconds : Option ℕ

-- The constructor, with an option that is not given or is no integer as `none`.
pub new_health : Bool → Option ℕ → Option ℕ → Option ℕ → Option ℕ → Option ℕ → Health
unfolding bounded_integer
new_health enabled threshold window cooldown entries depth = record {
  config = record {
    enabled = enabled;
    failure_threshold = bounded_integer threshold 2 1 10;
    failure_window_ms = bounded_integer window 30000 1000 300000;
    cooldown_ms = bounded_integer cooldown 15000 1000 300000;
    max_entries = bounded_integer entries 32 1 256;
    max_cause_depth = bounded_integer depth 5 1 10;
  };
  entries = [];
  next_generation = 1;
}

unfoldable pub retry_after_seconds : Entry → ℕ → ℕ
retry_after_seconds e now = max 1 ((e.open_until - now + 999) / 1000)

unfoldable pub lease_for : Entry → Bool → Lease
lease_for e probe = record {
  origin = e.origin;
  generation = e.generation;
  probe = probe;
  settled = false;
}

abbrev pub is_opened : HostState → Bool
is_opened opened = true
is_opened closed = false

unfoldable pub trim_failures : Config → Entry → ℕ → Entry
trim_failures c e now = record e {
  failures = keep (λ t. leb now (t + c.failure_window_ms) && leb t now) e.failures;
}

abbrev fresh_entry : String → ℕ → ℕ → Entry
fresh_entry origin generation now = record {
  origin = origin;
  generation = generation;
  state = closed;
  failures = [];
  open_until = 0;
  probe_in_flight = false;
  last_used_at = now;
}

-- A write to the entry's fields reaches the map only while the entry stands in it.
abbrev pub store_entry : Health → Entry → Health
store_entry h e = record h { entries = update e.origin e h.entries }

pub begin_entry : Health → Entry → ℕ → Health × Admission
begin_entry h e now =
    if is_opened e.state
    then if ltb now e.open_until || e.probe_in_flight
      then (
        store_entry h e,
        record {
          admitted = false;
          lease = none;
          retry_after_seconds = some (retry_after_seconds e now);
        },
      )
      else (
        store_entry h (record e { probe_in_flight = true }),
        record { admitted = true; lease = some (lease_for e true); retry_after_seconds = none },
      )
    else (
      store_entry h e,
      record { admitted = true; lease = some (lease_for e false); retry_after_seconds = none },
    )

-- `currentLease`, with the entry that the lease is good for.
pub current_entry : Health → Lease → Option Entry
current_entry h l = elim (lookup l.origin h.entries) [
  | none ↦ none
  | some e ↦ if not l.settled && e.generation == l.generation then some e else none
]

-- Each settlement returns the lease, whose `settled` it may have set.
pub settle_response : Health → Lease → ℕ → Health × Lease × Bool
settle_response h l now = elim (current_entry h l) [
  | none ↦ (h, l, false)
  | some e ↦ (
    record (store_entry h (record e {
      state = closed;
      failures = [];
      open_until = 0;
      probe_in_flight = false;
      generation = h.next_generation;
      last_used_at = now;
    })) { next_generation = suc h.next_generation },
    record l { settled = true },
    true,
  )
]

pub release : Health → Lease → ℕ → Health × Lease × Bool
release h l now = elim (current_entry h l) [
  | none ↦ (h, l, false)
  | some e ↦ (
    store_entry h (record e {
      probe_in_flight = if l.probe then false else e.probe_in_flight;
      last_used_at = now;
    }),
    record l { settled = true },
    true,
  )
]

-- `failures.slice(-threshold)` once there are more.
abbrev pub last_failures : ℕ → List ℕ → List ℕ
last_failures n ts = if ltb n (length ts) then drop (length ts - n) ts else ts

unfoldable pub failed_entry : Config → Entry → ℕ → Entry
unfolding trim_failures
failed_entry c e now = record e {
  failures =
      last_failures c.failure_threshold
        ((trim_failures c (record e { last_used_at = now }) now).failures ++ now ∷ []);
  last_used_at = now;
}

abbrev pub open_entry : Config → Entry → ℕ → Entry
open_entry c e now = record e {
  state = opened;
  open_until = now + c.cooldown_ms;
  probe_in_flight = false;
}

-- The middle of `settleError`: a failed probe reopens, enough failures open.
pub count_failure : Health → Lease → Entry → ℕ → Health × Entry
count_failure h l e now =
    let failed = failed_entry h.config e now in
    if l.probe
    then (
      record h { next_generation = suc h.next_generation },
      open_entry h.config (record failed { generation = h.next_generation }) now,
    )
    else if leb h.config.failure_threshold (length failed.failures)
    then (h, open_entry h.config failed now)
    else (h, failed)

abbrev no_verdict : Verdict
no_verdict = record {
  preconnect = false;
  code = none;
  is_open = false;
  stale = false;
  retry_after_seconds = none;
}

-- A call on the breaker, with the time at which it is made.
pub data Call : Type 0 where
  begins : Option String → ℕ → Call
  responds releases : Lease → ℕ → Call
  fails : Option Lease → Option String → ℕ → Call
  reconciles : ℕ → Call

-- `localeCompare(left, right) <= 0` on two origins is the platform's.
module _ (locale_le : String → String → Bool) where
  abbrev pub older : String × Entry → String × Entry → Bool
  older a b =
      ltb a.1.last_used_at b.1.last_used_at
      || a.1.last_used_at == b.1.last_used_at && locale_le a.1.origin b.1.origin

  unfoldable pub prune : Health → Health
  prune h = record h { entries = evict (λ e. e.1.origin) older h.config.max_entries h.entries }

  -- `entryFor`: the entry stays at hand, even if the pruning has just dropped it.
  pub entry_for : Health → String → ℕ → Health × Entry
  entry_for h origin now = elim (lookup origin h.entries) [
    | some e ↦ (h, e)
    | none ↦
        let e = fresh_entry origin h.next_generation now in
        (
          prune (record h {
            entries = insert origin e h.entries;
            next_generation = suc h.next_generation;
          }),
          e,
        )
  ]

  pub begin : Health → Option String → ℕ → Health × Admission
  begin h none now = (h, record { admitted = true; lease = none; retry_after_seconds = none })
  begin h (some origin) now =
      if not h.config.enabled
      then (h, record { admitted = true; lease = none; retry_after_seconds = none })
      else let (h', e) = entry_for h origin now in
        begin_entry h' (record (trim_failures h.config e now) { last_used_at = now }) now

  -- `code` is the proven pre-connect code of the error, `none` if it has none or was blocked.
  pub settle_error : Health → Option Lease → Option String → ℕ → Health × Option Lease × Verdict
  settle_error h none code now = (h, none, no_verdict)
  settle_error h (some l) none now = let r = release h l now in (r.0, some r.1, no_verdict)
  settle_error h (some l) (some code) now = elim (current_entry h l) [
    | none ↦ (h, some l, record no_verdict { preconnect = true; code = some code; stale = true })
    | some e ↦
        let (h', e') = count_failure h l e now in
        (
          prune (store_entry h' e'),
          some (record l { settled = true }),
          record no_verdict {
            preconnect = true;
            code = some code;
            is_open = is_opened e'.state;
            retry_after_seconds =
                if is_opened e'.state then some (retry_after_seconds e' now) else none;
          },
        )
  ]

  pub reconcile : Health → ℕ → Health
  reconcile h now =
      prune (record h { entries = map (λ e. (e.0, trim_failures h.config e.1 now)) h.entries })

  pub step : Health → Call → Health
  step h (begins origin now) = (begin h origin now).0
  step h (responds l now) = (settle_response h l now).0
  step h (releases l now) = (release h l now).0
  step h (fails l code now) = (settle_error h l code now).0
  step h (reconciles now) = reconcile h now

  pub run : Health → List Call → Health
  run h [] = h
  run h (c ∷ cs) = run (step h c) cs
