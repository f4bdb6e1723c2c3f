-- ===== src/HostHealth/Guard.antt =====
-- `withCodexHostHealth`: one upstream operation under the breaker. Other requests run while the
-- operation is awaited: `during` is what they do to the breaker.
use codex_pooler.Prelude.{
  ℕ, ◌<◌, ◌≡◌, refl, ◌⊎◌, ◌≤◌, ◌+◌, ◌*◌, String, Bool, true, false, Option, none, some, arith, max,
  or_else, if◌then◌else◌,
}
use codex_pooler.Prelude.Table.{lookup}
use codex_pooler.HostHealth.{Health, Lease, Entry, opened, begin, settle_response, settle_error}
use codex_pooler.HostHealth.Circuit.{begin_blocked}

-- How the awaited operation ends; an error carries its proven pre-connect code, if it has one.
pub data Operation : Type 0 where
  responded : Operation
  threw : Option String → Operation

pub data Guarded : Type 0 where
  delivered : Guarded
  unavailable : ℕ → Guarded
  preconnect_failed : Option String → Guarded
  rethrown : Guarded

abbrev settle_lease : Health → Option Lease → ℕ → Health
settle_lease h none now = h
settle_lease h (some l) now = (settle_response h l now).0

-- `CodexHostUnavailableError` waits a second at least.
abbrev unavailable_for : Option ℕ → Guarded
unavailable_for r = unavailable (max 1 (or_else r 1))

module _ (locale_le : String → String → Bool) where
  settle_operation : Health → Option Lease → Operation → ℕ → Health × Guarded
  settle_operation h lease responded later = (settle_lease h lease later, delivered)
  settle_operation h lease (threw code) later =
      let (h', _, v) = settle_error locale_le h lease code later in
      (
        h',
        if v.preconnect
            then if v.is_open
              then unavailable_for v.retry_after_seconds
              else preconnect_failed v.code
            else rethrown,
      )

  pub with_codex_host_health :
      Health → Option String → ℕ → (Health → Health) → Operation → ℕ → Health × Guarded
  unfolding settle_operation
  with_codex_host_health h origin now during operation later =
      let (h', a) = begin locale_le h origin now in
      if a.admitted
      then settle_operation (during h') a.lease operation later
      else (h', unavailable_for a.retry_after_seconds)

  -- Under an open circuit the operation is not run: whatever it would give, and whatever happens
  -- meanwhile, the request fails as unavailable, with a wait that reaches the end of the cooldown.
  pub with_codex_host_health_blocked :
      (h : Health) (origin : String) (e : Entry) (now later : ℕ) (during : Health → Health)
      (operation : Operation)
      → h.config.enabled ≡ true
      → lookup origin h.entries ≡ some e
      → e.state ≡ opened
      → (now < e.open_until) ⊎ (e.probe_in_flight ≡ true)
      → (r : ℕ) × (with_codex_host_health h (some origin) now during operation later
          ≡ ((begin locale_le h (some origin) now).0, unavailable r))
        × (1 ≤ r)
        × (e.open_until ≤ now + r * 1000)
  unfolding with_codex_host_health
  with_codex_host_health_blocked h origin e now later during operation on found is_open blocked =
      let (refused, _, (r, wait, least, enough)) =
        begin_blocked locale_le h origin e now on found is_open blocked in
      (r, refuse r refused wait least, least, enough)
    where
      refuse :
          (r : ℕ)
          → (begin locale_le h (some origin) now).1.admitted ≡ false
          → (begin locale_le h (some origin) now).1.retry_after_seconds ≡ some r
          → 1 ≤ r
          → with_codex_host_health h (some origin) now during operation later
            ≡ ((begin locale_le h (some origin) now).0, unavailable r)
      refuse r a b c = ground arith

  no_code :
      (h : Health) (lease : Option Lease) (now : ℕ)
      → (settle_error locale_le h lease none now).2.preconnect ≡ false
  unfolding settle_error
  no_code h none now = refl
  no_code h (some l) now = refl

  -- A response always reaches the caller, and an error that is no proven pre-connect failure is
  -- thrown on as it is.
  pub with_codex_host_health_passes :
      (h : Health) (origin : Option String) (now later : ℕ) (during : Health → Health)
      → (begin locale_le h origin now).1.admitted ≡ true
      → ((with_codex_host_health h origin now during responded later).1 ≡ delivered)
        × ((with_codex_host_health h origin now during (threw none) later).1 ≡ rethrown)
  unfolding with_codex_host_health
  with_codex_host_health_passes h origin now later during ok = (
    ground arith,
    ground (
      arith,
      no_code (during (begin locale_le h origin now).0) (begin locale_le h origin now).1.lease
          later,
    ),
  )
