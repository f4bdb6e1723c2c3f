-- ===== src/Pricing/Cost.antt =====
-- What a price is made of.
use codex_pooler.Prelude.{
  ℕ, ◌+◌, ◌≤◌, ◌<◌, ◌≡◌, String, Option, none, some, List, ◌*◌, first_some, min,
}
use codex_pooler.Prelude.Table.{lookup}
use codex_pooler.Pricing.{
  Row, Usage, Parts, count, complete_usage, parts_of, resolve_price, billed_tier, max_safe_integer,
}

-- A kind of tokens has a rate where there are any of it.
abbrev pub IsRated : ℕ → Option ℕ → ℕ → Type 0
IsRated tokens none rate = tokens ≡ 0
IsRated tokens (some r) rate = rate ≡ r

-- The rates that a cost is made with: each kind of tokens counts with its own, and the exact sum is
-- rounded, a half upwards.
abbrev pub IsCost : Row → String → Parts → ℕ → Type 0
IsCost r ttl p cost =
    (read : ℕ) × (write : ℕ) × (write_1h : ℕ) × IsRated p.cached r.cached_input read
    × IsRated p.written (first_some r.cache_write (lookup ttl r.cache_write_rates)) write
    × IsRated p.written_1h
        (first_some (lookup "1h" r.cache_write_rates)
          (first_some r.cache_write (lookup ttl r.cache_write_rates)))
        write_1h
    × (let exact =
          p.standard_input * r.input
          + p.cached * read
          + p.written * write
          + p.written_1h * write_1h
          + p.output * r.output in
        (10000 * cost ≤ exact + 5000) × (exact + 5000 < 10000 * cost + 10000))

-- What a bill says: the row it is made with, and that each token of the usage is billed once, each
-- kind at a rate that the row has.
abbrev pub IsBill :
    List Row → List String → Usage → Option ℕ → Option String → String → ℕ → Row → Type 0
IsBill prices candidates u started_at requested ttl cost r =
    (i : ℕ) × (o : ℕ) × (at : ℕ) × (complete_usage u ≡ some (i, o))
    × (started_at ≡ some at)
    × (resolve_price prices candidates (billed_tier requested u.service_tier) at i ≡ some r)
    × (let p = parts_of u i o in
        (p.standard_input + p.cached + p.written + p.written_1h ≡ i)
        × (p.output ≡ o)
        × (p.written + p.written_1h ≡ count u.cache_write_tokens)
        × (p.written_1h ≡ min (count u.cache_write_1h_tokens) (count u.cache_write_tokens))
        × (p.cached ≡ count u.cached_input_tokens)
        × IsCost r ttl p cost
        × (cost ≤ max_safe_integer))
