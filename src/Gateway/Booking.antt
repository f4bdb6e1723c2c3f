-- ===== src/Gateway/Booking.antt =====
-- node/src/store.js, `compactGatewayUsage` and `addGatewayUsage`: what the totals of a scope, a key and
-- a day sum up to.
use codex_pooler.Prelude.{
  ℕ, ◌+◌, ◌/◌, ◌≡◌, refl, sym, ◌∙◌, Bool, true, false, not, ◌&&◌, String, Option, none, some, List,
  [], ◌∷◌, arith, ltb, ◌==◌, keep, any, str_eq, eq_iff, or_else, Bool-cases, inl, inr, ==_iff,
}
use codex_pooler.Gateway.Usage.{
  UsageEntry, UsageReport, merge_entry, merge_into, empty_entry, is_for, item_scope, item_key,
  compact_items, earliest_day, compact_gateway_usage, count_attempt, count_into, add_gateway_usage,
  day_ms, same_text,
}

-- A scope, a key and a day.
abbrev pub Slot : Type 0
Slot = Option String × Option String × ℕ

abbrev pub in_slot : Slot → UsageEntry → Bool
in_slot (scope, key, day) e = is_for scope key day e

-- The slot that a stored item counts for: without a scope it is the default one, without a key none.
abbrev pub slot_of : UsageEntry → UsageEntry
slot_of item = empty_entry (item_scope item) (item_key item) item.day

abbrev pub when : Bool → ℕ → ℕ
when true n = n
when false n = 0

-- What the entries of a slot sum up to.
abbrev pub booked : (UsageEntry → ℕ) → Slot → List UsageEntry → ℕ
booked f s [] = 0
booked f s (e ∷ es) = when (in_slot s e) (f e) + booked f s es

-- What the stored items of a slot sum up to that are not too old.
abbrev pub stored : (UsageEntry → ℕ) → Slot → ℕ → List UsageEntry → ℕ
stored f s earliest [] = 0
stored f s earliest (i ∷ is) =
    when (not (ltb i.day earliest) && in_slot s (slot_of i)) (f i) + stored f s earliest is

same_text_lem : (a b : Option String) → same_text a b ≡ true → a ≡ b
same_text_lem none none h = refl
same_text_lem none (some y) h = cc
same_text_lem (some x) none h = cc
same_text_lem (some x) (some y) h = ground (arith, eq_iff x y)

-- Entries of one slot are in the same slots.
in_slot-same :
    (s : Slot) (scope key : Option String) (day : ℕ) (e : UsageEntry)
    → is_for scope key day e ≡ true
    → in_slot s e ≡ in_slot s (empty_entry scope key day)
in_slot-same s scope key day e h =
    let by_scope = same_text_lem e.scope_id scope (ground arith) in
    let by_key = same_text_lem e.api_key_id key (ground arith) in
    let by_day : e.day ≡ day = (==_iff e.day day).0 (ground arith) in
    λ i. same_text (by_scope i) s.0 && same_text (by_key i) s.1 && by_day i == s.2

-- The first entry of a slot knows an attempt.
abbrev pub knows_attempt : UsageReport → List UsageEntry → Bool
knows_attempt r [] = false
knows_attempt r (e ∷ _) = any (str_eq r.attempt_id) e.attempt_ids

-- Whether the totals have the attempt of a report already, on the day it started.
abbrev pub is_known : ℕ → List UsageEntry → UsageReport → Bool
is_known now es r = knows_attempt r (
    keep (is_for r.scope_id r.api_key_id (or_else r.started_at now / day_ms))
      (compact_gateway_usage now es))

when-add : (b : Bool) (m n : ℕ) → when b (m + n) ≡ when b m + when b n
when-add true m n = refl
when-add false m n = omega arith

module _ (f : UsageEntry → ℕ) (s : Slot)
    (adds : (e i : UsageEntry) → f (merge_entry e i) ≡ f e + f i)
    (starts : (e : UsageEntry) → f (slot_of e) ≡ 0) where
  booked-merge_into :
      (es : List UsageEntry) (item : UsageEntry)
      → booked f s (merge_into es item) ≡ booked f s es + when (in_slot s (slot_of item)) (f item)
  unfolding merge_into
  booked-merge_into [] item = elim (Bool-cases (in_slot s (slot_of item))) [
    | inl m ↦ rw m (omega (arith, adds (slot_of item) item, starts item))
    | inr m ↦ rw m (omega arith)
  ]
  booked-merge_into (e ∷ es) item =
      elim (Bool-cases (is_for (item_scope item) (item_key item) item.day e)) [
        | inl m ↦
            let same = in_slot-same s (item_scope item) (item_key item) item.day e m in
            elim (Bool-cases (in_slot s e)) [
              | inl q ↦ rw (m, sym same ∙ q, q) (omega (arith, adds e item))
              | inr q ↦ rw (m, sym same ∙ q, q) (omega arith)
            ]
        | inr m ↦ rw m (omega (arith, booked-merge_into es item))
      ]

  booked-compact_items :
      (earliest : ℕ) (es items : List UsageEntry)
      → booked f s (compact_items earliest es items) ≡ booked f s es + stored f s earliest items
  unfolding compact_items
  booked-compact_items earliest es [] = omega arith
  booked-compact_items earliest es (i ∷ items) = elim (Bool-cases (ltb i.day earliest)) [
    | inl e ↦ rw e (omega (arith, booked-compact_items earliest es items))
    | inr e ↦ rw e (
        omega
          (arith, booked-compact_items earliest (merge_into es i) items, booked-merge_into es i))
  ]

  module _ (r : UsageReport) (g : ℕ) (counts : (e : UsageEntry) → f (count_attempt r e) ≡ f e + g)
      (empty : (day : ℕ) → f (empty_entry r.scope_id r.api_key_id day) ≡ 0) where
    booked-count_into :
        (day : ℕ) (es : List UsageEntry)
        → booked f s (count_into r day es).0
          ≡ booked f s es
            + when
                (in_slot s (empty_entry r.scope_id r.api_key_id day)
                  && not (knows_attempt r (keep (is_for r.scope_id r.api_key_id day) es)))
                g
    unfolding count_into
    booked-count_into day [] =
        elim (Bool-cases (in_slot s (empty_entry r.scope_id r.api_key_id day))) [
          | inl q ↦
              rw q (omega (arith, counts (empty_entry r.scope_id r.api_key_id day), empty day))
          | inr q ↦ rw q (omega arith)
        ]
    booked-count_into day (e ∷ es) =
        let own = empty_entry r.scope_id r.api_key_id day in
        elim (Bool-cases (is_for r.scope_id r.api_key_id day e)) [
          | inl m ↦
              let same = in_slot-same s r.scope_id r.api_key_id day e m in
              elim (Bool-cases (any (str_eq r.attempt_id) e.attempt_ids)) [
                | inl a ↦ elim (Bool-cases (in_slot s own)) [
                  | inl q ↦ rw (m, a, q) (omega arith)
                  | inr q ↦ rw (m, a, q) (omega arith)
                ]
                | inr a ↦ elim (Bool-cases (in_slot s own)) [
                  | inl q ↦ rw (m, a, same ∙ q, q) (omega (arith, counts e))
                  | inr q ↦ rw (m, a, same ∙ q, q) (omega arith)
                ]
              ]
          | inr m ↦ rw m (omega (arith, booked-count_into day es))
        ]

    pub booked-add_gateway_usage :
        (now : ℕ) (es : List UsageEntry)
        → booked f s (add_gateway_usage now es r).0
          ≡ stored f s (earliest_day now) es
            + when
                (in_slot s (empty_entry r.scope_id r.api_key_id (or_else r.started_at now / day_ms))
                  && not (is_known now es r))
                g
    unfolding add_gateway_usage
    booked-add_gateway_usage now es = omega (
      arith,
      booked-count_into (or_else r.started_at now / day_ms) (compact_gateway_usage now es),
      booked-compact_items (earliest_day now) [] es,
    )
