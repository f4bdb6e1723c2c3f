-- ===== src/Gateway/Counting.antt =====
-- node/src/store.js, `addGatewayUsage`: the daily totals lose nothing and count nothing twice.
use codex_pooler.Prelude.{
  ℕ, zero, suc, ◌+◌, ◌-◌, ◌/◌, ◌≤◌, ◌≡◌, refl, Bool, true, not, ◌&&◌, String, Option, none, some,
  List, [], ◌∷◌, ◌++◌, arith, keep, any, str_eq, eq_iff, or_else, if_elim, length, drop,
  length-append, ==_iff,
}
use codex_pooler.Gateway.Usage.{
  UsageEntry, UsageReport, tokens_of, cached_of, safe_cost, empty_entry, is_for, earliest_day,
  compact_gateway_usage, count_attempt, count_into, add_gateway_usage, day_ms, same_text,
}
use codex_pooler.Gateway.Booking.{
  Slot, in_slot, booked, stored, when, knows_attempt, is_known, booked-add_gateway_usage,
}

count_into-counted :
    (r : UsageReport) (day : ℕ) (es : List UsageEntry)
    → (count_into r day es).1 ≡ not (knows_attempt r (keep (is_for r.scope_id r.api_key_id day) es))
unfolding count_into
count_into-counted r day [] = refl
count_into-counted r day (e ∷ es) = ground (arith, count_into-counted r day es)

any-drop_last :
    (p : String → Bool) (n : ℕ) (x : String) (xs : List String)
    → n ≤ length xs
    → p x ≡ true
    → any p (drop n (xs ++ x ∷ [])) ≡ true
any-drop_last p zero x [] h q = rw q refl
any-drop_last p zero x (y ∷ ys) h q = ground (arith, any-drop_last p zero x ys (omega arith) q)
any-drop_last p (suc n) x [] h q = absurd (omega (arith, h))
any-drop_last p (suc n) x (y ∷ ys) h q = any-drop_last p n x ys (omega (arith, h)) q

same_text_refl : (a : Option String) → same_text a a ≡ true
same_text_refl none = refl
same_text_refl (some x) = (eq_iff x x).1 refl

knows_attempt-head :
    (r : UsageReport) (p : UsageEntry → Bool) (e : UsageEntry) (es : List UsageEntry)
    → p e ≡ true
    → any (str_eq r.attempt_id) e.attempt_ids ≡ true
    → knows_attempt r (keep p (e ∷ es)) ≡ true
knows_attempt-head r p e es m a = rw m a

-- An attempt that was counted, or was known, is known from then on.
count_into-knows :
    (r : UsageReport) (day : ℕ) (es : List UsageEntry)
    → knows_attempt r (keep (is_for r.scope_id r.api_key_id day) (count_into r day es).0) ≡ true
unfolding count_into
count_into-knows r day [] =
    rw
      (
        same_text_refl r.scope_id,
        same_text_refl r.api_key_id,
        (==_iff day day).1 refl,
        (eq_iff r.attempt_id r.attempt_id).1 refl,
      )
      refl
count_into-knows r day (e ∷ es) =
    let own = is_for r.scope_id r.api_key_id day in
    if_elim {A = List UsageEntry × Bool} (λ x. knows_attempt r (keep own x.0) ≡ true) (own e)
      (λ m.
        if_elim {A = List UsageEntry × Bool} (λ x. knows_attempt r (keep own x.0) ≡ true)
          (any (str_eq r.attempt_id) e.attempt_ids) (λ a. knows_attempt-head r own e es m a)
          (λ _. knows_attempt-head r own (count_attempt r e) es m (
            any-drop_last (str_eq r.attempt_id) (length (e.attempt_ids ++ r.attempt_id ∷ []) - 100)
              r.attempt_id e.attempt_ids
              (omega (arith, length-append e.attempt_ids (r.attempt_id ∷ [])))
              ((eq_iff r.attempt_id r.attempt_id).1 refl))))
      (λ n. rw n (count_into-knows r day es))

-- An attempt is counted exactly when the entry of its scope, its key and the day it started does not
-- know it, and afterwards that entry knows it. For every scope, key and day the totals are then those
-- of the stored items of that scope, key and day that are not too old, with one request, its tokens,
-- its cached tokens and its safe cost more exactly where the attempt was counted and it is its own
-- scope, key and day.
pub add_gateway_usage-total :
    (now : ℕ) (es : List UsageEntry) (r : UsageReport) (s : Slot)
    → let after = (add_gateway_usage now es r).0 in
      let day = or_else r.started_at now / day_ms in
      let own = in_slot s (empty_entry r.scope_id r.api_key_id day) && not (is_known now es r) in
      ((add_gateway_usage now es r).1 ≡ not (is_known now es r))
      × (knows_attempt r (keep (is_for r.scope_id r.api_key_id day) after) ≡ true)
      × (booked (λ e. e.request_count) s after
          ≡ stored (λ e. e.request_count) s (earliest_day now) es + when own 1)
      × (booked (λ e. e.total_tokens) s after
          ≡ stored (λ e. e.total_tokens) s (earliest_day now) es + when own (tokens_of r.usage))
      × (booked (λ e. e.cached_input_tokens) s after
          ≡ stored (λ e. e.cached_input_tokens) s (earliest_day now) es
            + when own (cached_of r.usage))
      × (booked (λ e. e.total_cost_micros) s after
          ≡ stored (λ e. e.total_cost_micros) s (earliest_day now) es
            + when own (or_else (safe_cost r.settled_cost_micros) 0))
unfolding add_gateway_usage
add_gateway_usage-total now es r s = (
  count_into-counted r (or_else r.started_at now / day_ms) (compact_gateway_usage now es),
  count_into-knows r (or_else r.started_at now / day_ms) (compact_gateway_usage now es),
  booked-add_gateway_usage (λ e. e.request_count) s (λ _ _. refl) (λ _. refl) r 1 (λ _. refl)
      (λ _. refl) now es,
  booked-add_gateway_usage (λ e. e.total_tokens) s (λ _ _. refl) (λ _. refl) r (tokens_of r.usage)
      (λ _. refl) (λ _. refl) now es,
  booked-add_gateway_usage (λ e. e.cached_input_tokens) s (λ _ _. refl) (λ _. refl) r
      (cached_of r.usage) (λ _. refl) (λ _. refl) now es,
  booked-add_gateway_usage (λ e. e.total_cost_micros) s (λ _ _. refl) (λ _. refl) r
      (or_else (safe_cost r.settled_cost_micros) 0) (λ _. refl) (λ _. refl) now es,
)
