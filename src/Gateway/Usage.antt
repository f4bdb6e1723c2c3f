-- ===== src/Gateway/Usage.antt =====
-- node/src/store.js: the daily totals of the gateway, `compactGatewayUsage` and `addGatewayUsage`.
-- The items are stored totals, whose numbers are safe integers.
use codex_pooler.Prelude.{
  ℕ, ◌+◌, ◌-◌, ◌*◌, ◌/◌, String, Bool, true, false, not, ◌&&◌, ◌||◌, Option, none, some, List, [],
  ◌∷◌, ◌++◌, leb, ltb, ◌==◌, if◌then◌else◌, any, keep, length, drop, str_eq, or_else,
}
use codex_pooler.Spending.{max_safe_integer}

pub record TokenUsage : Type 0 where
  pub total_tokens : Option ℕ
  pub input_tokens : Option ℕ
  pub output_tokens : Option ℕ
  pub cached_input_tokens : Option ℕ

pub record UsageEntry : Type 0 where
  pub scope_id : Option String
  pub api_key_id : Option String
  pub day : ℕ
  pub request_count : ℕ
  pub total_tokens : ℕ
  pub cached_input_tokens : ℕ
  pub total_cost_micros : ℕ
  pub priced : Bool
  pub attempt_ids : List String

pub record UsageReport : Type 0 where
  pub scope_id : Option String
  pub api_key_id : Option String
  pub attempt_id : String
  pub started_at : Option ℕ
  pub usage : Option TokenUsage
  pub settled_cost_micros : Option ℕ

abbrev pub default_scope_id : String
default_scope_id = "default"

abbrev pub day_ms : ℕ
day_ms = 24 * 60 * 60 * 1000

abbrev pub gateway_usage_days : ℕ
gateway_usage_days = 90

abbrev pub gateway_usage_attempt_limit : ℕ
gateway_usage_attempt_limit = 100

-- `slice(-limit)`.
abbrev pub take_last {ℓ} : {A : Type ℓ} → ℕ → List A → List A
take_last limit xs = drop (length xs - limit) xs

abbrev pub distinct : List String → List String
distinct [] = []
distinct (x ∷ xs) = x ∷ keep (λ y. not (str_eq y x)) (distinct xs)

abbrev pub same_text : Option String → Option String → Bool
same_text none none = true
same_text none (some _) = false
same_text (some _) none = false
same_text (some a) (some b) = str_eq a b

abbrev pub earliest_day : ℕ → ℕ
earliest_day now = (now - gateway_usage_days * day_ms) / day_ms

-- `value || fallback`.
abbrev pub text_or : Option String → Option String → Option String
text_or none fallback = fallback
text_or (some s) fallback = if str_eq s "" then fallback else some s

abbrev pub empty_entry : Option String → Option String → ℕ → UsageEntry
empty_entry scope_id api_key_id day = record {
  scope_id = scope_id;
  api_key_id = api_key_id;
  day = day;
  request_count = 0;
  total_tokens = 0;
  cached_input_tokens = 0;
  total_cost_micros = 0;
  priced = false;
  attempt_ids = [];
}

abbrev pub is_for : Option String → Option String → ℕ → UsageEntry → Bool
is_for scope_id api_key_id day e =
    same_text e.scope_id scope_id && same_text e.api_key_id api_key_id && e.day == day

abbrev pub merge_entry : UsageEntry → UsageEntry → UsageEntry
merge_entry entry item = record entry {
  request_count = entry.request_count + item.request_count;
  total_tokens = entry.total_tokens + item.total_tokens;
  cached_input_tokens = entry.cached_input_tokens + item.cached_input_tokens;
  total_cost_micros = entry.total_cost_micros + item.total_cost_micros;
  priced = entry.priced || item.priced;
  attempt_ids =
      take_last gateway_usage_attempt_limit (distinct (entry.attempt_ids ++ item.attempt_ids));
}

abbrev pub item_scope : UsageEntry → Option String
item_scope item = text_or item.scope_id (some default_scope_id)

abbrev pub item_key : UsageEntry → Option String
item_key item = text_or item.api_key_id none

unfoldable pub merge_into : List UsageEntry → UsageEntry → List UsageEntry
merge_into [] item = merge_entry (empty_entry (item_scope item) (item_key item) item.day) item ∷ []
merge_into (e ∷ es) item =
    let rest = e ∷ merge_into es item in
    if is_for (item_scope item) (item_key item) item.day e then merge_entry e item ∷ es else rest

unfoldable pub compact_items : ℕ → List UsageEntry → List UsageEntry → List UsageEntry
unfolding merge_into
compact_items earliest compacted [] = compacted
compact_items earliest compacted (item ∷ items) =
    compact_items earliest (if ltb item.day earliest then compacted else merge_into compacted item)
      items

abbrev pub compact_gateway_usage : ℕ → List UsageEntry → List UsageEntry
compact_gateway_usage now items = compact_items (earliest_day now) [] items

abbrev pub tokens_of : Option TokenUsage → ℕ
tokens_of none = 0
tokens_of (some u) = or_else u.total_tokens (or_else u.input_tokens 0 + or_else u.output_tokens 0)

abbrev pub cached_of : Option TokenUsage → ℕ
cached_of none = 0
cached_of (some u) = or_else u.cached_input_tokens 0

-- A cost where `Number.isSafeInteger` holds of it.
abbrev pub safe_cost : Option ℕ → Option ℕ
safe_cost none = none
safe_cost (some c) = if leb c max_safe_integer then some c else none

abbrev pub is_priced : Option ℕ → Bool
is_priced none = false
is_priced (some _) = true

abbrev pub count_attempt : UsageReport → UsageEntry → UsageEntry
count_attempt r e = record e {
  attempt_ids = take_last gateway_usage_attempt_limit (e.attempt_ids ++ r.attempt_id ∷ []);
  request_count = e.request_count + 1;
  total_tokens = e.total_tokens + tokens_of r.usage;
  cached_input_tokens = e.cached_input_tokens + cached_of r.usage;
  total_cost_micros = e.total_cost_micros + or_else (safe_cost r.settled_cost_micros) 0;
  priced = e.priced || is_priced (safe_cost r.settled_cost_micros);
}

-- The entry of the report's day, or a new one behind the others, counts the attempt unless it knows it.
unfoldable pub count_into : UsageReport → ℕ → List UsageEntry → List UsageEntry × Bool
count_into r day [] = (count_attempt r (empty_entry r.scope_id r.api_key_id day) ∷ [], true)
count_into r day (e ∷ es) =
    let (rest, counted) = count_into r day es in
    if is_for r.scope_id r.api_key_id day e
    then if any (str_eq r.attempt_id) e.attempt_ids
      then (e ∷ es, false)
      else (count_attempt r e ∷ es, true)
    else (e ∷ rest, counted)

unfoldable pub add_gateway_usage : ℕ → List UsageEntry → UsageReport → List UsageEntry × Bool
unfolding compact_items count_into
add_gateway_usage now entries r =
    count_into r (or_else r.started_at now / day_ms) (compact_gateway_usage now entries)
