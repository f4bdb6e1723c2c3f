-- ===== src/Pricing.antt =====
-- node/src/pricing.js: the price row for a model, `resolvePrice`, and the cost of measured usage,
-- `priceUsage`. A rate is in ten-thousandths of a dollar for a million tokens, which the rates of the
-- price list need, so tokens times rate are ten-thousandths of a millionth of a dollar. Sums are exact
-- where the source adds floating numbers.
-- The candidates are what `modelCandidates` makes of the models, in its order.
pub mod Resolution
pub mod Cost
mod Tests
use codex_pooler.Prelude.{
  ℕ, ◌+◌, ◌-◌, ◌*◌, ◌/◌, ◌≤◌, min, String, Bool, true, false, not, ◌&&◌, ◌||◌, Option, none, some,
  List, [], ◌∷◌, leb, ltb, ◌==◌, if◌then◌else◌, keep, or_else, first_some, str_eq, is_some,
}
use codex_pooler.Prelude.Table.{Table, lookup}

pub data Tier : Type 0 where
  standard priority flex ultrafast : Tier

pub data Bucket : Type 0 where
  default_bucket short_context long_context : Bucket

-- `contextRule`: a `known` rule may name its own threshold.
pub data ContextRule : Type 0 where
  uniform unknown_rule invalid_rule : ContextRule
  known : Option ℕ → ContextRule

pub record Row : Type 0 where
  pub model : String
  pub input : ℕ
  pub cached_input : Option ℕ
  pub cache_write : Option ℕ
  pub output : ℕ
  pub price_version : String
  pub tier : Tier
  pub effective_at : ℕ
  pub captured_at : ℕ
  pub bucket : Bucket
  pub context_rule : ContextRule
  pub cache_write_rates : Table ℕ

abbrev pub long_context_input_token_threshold : ℕ
long_context_input_token_threshold = 272000

abbrev pub same_tier : Tier → Tier → Bool
same_tier standard standard = true
same_tier priority priority = true
same_tier flex flex = true
same_tier ultrafast ultrafast = true
same_tier _ _ = false

abbrev pub same_bucket : Bucket → Bucket → Bool
same_bucket default_bucket default_bucket = true
same_bucket short_context short_context = true
same_bucket long_context long_context = true
same_bucket _ _ = false

-- What a tier falls back to: all but `ultrafast` to the standard one.
abbrev pub fallback_tier : Tier → Tier
fallback_tier ultrafast = ultrafast
fallback_tier _ = standard

abbrev pub is_dated : String → ℕ → Row → Bool
is_dated candidate at r = str_eq r.model candidate && leb r.effective_at at

abbrev pub has_none {ℓ} : {A : Type ℓ} → List A → Bool
has_none [] = true
has_none (_ ∷ _) = false

unfoldable pub preferred : List Row → Tier → List Row
preferred rows tier =
    let matching = keep (λ r. same_tier r.tier tier) rows in
    if has_none matching then keep (λ r. same_tier r.tier (fallback_tier tier)) rows else matching

abbrev pub supersedes : Row → Row → Bool
supersedes row latest =
    ltb latest.effective_at row.effective_at
    || (row.effective_at == latest.effective_at && ltb latest.captured_at row.captured_at)

-- The reduction of the rows to the latest, from a first row on.
unfoldable pub latest_of : Row → List Row → Row
latest_of latest [] = latest
latest_of latest (row ∷ rows) = latest_of (if supersedes row latest then row else latest) rows

abbrev pub is_generation : Row → Row → Bool
is_generation anchor r =
    str_eq r.price_version anchor.price_version
    && r.effective_at == anchor.effective_at
    && r.captured_at == anchor.captured_at

unfoldable pub find_bucket : Bucket → List Row → Option Row
find_bucket b [] = none
find_bucket b (r ∷ rows) = if same_bucket r.bucket b then some r else find_bucket b rows

abbrev pub exceeds : Option ℕ → ℕ → Bool
exceeds threshold tokens = ltb (or_else threshold long_context_input_token_threshold) tokens

-- `none` where a rule that is unknown or invalid ends the search.
abbrev pub is_long : ContextRule → ℕ → Option Bool
is_long uniform tokens = some false
is_long unknown_rule tokens = none
is_long invalid_rule tokens = none
is_long (known threshold) tokens = some (exceeds threshold tokens)

abbrev pub pick : List Row → Bool → Option Row
pick rows true = first_some (find_bucket long_context rows) (find_bucket default_bucket rows)
pick rows false = first_some (find_bucket default_bucket rows) (find_bucket short_context rows)

-- A candidate is passed over, ends the search, or has a row.
pub data Search : Type 0 where
  passed stopped : Search
  found : Row → Search

abbrev pub to_search : Option Row → Search
to_search none = passed
to_search (some r) = found r

abbrev pub search_generation : List Row → Row → Option Bool → Search
search_generation rows anchor none = stopped
search_generation rows anchor (some long) = to_search (pick (keep (is_generation anchor) rows) long)

abbrev pub search_rows : List Row → ℕ → Search
search_rows [] tokens = passed
search_rows (r ∷ rows) tokens =
    let anchor = latest_of r rows in
    search_generation (r ∷ rows) anchor (is_long anchor.context_rule tokens)

unfoldable pub search_candidate : List Row → String → Tier → ℕ → ℕ → Search
unfolding preferred latest_of find_bucket
search_candidate prices candidate tier at tokens =
    search_rows (preferred (keep (is_dated candidate at) prices) tier) tokens

abbrev pub or_rest : Search → Option Row → Option Row
or_rest passed rest = rest
or_rest stopped rest = none
or_rest (found r) rest = some r

unfoldable pub resolve_price : List Row → List String → Tier → ℕ → ℕ → Option Row
unfolding search_candidate
resolve_price prices [] tier at tokens = none
resolve_price prices (c ∷ cs) tier at tokens =
    or_rest (search_candidate prices c tier at tokens) (resolve_price prices cs tier at tokens)

-- Usage whose counts are safe integers where they are there.
pub record Usage : Type 0 where
  pub input_tokens : Option ℕ
  pub output_tokens : Option ℕ
  pub cached_input_tokens : Option ℕ
  pub cache_write_tokens : Option ℕ
  pub cache_write_1h_tokens : Option ℕ
  pub service_tier : Option String

abbrev pub canonical_tier : Option String → Tier
canonical_tier none = standard
canonical_tier (some t) =
    if str_eq t "fast" || str_eq t "priority"
    then priority
    else if str_eq t "flex"
    then flex
    else if str_eq t "ultrafast"
    then ultrafast
    else standard

abbrev pub is_default : Option String → Bool
is_default none = false
is_default (some t) = str_eq t "default"

-- Texts are trimmed, in lower case and not empty.
unfoldable pub billed_tier : Option String → Option String → Tier
billed_tier requested reported =
    if same_tier (canonical_tier requested) priority && is_default reported
    then priority
    else canonical_tier (first_some reported requested)

abbrev pub count : Option ℕ → ℕ
count n = or_else n 0

-- The tokens of each kind that are billed.
pub record Parts : Type 0 where
  pub standard_input : ℕ
  pub cached : ℕ
  pub written : ℕ
  pub written_1h : ℕ
  pub output : ℕ

unfoldable pub complete_usage : Usage → Option (ℕ × ℕ)
complete_usage u = elim u.input_tokens [
  | none ↦ none
  | some i ↦ elim u.output_tokens [
    | none ↦ none
    | some o ↦
        if leb (count u.cached_input_tokens + count u.cache_write_tokens) i
        then some (i, o)
        else none
  ]
]

unfoldable pub parts_of : Usage → ℕ → ℕ → Parts
parts_of u i o =
    let cached = min (count u.cached_input_tokens) i in
    let write = count u.cache_write_tokens in
    let write_1h = min (count u.cache_write_1h_tokens) write in
    record {
      standard_input = i - cached - write;
      cached = cached;
      written = write - write_1h;
      written_1h = write_1h;
      output = o;
    }

abbrev pub write_rate : Row → String → Option ℕ
write_rate r ttl = first_some r.cache_write (lookup ttl r.cache_write_rates)

abbrev pub write_1h_rate : Row → String → Option ℕ
write_1h_rate r ttl = first_some (lookup "1h" r.cache_write_rates) (write_rate r ttl)

abbrev pub cost_of : Row → String → Parts → ℕ
cost_of r ttl p =
    p.standard_input * r.input
    + p.cached * count r.cached_input
    + p.written * count (write_rate r ttl)
    + p.written_1h * count (write_1h_rate r ttl)
    + p.output * r.output

-- `Math.round` of ten-thousandths.
abbrev pub rounded : ℕ → ℕ
rounded n = (n + 5000) / 10000

abbrev pub max_safe_integer : ℕ
max_safe_integer = 9007199254740991

unfoldable pub price_parts : Row → String → Usage → Parts → Option (ℕ × Row)
price_parts r ttl u p =
    if ltb 0 (count u.cache_write_tokens) && not (is_some (write_rate r ttl))
    then none
    else if ltb 0 p.cached && not (is_some r.cached_input)
    then none
    else if ltb max_safe_integer (rounded (cost_of r ttl p))
    then none
    else some (rounded (cost_of r ttl p), r)

-- The settled cost in millionths of a dollar, with the row that gives its model and version.
unfoldable pub price_usage :
    List Row → List String → Usage → Option ℕ → Option String → String → Option (ℕ × Row)
unfolding complete_usage billed_tier resolve_price parts_of price_parts
price_usage prices candidates u started_at requested ttl = elim (complete_usage u) [
  | none ↦ none
  | some (i, o) ↦ elim started_at [
    | none ↦ none
    | some at ↦ elim (resolve_price prices candidates (billed_tier requested u.service_tier) at i) [
      | none ↦ none
      | some r ↦ price_parts r ttl u (parts_of u i o)
    ]
  ]
]
