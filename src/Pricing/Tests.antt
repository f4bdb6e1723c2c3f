-- ===== src/Pricing/Tests.antt =====
-- A price list with a standard and a priority row, and the theorems at usage that it prices.
use codex_pooler.Prelude.{refl, none, some, List, [], ◌∷◌}
use codex_pooler.Prelude.Table.{lookup}
use codex_pooler.Pricing.{
  Row, standard, priority, default_bucket, uniform, Usage, price_usage, resolve_price,
  search_candidate, preferred, latest_of, find_bucket, complete_usage, billed_tier, parts_of,
  price_parts,
}
use codex_pooler.Pricing.Resolution.{IsResolved, resolve_price-IsResolved}

abbrev old : Row
old = record {
  model = "gpt";
  input = 20000;
  cached_input = some 2000;
  cache_write = none;
  output = 100000;
  price_version = "v1";
  tier = standard;
  effective_at = 1000;
  captured_at = 1000;
  bucket = default_bucket;
  context_rule = uniform;
  cache_write_rates = ("30m", 25000) ∷ [];
}

abbrev new : Row
new = record old { input = 30000; price_version = "v2"; effective_at = 2000; captured_at = 2000 }

abbrev prices : List Row
prices = old ∷ new ∷ []

abbrev usage : Usage
usage = record {
  input_tokens = some 1000;
  output_tokens = some 100;
  cached_input_tokens = some 400;
  cache_write_tokens = some 100;
  cache_write_1h_tokens = none;
  service_tier = some "default";
}

pricing : Unit {0}
unfolding price_usage resolve_price search_candidate preferred latest_of find_bucket complete_usage
    billed_tier parts_of price_parts lookup
pricing = tt

resolve_price-IsResolved_example : IsResolved prices ("gpt-5" ∷ "gpt" ∷ []) priority 1500 old
unfolding pricing
resolve_price-IsResolved_example =
    resolve_price-IsResolved prices ("gpt-5" ∷ "gpt" ∷ []) priority 1500 9 old refl
