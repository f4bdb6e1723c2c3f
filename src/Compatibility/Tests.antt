-- ===== src/Compatibility/Tests.antt =====
-- Two rejections, and the theorems at concrete inputs.
use codex_pooler.Prelude.{◌≡◌, refl, true, false, some, none, [], ◌∷◌, arith}
use codex_pooler.Prelude.Table.{lookup, insert, evict}
use codex_pooler.Compatibility.{
  Entry, Learning, Rejection, observed, generation_for, other_generation, observe, observe_all,
  prune_observations,
}
use codex_pooler.Compatibility.Evidence.{
  IsEvidence, IsBounded, is_promotion, observe-IsEvidence, observe_all-IsBounded,
}

abbrev start : Learning
start = record {
  passive_enabled = true;
  observation_gap_ms = 1000;
  observations = [];
  observation_count = 0;
  promotion_count = 0;
}

abbrev rejection : Rejection
rejection = record {
  observation_key = "account:route:feature:digest";
  is_valid = true;
  request_generation = none;
  compatibility_epoch = some 3;
  model_catalog_epoch = none;
  observation_id = "";
}

abbrev once : Learning
once = (observe start rejection 5000).0

steps :
    ((observe start rejection 5000).1 ≡ observed 1)
    × ((observe once rejection 5500).1 ≡ observed 1)
    × (is_promotion (observe once rejection 6000).1 ≡ true)
unfolding observe lookup insert prune_observations evict
steps = (refl, refl, refl)

observe-IsEvidence_example :
    (true ≡ true)
    × (other_generation none (generation_for rejection) ≡ false)
    × ((e : Entry) × IsEvidence (observe_all start ((rejection, 5000) ∷ [])) rejection 6000 e)
unfolding observe_all observe lookup insert prune_observations evict
observe-IsEvidence_example =
    observe-IsEvidence start ((rejection, 5000) ∷ []) rejection 6000 refl refl

observe_all-IsBounded_example :
    IsBounded (observe_all start ((rejection, 5000) ∷ (rejection, 6000) ∷ []))
observe_all-IsBounded_example =
    observe_all-IsBounded start ((rejection, 5000) ∷ (rejection, 6000) ∷ []) (tt, omega arith)
