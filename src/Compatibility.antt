-- ===== src/Compatibility.antt =====
-- node/src/compatibility-learning.js: how a gateway learns from rejections what an upstream does not
-- support. A request that is rejected counts towards a fact; the second independent observation under
-- one generation of the account promotes it to the store.
pub mod Dated
pub mod Evidence
mod Tests
use codex_pooler.Prelude.{
  ℕ, suc, ◌+◌, ◌*◌, ◌≤◌, max, String, Bool, true, false, not, ◌&&◌, ◌||◌, Option, none, some, List,
  [], ◌∷◌, leb, ltb, ◌==◌, if◌then◌else◌, or_else, keep, str_eq,
}
use codex_pooler.Prelude.Table.{Table, lookup, insert, evict}

pub record Generation : Type 0 where
  pub compatibility_epoch : ℕ
  pub model_catalog_epoch : ℕ

-- The value that was rejected stands in the key, as its digest.
pub record Entry : Type 0 where
  pub count : ℕ
  pub first_observed_at : ℕ
  pub last_observed_at : ℕ
  pub last_observation_id : String
  pub last_generation : Option Generation
  pub last_used_at : ℕ

pub record Learning : Type 0 where
  pub passive_enabled : Bool
  pub observation_gap_ms : ℕ
  pub observations : Table Entry
  pub observation_count : ℕ
  pub promotion_count : ℕ

-- A rejection: the key of its observation, whether `validEvidence` holds of it, and the generation that
-- the request was made under, beside the epochs of the account now.
pub record Rejection : Type 0 where
  pub observation_key : String
  pub is_valid : Bool
  pub request_generation : Option Generation
  pub compatibility_epoch : Option ℕ
  pub model_catalog_epoch : Option ℕ
  pub observation_id : String

-- What the store is asked to keep: how often it was seen, and when first and last.
pub record Promotion : Type 0 where
  pub evidence_count : ℕ
  pub created_at : ℕ
  pub last_validated_at : ℕ
  pub expires_at : ℕ
  pub generation : Generation

pub data Outcome : Type 0 where
  ignored stale_generation : Outcome
  observed : ℕ → Outcome
  promote : Promotion → Outcome

abbrev pub fact_ttl_ms : ℕ
fact_ttl_ms = 24 * 60 * 60000

abbrev pub observation_limit : ℕ
observation_limit = 256

abbrev pub promotion_count_needed : ℕ
promotion_count_needed = 2

abbrev pub generation_for : Rejection → Generation
generation_for r = record {
  compatibility_epoch = max 1 (or_else r.compatibility_epoch 1);
  model_catalog_epoch = max 1 (or_else r.model_catalog_epoch 1);
}

abbrev pub same_generation : Generation → Generation → Bool
same_generation a b =
    a.compatibility_epoch == b.compatibility_epoch && a.model_catalog_epoch == b.model_catalog_epoch

abbrev pub other_generation : Option Generation → Generation → Bool
other_generation none g = false
other_generation (some h) g = not (same_generation h g)

abbrev pub new_entry : ℕ → Entry
new_entry now = record {
  count = 0;
  first_observed_at = now;
  last_observed_at = 0;
  last_observation_id = "";
  last_generation = none;
  last_used_at = now;
}

-- Evidence of another generation of the account does not count.
abbrev pub renew_entry : Generation → ℕ → Entry → Entry
renew_entry g now e =
    if other_generation e.last_generation g
    then record {
      count = 0;
      first_observed_at = now;
      last_observed_at = 0;
      last_observation_id = "";
      last_generation = none;
      last_used_at = e.last_used_at;
    }
    else e

abbrev pub is_independent : ℕ → Rejection → ℕ → Entry → Bool
is_independent gap r now e =
    e.count == 0
    || (not (str_eq r.observation_id "") && not (str_eq r.observation_id e.last_observation_id))
    || leb (e.last_observed_at + gap) now

abbrev pub count_observation : Rejection → Generation → ℕ → Entry → Entry
count_observation r g now e = record e {
  count = suc e.count;
  last_observed_at = now;
  last_observation_id = r.observation_id;
  last_generation = some g;
  last_used_at = now;
}

abbrev pub observe_entry : ℕ → Rejection → Generation → ℕ → Entry → Entry
observe_entry gap r g now e =
    if is_independent gap r now e
    then count_observation r g now e
    else record e { last_used_at = now }

-- The entries used least recently go first, and of those used at once the ones written last.
abbrev pub used_before : String × Entry → String × Entry → Bool
used_before a b = ltb a.1.last_used_at b.1.last_used_at

unfoldable pub prune_observations : Table Entry → Table Entry
prune_observations m = evict (λ e. e.0) used_before observation_limit m

abbrev pub entry_before : Learning → Rejection → ℕ → Entry
entry_before l r now =
    renew_entry (generation_for r) now
      (or_else (lookup r.observation_key l.observations) (new_entry now))

abbrev pub entry_after : Learning → Rejection → ℕ → Entry
entry_after l r now =
    observe_entry l.observation_gap_ms r (generation_for r) now (entry_before l r now)

abbrev pub promotion_of : Rejection → ℕ → Entry → Promotion
promotion_of r now e = record {
  evidence_count = e.count;
  created_at = e.first_observed_at;
  last_validated_at = now;
  expires_at = now + fact_ttl_ms;
  generation = generation_for r;
}

abbrev pub learn : Learning → Rejection → ℕ → Learning
learn l r now = record l {
  observations = prune_observations (insert r.observation_key (entry_after l r now) l.observations);
  observation_count =
      if is_independent l.observation_gap_ms r now (entry_before l r now)
      then suc l.observation_count
      else l.observation_count;
}

-- `observe` up to the store: whether the store makes the promotion active is `settle_promotion`.
unfoldable pub observe : Learning → Rejection → ℕ → Learning × Outcome
unfolding prune_observations
observe l r now =
    if not l.passive_enabled || not r.is_valid
    then (l, ignored)
    else if other_generation r.request_generation (generation_for r)
    then (l, stale_generation)
    else if ltb (entry_after l r now).count promotion_count_needed
    then (learn l r now, observed (entry_after l r now).count)
    else (learn l r now, promote (promotion_of r now (entry_after l r now)))

abbrev pub settle_promotion : Bool → Learning → Learning
settle_promotion active l =
    if active then record l { promotion_count = suc l.promotion_count } else l

-- `clearObservations`, with the platform's `startsWith` for the prefix of the account and the context.
abbrev pub clear_observations : (String → Bool) → Learning → Learning
clear_observations starts l = record l {
  observations = keep (λ e. not (starts e.0)) l.observations;
}

abbrev pub reset : Learning → Learning
reset l = record l { observations = [] }

-- Rejections one after another.
unfoldable pub observe_all : Learning → List (Rejection × ℕ) → Learning
unfolding observe
observe_all l [] = l
observe_all l ((r, now) ∷ rs) = observe_all (observe l r now).0 rs
