-- ===== src/Routing/Ordering.antt =====
-- node/src/store.js: `orderRoutingCandidates`. The sorts of the platform are stable, so the comparison
-- of positions that ends each comparator changes nothing.
use codex_pooler.Prelude.{
  ℕ, suc, ◌+◌, ◌-◌, ◌*◌, ◌/◌, ◌%◌, String, Bool, true, false, not, ◌&&◌, Option, none, some, List,
  [], ◌∷◌, ◌++◌, leb, ltb, ◌==◌, if◌then◌else◌, keep, length, take, drop, or_else,
}
use codex_pooler.Prelude.Sorting.{sort}
use codex_pooler.Routing.{
  Upstream, capacity_tier, QuotaView, quota_unknown, quota_stale, quota_known,
  quota_ordering_metadata, full_percent,
}

pub data Strategy : Type 0 where
  least_recent_success most_remaining_quota cache_locality deterministic_rotation : Strategy

abbrev pub id_of : Upstream → String
id_of u = u.account.id

-- `compare(a, b) || rest`, on numbers and on priorities, where none is infinite.
abbrev pub then_le : ℕ → ℕ → Bool → Bool
then_le a b rest = if ltb a b then true else if ltb b a then false else rest

abbrev pub then_priority_le : Option ℕ → Option ℕ → Bool → Bool
then_priority_le none none rest = rest
then_priority_le none (some _) rest = false
then_priority_le (some _) none rest = true
then_priority_le (some a) (some b) rest = then_le a b rest

abbrev pub least_recent_rank : Upstream → ℕ
least_recent_rank u = or_else u.account.last_successful_at 0

abbrev pub rank_le : Upstream → Upstream → Bool
rank_le a b = leb (least_recent_rank a) (least_recent_rank b)

abbrev pub same_priority : Option ℕ → Option ℕ → Bool
same_priority none none = true
same_priority none (some _) = false
same_priority (some _) none = false
same_priority (some a) (some b) = a == b

-- The accounts of one capacity tier and priority, with the first of them.
pub record Tier : Type 0 where
  pub head : Upstream
  pub others : List Upstream

abbrev pub members : Tier → List Upstream
members t = t.head ∷ t.others

unfoldable pub all_members : List Tier → List Upstream
all_members [] = []
all_members (t ∷ ts) = members t ++ all_members ts

unfoldable pub flat_map : (Tier → List Upstream) → List Tier → List Upstream
flat_map f [] = []
flat_map f (t ∷ ts) = f t ++ flat_map f ts

abbrev pub known_percent : QuotaView → List ℕ
known_percent quota_unknown = []
known_percent (quota_stale p) = []
known_percent (quota_known p) = p ∷ []

abbrev pub known_percents : ℕ → List Upstream → List ℕ
known_percents now [] = []
known_percents now (u ∷ us) = known_percent (quota_ordering_metadata u now) ++ known_percents now us

abbrev pub first_or : ℕ → List ℕ → ℕ
first_or d [] = d
first_or d (x ∷ xs) = x

-- Twice the median of sorted numbers, and twice a half of the whole for none.
abbrev pub twice_median : List ℕ → ℕ
twice_median xs =
    let n = length xs in
    if n == 0
    then full_percent
    else if n % 2 == 1
    then 2 * first_or 0 (drop (n / 2) xs)
    else first_or 0 (drop (n / 2 - 1) xs) + first_or 0 (drop (n / 2) xs)

abbrev pub median_for : ℕ → List Upstream → Option ℕ → ℕ
median_for now us priority =
    twice_median (sort leb (known_percents now (keep (λ u. same_priority u.priority priority) us)))

abbrev pub view_score : ℕ → QuotaView → ℕ
view_score unknown_score (quota_known p) = 2 * p
view_score unknown_score quota_unknown = unknown_score
view_score unknown_score (quota_stale p) = unknown_score

-- Twice the score of an account among the given ones.
abbrev pub score : ℕ → List Upstream → Upstream → ℕ
score now us u = view_score (median_for now us u.priority) (quota_ordering_metadata u now)

module _ (now : ℕ) (model : String) where
  -- The two outer comparisons of every strategy.
  abbrev pub then_tier_le : Upstream → Upstream → Bool → Bool
  then_tier_le a b rest =
      then_le (capacity_tier a now model) (capacity_tier b now model)
        (then_priority_le a.priority b.priority rest)

  abbrev pub tier_le : Upstream → Upstream → Bool
  tier_le a b = then_tier_le a b true

  abbrev pub least_recent_le : Upstream → Upstream → Bool
  least_recent_le a b = then_tier_le a b (rank_le a b)

  abbrev pub quota_le : List Upstream → Upstream → Upstream → Bool
  quota_le us a b = then_tier_le a b (then_le (score now us b) (score now us a) (rank_le a b))

  abbrev pub same_tier : Upstream → Upstream → Bool
  same_tier a b =
      capacity_tier a now model == capacity_tier b now model && same_priority a.priority b.priority

  unfoldable pub add_to_tier : Upstream → List Tier → List Tier
  add_to_tier u [] = record { head = u; others = [] } ∷ []
  add_to_tier u (t ∷ ts) =
      let rest = t ∷ add_to_tier u ts in
      if same_tier t.head u then record t { others = t.others ++ u ∷ [] } ∷ ts else rest

  unfoldable pub tiers_from : List Tier → List Upstream → List Tier
  unfolding add_to_tier
  tiers_from ts [] = ts
  tiers_from ts (u ∷ us) = tiers_from (add_to_tier u ts) us

  abbrev pub head_le : Tier → Tier → Bool
  head_le a b = tier_le a.head b.head

-- Parameters: `localeCompare` as "not after", the digest of a seed and an identifier, and the number
-- in the first eight digits of the digest of a seed and "rotation".
module _ (collates : String → String → Bool) (digest : String → String → String)
    (rotation : String → ℕ) where
  abbrev pub cache_le : String → Upstream → Upstream → Bool
  cache_le seed a b =
      let left = digest seed (id_of a) in
      let right = digest seed (id_of b) in
      if not (collates left right)
      then true
      else if not (collates right left)
      then false
      else rank_le a b

  abbrev pub rotate : ℕ → List Upstream → List Upstream
  rotate offset us = drop offset us ++ take offset us

  abbrev pub id_le : Upstream → Upstream → Bool
  id_le a b = collates (id_of a) (id_of b)

  abbrev pub order_seeded : Strategy → String → Tier → List Upstream
  order_seeded cache_locality seed t = sort (cache_le seed) (members t)
  order_seeded _ seed t = rotate (rotation seed % suc (length t.others)) (sort id_le (members t))

  abbrev pub order_tier : Strategy → Option String → Tier → List Upstream
  order_tier strategy none t = sort rank_le (members t)
  order_tier strategy (some seed) t = order_seeded strategy seed t

  abbrev pub order_tiers : Strategy → Option String → ℕ → String → List Upstream → List Upstream
  order_tiers strategy seed now model us =
      flat_map (order_tier strategy seed) (sort (head_le now model) (tiers_from now model [] us))

  unfoldable pub order_routing_candidates :
      Strategy → ℕ → String → Option String → List Upstream → List Upstream
  unfolding flat_map tiers_from sort
  order_routing_candidates least_recent_success now model seed us =
      sort (least_recent_le now model) us
  order_routing_candidates cache_locality now model seed us =
      order_tiers cache_locality seed now model us
  order_routing_candidates deterministic_rotation now model seed us =
      order_tiers deterministic_rotation seed now model us
  order_routing_candidates most_remaining_quota now model seed us = sort (quota_le now model us) us
