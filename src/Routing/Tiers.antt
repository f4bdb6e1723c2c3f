-- ===== src/Routing/Tiers.antt =====
-- Capacity comes before priority, and both before what a strategy prefers.
use codex_pooler.Prelude.{
  ℕ, suc, ◌%◌, ◌≡◌, String, Bool, true, false, ◌&&◌, Option, none, some, List, [], ◌∷◌, ◌++◌, arith,
  ◌==◌, take, drop, length, Bool-cases, inl, inr, All, All-append, All-take, All-drop, All-map_mono,
}
use codex_pooler.Prelude.Sorting.{sort, sort-Pairs, All-sort, Pairs}
use codex_pooler.Routing.{Upstream, capacity_tier}
use codex_pooler.Routing.Ordering.{
  Strategy, least_recent_success, most_remaining_quota, cache_locality, deterministic_rotation,
  Tier, members, flat_map, then_le, then_priority_le, same_priority, then_tier_le, tier_le,
  same_tier, add_to_tier, tiers_from, head_le, score, cache_le, id_le, rank_le, order_seeded,
  order_tier, order_tiers, order_routing_candidates,
}

abbrev key_le : ℕ → ℕ → Option ℕ → Option ℕ → Bool → Bool
key_le c d p q rest = then_le c d (then_priority_le p q rest)

key_le_weaken :
    (c d : ℕ) (p q : Option ℕ) (rest : Bool)
    → key_le c d p q rest ≡ true
    → key_le c d p q true ≡ true
key_le_weaken c d none none rest h = ground arith
key_le_weaken c d none (some b) rest h = ground arith
key_le_weaken c d (some a) none rest h = ground arith
key_le_weaken c d (some a) (some b) rest h = ground arith

key_le_flip :
    (c d : ℕ) (p q : Option ℕ) (rest : Bool)
    → key_le c d p q rest ≡ false
    → key_le d c q p true ≡ true
key_le_flip c d none none rest h = ground arith
key_le_flip c d none (some b) rest h = ground arith
key_le_flip c d (some a) none rest h = ground arith
key_le_flip c d (some a) (some b) rest h = ground arith

key_le_trans :
    (c d e : ℕ) (p q r : Option ℕ)
    → key_le c d p q true ≡ true
    → key_le d e q r true ≡ true
    → key_le c e p r true ≡ true
key_le_trans c d e none none none h k = ground arith
key_le_trans c d e none none (some z) h k = ground arith
key_le_trans c d e none (some y) none h k = ground arith
key_le_trans c d e none (some y) (some z) h k = ground arith
key_le_trans c d e (some x) none none h k = ground arith
key_le_trans c d e (some x) none (some z) h k = ground arith
key_le_trans c d e (some x) (some y) none h k = ground arith
key_le_trans c d e (some x) (some y) (some z) h k = ground arith

key_le_same :
    (c d : ℕ) (p q : Option ℕ)
    → (c == d && same_priority p q) ≡ true
    → key_le c d p q true ≡ true × key_le d c q p true ≡ true
key_le_same c d none none h = ground arith
key_le_same c d none (some b) h = ground arith
key_le_same c d (some a) none h = ground arith
key_le_same c d (some a) (some b) h = ground arith

key_le_refl : (c : ℕ) (p : Option ℕ) → key_le c c p p true ≡ true
key_le_refl c none = ground arith
key_le_refl c (some a) = ground arith

module _ (now : ℕ) (model : String) where
  abbrev pub IsBefore : Upstream → Upstream → Type 0
  IsBefore a b = tier_le now model a b ≡ true

  abbrev tier_of : Upstream → ℕ
  tier_of u = capacity_tier u now model

  -- Accounts of the same tier are before each other.
  abbrev Alike : Upstream → Upstream → Type 0
  Alike a b = IsBefore a b × IsBefore b a

  IsBefore-trans : (a b c : Upstream) → IsBefore a b → IsBefore b c → IsBefore a c
  IsBefore-trans a b c h k =
      key_le_trans (tier_of a) (tier_of b) (tier_of c) a.priority b.priority c.priority h k

  sort_by-IsBefore :
      (rest : Upstream → Upstream → Bool) (us : List Upstream)
      → Pairs IsBefore (sort (λ a b. then_tier_le now model a b (rest a b)) us)
  sort_by-IsBefore rest us =
      sort-Pairs (λ a b. then_tier_le now model a b (rest a b)) IsBefore
        (λ a b h. key_le_weaken (tier_of a) (tier_of b) a.priority b.priority (rest a b) h)
        (λ a b h. key_le_flip (tier_of a) (tier_of b) a.priority b.priority (rest a b) h)
        IsBefore-trans us

  -- The members of a tier are alike its head.
  abbrev IsUniform : Tier → Type 0
  IsUniform t = All (Alike t.head) t.others

  IsBefore-refl : (a : Upstream) → IsBefore a a
  IsBefore-refl a = key_le_refl (tier_of a) a.priority

  members-Alike : (t : Tier) → IsUniform t → All (Alike t.head) (members t)
  members-Alike t h = ((IsBefore-refl t.head, IsBefore-refl t.head), h)

  add_to_tier-IsUniform :
      (u : Upstream) (ts : List Tier)
      → All IsUniform ts
      → All IsUniform (add_to_tier now model u ts)
  unfolding add_to_tier
  add_to_tier-IsUniform u [] h = (tt, tt)
  add_to_tier-IsUniform u (t ∷ ts) h = elim (Bool-cases (same_tier now model t.head u)) [
    | inl e ↦ rw e (
      All-append (Alike t.head) t.others (u ∷ []) h.0
          (key_le_same (tier_of t.head) (tier_of u) t.head.priority u.priority e, tt),
      h.1,
    )
    | inr e ↦ rw e (h.0, add_to_tier-IsUniform u ts h.1)
  ]

  tiers_from-IsUniform :
      (ts : List Tier) (us : List Upstream)
      → All IsUniform ts
      → All IsUniform (tiers_from now model ts us)
  unfolding tiers_from
  tiers_from-IsUniform ts [] h = h
  tiers_from-IsUniform ts (u ∷ us) h =
      tiers_from-IsUniform (add_to_tier now model u ts) us (add_to_tier-IsUniform u ts h)

  sort_heads-IsBefore :
      (ts : List Tier) → Pairs (λ s t. IsBefore s.head t.head) (sort (head_le now model) ts)
  sort_heads-IsBefore ts =
      sort-Pairs (head_le now model) (λ s t. IsBefore s.head t.head) (λ s t h. h)
        (λ s t h.
          key_le_flip (tier_of s.head) (tier_of t.head) s.head.priority t.head.priority true h)
        (λ s t v. IsBefore-trans s.head t.head v.head) ts

  -- Accounts alike one account are before each other.
  All-Alike-Pairs : (a : Upstream) (us : List Upstream) → All (Alike a) us → Pairs IsBefore us
  All-Alike-Pairs a [] h = tt
  All-Alike-Pairs a (u ∷ us) h = (
    All-map_mono (Alike a) (IsBefore u) us (λ v k. IsBefore-trans u a v h.0.1 k.0) h.1,
    All-Alike-Pairs a us h.1,
  )

  Pairs-append :
      (us vs : List Upstream)
      → Pairs IsBefore us
      → Pairs IsBefore vs
      → All (λ u. All (IsBefore u) vs) us
      → Pairs IsBefore (us ++ vs)
  Pairs-append [] vs h k c = k
  Pairs-append (u ∷ us) vs h k c =
      (All-append (IsBefore u) us vs h.0 c.0, Pairs-append us vs h.1 k c.1)

  module _ (f : Tier → List Upstream)
      (f_alike : (t : Tier) → IsUniform t → All (Alike t.head) (f t)) where
    -- What is before the heads of tiers is before their members.
    flat_map-All :
        (a : Upstream) (ts : List Tier)
        → All IsUniform ts
        → All (λ t. IsBefore a t.head) ts
        → All (IsBefore a) (flat_map f ts)
    unfolding flat_map
    flat_map-All a [] h k = tt
    flat_map-All a (t ∷ ts) h k =
        All-append (IsBefore a) (f t) (flat_map f ts)
          (All-map_mono (Alike t.head) (IsBefore a) (f t) (λ v g. IsBefore-trans a t.head v k.0 g.0)
            (f_alike t h.0))
          (flat_map-All a ts h.1 k.1)

    flat_map-IsBefore :
        (ts : List Tier)
        → All IsUniform ts
        → Pairs (λ s t. IsBefore s.head t.head) ts
        → Pairs IsBefore (flat_map f ts)
    unfolding flat_map
    flat_map-IsBefore [] h k = tt
    flat_map-IsBefore (t ∷ ts) h k =
        Pairs-append (f t) (flat_map f ts) (All-Alike-Pairs t.head (f t) (f_alike t h.0))
          (flat_map-IsBefore ts h.1 k.1)
          (All-map_mono (Alike t.head) (λ u. All (IsBefore u) (flat_map f ts)) (f t)
            (λ u g. flat_map-All u ts h.1 (
              All-map_mono (λ s. IsBefore t.head s.head) (λ s. IsBefore u s.head) ts
                (λ s e. IsBefore-trans u t.head s.head g.1 e) k.0))
            (f_alike t h.0))

  -- The orders inside a tier keep its members.
  module _ (collates : String → String → Bool) (digest : String → String → String)
      (rotation : String → ℕ) where
    order_seeded-Alike :
        (strategy : Strategy) (seed : String) (t : Tier)
        → IsUniform t
        → All (Alike t.head) (order_seeded collates digest rotation strategy seed t)
    order_seeded-Alike cache_locality seed t h =
        All-sort (cache_le collates digest rotation seed) (Alike t.head) (members t)
          (members-Alike t h)
    order_seeded-Alike _ seed t h =
        let sorted = sort (id_le collates digest rotation) (members t) in
        let offset = rotation seed % suc (length t.others) in
        let alike =
          All-sort (id_le collates digest rotation) (Alike t.head) (members t)
            (members-Alike t h) in
        All-append (Alike t.head) (drop offset sorted) (take offset sorted)
          (All-drop (Alike t.head) offset sorted alike)
          (All-take (Alike t.head) offset sorted alike)

    order_tier-Alike :
        (strategy : Strategy) (seed : Option String) (t : Tier)
        → IsUniform t
        → All (Alike t.head) (order_tier collates digest rotation strategy seed t)
    order_tier-Alike strategy none t h =
        All-sort rank_le (Alike t.head) (members t) (members-Alike t h)
    order_tier-Alike strategy (some seed) t h = order_seeded-Alike strategy seed t h

    order_tiers-IsBefore :
        (strategy : Strategy) (seed : Option String) (us : List Upstream)
        → Pairs IsBefore (order_tiers collates digest rotation strategy seed now model us)
    order_tiers-IsBefore strategy seed us =
        let ts = tiers_from now model [] us in
        flat_map-IsBefore (order_tier collates digest rotation strategy seed)
          (order_tier-Alike strategy seed) (sort (head_le now model) ts)
          (All-sort (head_le now model) IsUniform ts (tiers_from-IsUniform [] us tt))
          (sort_heads-IsBefore ts)

    -- Whatever the strategy, no account stands behind one of a later capacity tier, and among those
    -- of one capacity tier none behind one of a later priority; accounts without a priority come last.
    pub order_routing_candidates-IsBefore :
        (strategy : Strategy) (seed : Option String) (us : List Upstream)
        → Pairs IsBefore
            (order_routing_candidates collates digest rotation strategy now model seed us)
    unfolding order_routing_candidates
    order_routing_candidates-IsBefore least_recent_success seed us = sort_by-IsBefore rank_le us
    order_routing_candidates-IsBefore cache_locality seed us =
        order_tiers-IsBefore cache_locality seed us
    order_routing_candidates-IsBefore deterministic_rotation seed us =
        order_tiers-IsBefore deterministic_rotation seed us
    order_routing_candidates-IsBefore most_remaining_quota seed us =
        sort_by-IsBefore (λ a b. then_le (score now us b) (score now us a) (rank_le a b)) us
