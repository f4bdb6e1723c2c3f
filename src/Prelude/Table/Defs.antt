-- ===== src/Prelude/Table/Defs.antt =====
-- The operations of a `Map`. Writing an existing key keeps its place, a new key goes last.
use codex_pooler.Prelude.{
  ℕ, ◌-◌, ◌≢◌, String, Bool, false, ◌||◌, List, [], ◌∷◌, map, Option, none, some, length, take, All,
  leb, if◌then◌else◌, str_eq,
}
use codex_pooler.Prelude.Sorting.{sort}

abbrev pub Table {ℓ} : Type ℓ → Type ℓ
Table V = List (String × V)

module _ {ℓ} {V : Type ℓ} where
  unfoldable pub lookup : String → Table V → Option V
  lookup asked [] = none
  lookup asked ((key, value) ∷ rest) = if str_eq key asked then some value else lookup asked rest

  unfoldable pub insert : String → V → Table V → Table V
  insert key new [] = (key, new) ∷ []
  insert key new ((first, old) ∷ rest) =
      if str_eq first key then (first, new) ∷ rest else (first, old) ∷ insert key new rest

  unfoldable pub remove : String → Table V → Table V
  remove k [] = []
  remove k ((j, v) ∷ m) = if str_eq j k then remove k m else (j, v) ∷ remove k m

  unfoldable pub has : String → Table V → Bool
  has k [] = false
  has k ((j, v) ∷ m) = str_eq j k || has k m

  -- A write through a reference to a stored value: nothing happens if the key is gone.
  unfoldable pub update : String → V → Table V → Table V
  update k v [] = []
  update k v ((j, w) ∷ m) = if str_eq j k then (j, v) ∷ m else (j, w) ∷ update k v m

  unfoldable pub remove_all : List String → Table V → Table V
  unfolding remove
  remove_all [] m = m
  remove_all (k ∷ ks) m = remove_all ks (remove k m)

  -- Sort the entries, oldest first, and delete those beyond the limit.
  unfoldable pub evict :
      (String × V → String) → (String × V → String × V → Bool) → ℕ → Table V → Table V
  unfolding remove_all sort
  evict key le limit m =
      if leb (length m) limit
      then m
      else remove_all (map key (take (length m - limit) (sort le m))) m

  -- No key stands twice.
  abbrev pub HasDistinctKeys : Table V → Type ℓ
  HasDistinctKeys [] = Unit
  HasDistinctKeys ((k, v) ∷ m) = All (λ e. k ≢ e.0) m × HasDistinctKeys m
