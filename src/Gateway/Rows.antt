-- ===== src/Gateway/Rows.antt =====
-- Rows of requests and attempts: what the updates of a row and the removal of rows keep.
use codex_pooler.Prelude.{
  ℕ, zero, suc, ◌+◌, ◌≡◌, ◌≢◌, refl, sym, ◌∙◌, subst, String, Bool, true, false, some, List, [],
  ◌∷◌, ◌++◌, arith, any, keep, length, drop, str_eq, eq_iff, Bool-cases, inl, inr, All, All-append,
  All-keep, All-map_mono,
}
use codex_pooler.Prelude.Sorting.{Pairs}
use codex_pooler.Gateway.{Request, Attempt, belongs_to, find, replace_where}

pub same_id : (a b : String) → str_eq a b ≡ true → a ≡ b
same_id a b e = (eq_iff a b).0 e

module _ {A : Type 0} where
  pub keep-append : (p : A → Bool) (xs ys : List A) → keep p (xs ++ ys) ≡ keep p xs ++ keep p ys
  keep-append p [] ys = refl
  keep-append p (x ∷ xs) ys = ground (arith, keep-append p xs ys)

  pub any-append : (p : A → Bool) (xs ys : List A) → any p xs ≡ true → any p (xs ++ ys) ≡ true
  any-append p [] ys h = cc
  any-append p (x ∷ xs) ys h = ground (arith, any-append p xs ys)

  pub find-any : (p : A → Bool) (xs : List A) (x : A) → find p xs ≡ some x → any p xs ≡ true
  find-any p [] x h = cc
  find-any p (y ∷ ys) x h = ground (arith, find-any p ys x)

  pub find_passes : (p : A → Bool) (xs : List A) (x : A) → find p xs ≡ some x → p x ≡ true
  find_passes p [] x h = cc
  find_passes p (y ∷ ys) x h = elim (Bool-cases (p y)) [
    | inl e ↦ let same : y ≡ x = cc (rw e at h) in subst (λ z. p z ≡ true) same e
    | inr e ↦ find_passes p ys x (rw e at h)
  ]

  -- Updating a row keeps what the update keeps.
  pub All-replace_where {κ} :
      (P : A → Type κ) (p : A → Bool) (f : A → A) (xs : List A)
      → ((x : A) → P x → P (f x))
      → All P xs
      → All P (replace_where p f xs)
  All-replace_where P p f [] k h = tt
  All-replace_where P p f (x ∷ xs) k h = elim (Bool-cases (p x)) [
    | inl e ↦ rw e (k x h.0, h.1)
    | inr e ↦ rw e (h.0, All-replace_where P p f xs k h.1)
  ]

  pub any-replace_where :
      (q p : A → Bool) (f : A → A) (xs : List A)
      → ((x : A) → q (f x) ≡ q x)
      → any q (replace_where p f xs) ≡ any q xs
  any-replace_where q p f [] k = refl
  any-replace_where q p f (x ∷ xs) k = elim (Bool-cases (p x)) [
    | inl e ↦ rw (e, k x)
    | inr e ↦ rw (e, any-replace_where q p f xs k)
  ]

  pub any-keep :
      (q k : A → Bool) (xs : List A)
      → ((x : A) → q x ≡ true → k x ≡ true)
      → any q xs ≡ true
      → any q (keep k xs) ≡ true
  any-keep q k [] g h = h
  any-keep q k (x ∷ xs) g h = ground (arith, g x, any-keep q k xs g)

-- No two requests have the same identifier.
abbrev pub HasDistinctIds : List Request → Type 0
HasDistinctIds rs = Pairs (λ r s. r.id ≢ s.id) rs

pub HasDistinctIds-replace_where :
    (p : Request → Bool) (f : Request → Request) (rs : List Request)
    → ((r : Request) → (f r).id ≡ r.id)
    → HasDistinctIds rs
    → HasDistinctIds (replace_where p f rs)
HasDistinctIds-replace_where p f [] k h = tt
HasDistinctIds-replace_where p f (r ∷ rs) k h = elim (Bool-cases (p r)) [
  | inl e ↦ rw (e, k r) h
  | inr e ↦ rw e (
    All-replace_where (λ s. r.id ≢ s.id) p f rs (λ s d. rw (k s) d) h.0,
    HasDistinctIds-replace_where p f rs k h.1,
  )
]

pub HasDistinctIds-keep :
    (p : Request → Bool) (rs : List Request) → HasDistinctIds rs → HasDistinctIds (keep p rs)
HasDistinctIds-keep p [] h = tt
HasDistinctIds-keep p (r ∷ rs) h =
    ground (arith, All-keep (λ s. r.id ≢ s.id) p rs h.0, HasDistinctIds-keep p rs h.1)

pub HasDistinctIds-drop :
    (n : ℕ) (rs : List Request) → HasDistinctIds rs → HasDistinctIds (drop n rs)
HasDistinctIds-drop zero rs h = h
HasDistinctIds-drop (suc n) [] h = tt
HasDistinctIds-drop (suc n) (r ∷ rs) h = HasDistinctIds-drop n rs h.1

pub HasDistinctIds-append :
    (rs ss : List Request)
    → HasDistinctIds rs
    → HasDistinctIds ss
    → All (λ r. All (λ s. r.id ≢ s.id) ss) rs
    → HasDistinctIds (rs ++ ss)
HasDistinctIds-append [] ss h k c = k
HasDistinctIds-append (r ∷ rs) ss h k c =
    (All-append (λ s. r.id ≢ s.id) rs ss h.0 c.0, HasDistinctIds-append rs ss h.1 k c.1)

All-both {ℓ κ} :
    {A : Type 0} (P : A → Type ℓ) (Q : A → Type κ) (xs : List A)
    → All P xs
    → All Q xs
    → All (λ x. P x × Q x) xs
All-both P Q [] h k = tt
All-both P Q (x ∷ xs) h k = ((h.0, k.0), All-both P Q xs h.1 k.1)

-- Requests that two tests tell apart are different requests.
pub keep-keep_apart :
    (p q : Request → Bool) (rs : List Request)
    → ((r : Request) → p r ≡ true → q r ≡ false)
    → HasDistinctIds rs
    → All (λ r. All (λ s. r.id ≢ s.id) (keep q rs)) (keep p rs)
keep-keep_apart p q [] k h = tt
keep-keep_apart p q (r ∷ rs) k h = elim (Bool-cases (p r)) [
  | inl e ↦
      let full : keep q (r ∷ rs) ≡ keep q rs = rw (k r e) refl in
      let Apart = λ (ss : List Request). All (λ s. All (λ t. s.id ≢ t.id) ss) (r ∷ keep p rs) in
      rw e (
        subst Apart (sym full) (All-keep (λ s. r.id ≢ s.id) q rs h.0, keep-keep_apart p q rs k h.1))
  | inr e ↦
      let Apart = λ (ss : List Request). All (λ s. All (λ t. s.id ≢ t.id) ss) (keep p rs) in
      let apart = keep-keep_apart p q rs k h.1 in
      let before =
        All-map_mono (λ s. r.id ≢ s.id) (λ s. s.id ≢ r.id) (keep p rs) (λ s d same. d (sym same))
          (All-keep (λ s. r.id ≢ s.id) p rs h.0) in
      let both =
        All-both (λ s. s.id ≢ r.id) (λ s. All (λ t. s.id ≢ t.id) (keep q rs)) (keep p rs) before
          apart in
      elim (Bool-cases (q r)) [
        | inl m ↦
            let full : keep q (r ∷ rs) ≡ r ∷ keep q rs = rw m refl in
            rw e (subst Apart (sym full) both)
        | inr m ↦
            let full : keep q (r ∷ rs) ≡ keep q rs = rw m refl in
            rw e (subst Apart (sym full) apart)
      ]
]

-- The attempts of a request are numbered one after another.
abbrev pub IsNumbered : ℕ → List Attempt → Type 0
IsNumbered n [] = Unit
IsNumbered n (a ∷ more) = (a.attempt_number ≡ suc n) × IsNumbered (suc n) more

pub IsNumbered-append :
    (n : ℕ) (xs : List Attempt) (a : Attempt)
    → IsNumbered n xs
    → a.attempt_number ≡ n + length xs + 1
    → IsNumbered n (xs ++ a ∷ [])
IsNumbered-append n [] a h e = (omega arith, tt)
IsNumbered-append n (x ∷ xs) a h e = (h.0, IsNumbered-append (suc n) xs a h.1 (omega arith))

pub IsNumbered-replace_where :
    (n : ℕ) (id : String) (p : Attempt → Bool) (f : Attempt → Attempt) (xs : List Attempt)
    → ((a : Attempt)
        → ((f a).request_id ≡ a.request_id) × ((f a).attempt_number ≡ a.attempt_number))
    → IsNumbered n (keep (belongs_to id) xs)
    → IsNumbered n (keep (belongs_to id) (replace_where p f xs))
IsNumbered-replace_where n id p f [] k h = tt
IsNumbered-replace_where n id p f (x ∷ xs) k h = elim (Bool-cases (p x)) [
  | inl e ↦ elim (Bool-cases (belongs_to id x)) [
    | inl m ↦ let g = rw m at h in rw (e, (k x).0, m) ((k x).1 ∙ g.0, g.1)
    | inr m ↦ rw (e, (k x).0, m) (rw m at h)
  ]
  | inr e ↦ elim (Bool-cases (belongs_to id x)) [
    | inl m ↦ let g = rw m at h in rw (e, m) (g.0, IsNumbered-replace_where (suc n) id p f xs k g.1)
    | inr m ↦ rw (e, m) (IsNumbered-replace_where n id p f xs k (rw m at h))
  ]
]

-- Either all attempts of a request are kept or none.
keep-keep_all :
    (id : String) (k : Attempt → Bool) (xs : List Attempt)
    → ((a : Attempt) → belongs_to id a ≡ true → k a ≡ true)
    → keep (belongs_to id) (keep k xs) ≡ keep (belongs_to id) xs
keep-keep_all id k [] g = refl
keep-keep_all id k (x ∷ xs) g = ground (arith, g x, keep-keep_all id k xs g)

keep-keep_none :
    (id : String) (k : Attempt → Bool) (xs : List Attempt)
    → ((a : Attempt) → belongs_to id a ≡ true → k a ≡ false)
    → keep (belongs_to id) (keep k xs) ≡ []
keep-keep_none id k [] g = refl
keep-keep_none id k (x ∷ xs) g = ground (arith, g x, keep-keep_none id k xs g)

pub IsNumbered-keep :
    (b : Bool) (id : String) (k : Attempt → Bool) (xs : List Attempt)
    → ((a : Attempt) → belongs_to id a ≡ true → k a ≡ b)
    → IsNumbered 0 (keep (belongs_to id) xs)
    → IsNumbered 0 (keep (belongs_to id) (keep k xs))
IsNumbered-keep true id k xs g h = rw (keep-keep_all id k xs g) h
IsNumbered-keep false id k xs g h = rw (keep-keep_none id k xs g) tt
