-- ===== src/Gateway/Invariant.antt =====
-- The invariant of the gateway's requests and attempts, and that every operation keeps it: also where
-- it throws.
use codex_pooler.Prelude.{
  ◌+◌, ◌-◌, ◌≡◌, ◌≢◌, sym, ap, ◌∙◌, subst, String, Bool, true, false, not, ◌&&◌, ◌||◌, List, [],
  ◌∷◌, ◌++◌, arith, keep, length, str_eq, eq_iff, append-nil, is_some, Bool-cases, inl, inr, All,
  All-append, All-drop, All-map_mono, All-keep_passes, In, All-In,
}
use codex_pooler.Gateway.{Database, Request, Attempt, has_request_id, belongs_to, replace_where}
use codex_pooler.Gateway.Usage.{take_last}
use codex_pooler.Gateway.Operations.{
  has_request, is_failure, is_over, prune_gateway_history, delete_gateway_request,
}
use codex_pooler.Gateway.Rows.{
  same_id, keep-append, any-append, any-replace_where, any-keep, All-replace_where, HasDistinctIds,
  HasDistinctIds-replace_where, HasDistinctIds-keep, HasDistinctIds-drop, HasDistinctIds-append,
  keep-keep_apart, IsNumbered, IsNumbered-append, IsNumbered-replace_where, IsNumbered-keep,
}

-- Requests differ by their identifiers, every attempt belongs to a request that is there, and the
-- attempts of each request are numbered from one in the order in which they began.
pub record Rows (rs : List Request) (attempts : List Attempt) : Type 0 where
  pub distinct : HasDistinctIds rs
  pub owned : All (λ a. has_request rs a.request_id ≡ true) attempts
  pub numbered : (id : String) → IsNumbered 0 (keep (belongs_to id) attempts)

abbrev pub Inv : Database → Type 0
Inv db = Rows db.gateway_requests db.gateway_attempts

pub update_requests-Rows :
    (rs : List Request) (attempts : List Attempt) (p : Request → Bool) (f : Request → Request)
    → ((r : Request) → (f r).id ≡ r.id)
    → Rows rs attempts
    → Rows (replace_where p f rs) attempts
update_requests-Rows rs attempts p f k v = record {
  distinct = HasDistinctIds-replace_where p f rs k v.distinct;
  owned =
      All-map_mono (λ a. has_request rs a.request_id ≡ true)
        (λ a. has_request (replace_where p f rs) a.request_id ≡ true) attempts
        (λ a h.
          any-replace_where (has_request_id a.request_id) p f rs
            (λ r. ap (λ i. str_eq i a.request_id) (k r))
          ∙ h)
        v.owned;
  numbered = v.numbered;
}

pub update_attempts-Rows :
    (rs : List Request) (attempts : List Attempt) (p : Attempt → Bool) (f : Attempt → Attempt)
    → ((a : Attempt)
        → ((f a).request_id ≡ a.request_id) × ((f a).attempt_number ≡ a.attempt_number))
    → Rows rs attempts
    → Rows rs (replace_where p f attempts)
update_attempts-Rows rs attempts p f k v = record {
  distinct = v.distinct;
  owned =
      All-replace_where (λ a. has_request rs a.request_id ≡ true) p f attempts
        (λ a h. rw ((k a).0) h) v.owned;
  numbered = λ id. IsNumbered-replace_where 0 id p f attempts k (v.numbered id);
}

pub str_eq-differs : (a b : String) → str_eq a b ≡ false → a ≢ b
str_eq-differs a b e same =
    let b : str_eq a b ≡ true = (eq_iff a b).1 same in
    let clash : true ≡ false = sym b ∙ e in absurd (grind arith)

-- A request with a new identifier.
All-has_no_request :
    (rs : List Request) (r : Request)
    → has_request rs r.id ≡ false
    → All (λ s. All (λ t. s.id ≢ t.id) (r ∷ [])) rs
All-has_no_request [] r h = tt
All-has_no_request (s ∷ rs) r h = elim (Bool-cases (str_eq s.id r.id)) [
  | inl e ↦ cc (rw e at h)
  | inr e ↦ ((str_eq-differs s.id r.id e, tt), All-has_no_request rs r (rw e at h))
]

pub add_request-Rows :
    (rs : List Request) (attempts : List Attempt) (r : Request)
    → has_request rs r.id ≡ false
    → Rows rs attempts
    → Rows (rs ++ r ∷ []) attempts
add_request-Rows rs attempts r fresh v = record {
  distinct = HasDistinctIds-append rs (r ∷ []) v.distinct (tt, tt) (All-has_no_request rs r fresh);
  owned =
      All-map_mono (λ a. has_request rs a.request_id ≡ true)
        (λ a. has_request (rs ++ r ∷ []) a.request_id ≡ true) attempts
        (λ a h. any-append (has_request_id a.request_id) rs (r ∷ []) h) v.owned;
  numbered = v.numbered;
}

-- An attempt behind the others, with the number that `beginGatewayAttempt` gives it.
pub add_attempt-Rows :
    (rs : List Request) (attempts : List Attempt) (a : Attempt)
    → has_request rs a.request_id ≡ true
    → a.attempt_number ≡ length (keep (belongs_to a.request_id) attempts) + 1
    → Rows rs attempts
    → Rows rs (attempts ++ a ∷ [])
add_attempt-Rows rs attempts a has number v = record {
  distinct = v.distinct;
  owned = All-append (λ b. has_request rs b.request_id ≡ true) attempts (a ∷ []) v.owned (has, tt);
  numbered = λ id.
      rw (keep-append (belongs_to id) attempts (a ∷ [])) (elim (Bool-cases (belongs_to id a)) [
        | inl e ↦
            let mine = same_id a.request_id id e in
            let goes_on : a.attempt_number ≡ 0 + length (keep (belongs_to id) attempts) + 1 =
              omega (arith, number ∙ ap (λ i. length (keep (belongs_to i) attempts) + 1) mine) in
            rw e (IsNumbered-append 0 (keep (belongs_to id) attempts) a (v.numbered id) goes_on)
        | inr e ↦ rw (e, append-nil (keep (belongs_to id) attempts)) (v.numbered id)
      ]);
}

has_request-keep :
    (id : String) (rs : List Request) (i : String)
    → str_eq i id ≡ false
    → has_request rs i ≡ true
    → has_request (keep (λ r. not (has_request_id id r)) rs) i ≡ true
has_request-keep id rs i differs h =
    any-keep (has_request_id i) (λ r. not (has_request_id id r)) rs
      (λ r e.
        let same = same_id r.id i e in
        subst (λ j. not (str_eq j id) ≡ true) (sym same) (ap not differs))
      h

pub delete_gateway_request-Inv :
    (id : String) (db : Database) → Inv db → Inv (delete_gateway_request id db)
unfolding delete_gateway_request
delete_gateway_request-Inv id db v = record {
  distinct = HasDistinctIds-keep (λ r. not (has_request_id id r)) db.gateway_requests v.distinct;
  owned =
      All-map_mono (λ a. In a db.gateway_attempts × (not (belongs_to id a) ≡ true))
        (λ a.
          has_request (keep (λ r. not (has_request_id id r)) db.gateway_requests) a.request_id
          ≡ true)
        (keep (λ a. not (belongs_to id a)) db.gateway_attempts)
        (λ a h. has_request-keep id db.gateway_requests a.request_id (ground (arith, h.1)) (
          All-In (λ b. has_request db.gateway_requests b.request_id ≡ true) a db.gateway_attempts
            v.owned h.0))
        (All-keep_passes (λ a. not (belongs_to id a)) db.gateway_attempts);
  numbered = λ i.
      IsNumbered-keep (not (str_eq i id)) i (λ a. not (belongs_to id a)) db.gateway_attempts
        (λ a e. let same = same_id a.request_id i e in ap (λ j. not (str_eq j id)) same)
        (v.numbered i);
}

-- A request that is still open is no failure that is over.
pub open-failure_apart : (r : Request) → not (is_some r.completed_at) ≡ true → is_failure r ≡ false
open-failure_apart r h = ground arith

-- The requests that `pruneGatewayHistory` keeps beside the open ones.
abbrev pub recent : List Request → List Request
recent rs = take_last 100 (keep is_failure rs)

abbrev pub pruned : List Request → List Request
pruned rs = keep (λ r. not (is_some r.completed_at)) rs ++ recent rs

pruned-HasDistinctIds : (rs : List Request) → HasDistinctIds rs → HasDistinctIds (pruned rs)
pruned-HasDistinctIds rs h =
    let is_open = λ (r : Request). not (is_some r.completed_at) in
    let n = length (keep is_failure rs) - 100 in
    HasDistinctIds-append (keep is_open rs) (recent rs) (HasDistinctIds-keep is_open rs h)
      (HasDistinctIds-drop n (keep is_failure rs) (HasDistinctIds-keep is_failure rs h))
      (All-map_mono (λ r. All (λ s. r.id ≢ s.id) (keep is_failure rs))
        (λ r. All (λ s. r.id ≢ s.id) (recent rs)) (keep is_open rs)
        (λ r d. All-drop (λ s. r.id ≢ s.id) n (keep is_failure rs) d)
        (keep-keep_apart is_open is_failure rs open-failure_apart h))

pub prune_gateway_history-Inv : (db : Database) → Inv db → Inv (prune_gateway_history true db)
unfolding prune_gateway_history
prune_gateway_history-Inv db v =
    let rs = pruned db.gateway_requests in
    let kept = λ (a : Attempt). has_request rs a.request_id && (true || is_over a) in
    record {
      distinct = pruned-HasDistinctIds db.gateway_requests v.distinct;
      owned =
          All-map_mono (λ a. In a db.gateway_attempts × (kept a ≡ true))
            (λ a. has_request rs a.request_id ≡ true) (keep kept db.gateway_attempts)
            (λ a h. ground (arith, h.1)) (All-keep_passes kept db.gateway_attempts);
      numbered = λ i.
          IsNumbered-keep (has_request rs i && true) i kept db.gateway_attempts
            (λ a e. ap (λ j. has_request rs j && true) (same_id a.request_id i e)) (v.numbered i);
    }
