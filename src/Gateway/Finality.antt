-- ===== src/Gateway/Finality.antt =====
-- A request that is finalized stays so.
use codex_pooler.Prelude.{
  ℕ, ◌-◌, ◌≡◌, ◌≢◌, refl, sym, ◌∙◌, subst, String, true, not, ◌⊎◌, inl, inr, Option, none, some,
  List, [], ◌∷◌, keep, length, str_eq, is_some, Bool-cases, Option-cases, All, All-keep, All-drop,
  All-append, All-map_mono,
}
use codex_pooler.Gateway.{
  Database, Request, Code, Reply, thrown, returned, GatewayError, request_not_found,
  request_finalized, attempt_finalized, attempt_not_found, bad_status, has_request_id, find,
  replace_where, find_gateway_attempt,
}
use codex_pooler.Gateway.Operations.{
  begin_gateway_attempt, RetryInput, retry_gateway_attempt, is_failure, prune_gateway_history,
  delete_gateway_request,
}
use codex_pooler.Gateway.Finalizing.{
  Ending, success, failure, FinalizeInput, finalize_gateway_request, finalize_ending,
  finish_request, remove_finished, Finalized,
}
use codex_pooler.Gateway.Rows.{HasDistinctIds, same_id}
use codex_pooler.Gateway.Invariant.{Inv, recent, str_eq-differs}
use codex_pooler.Gateway.Endings.{finalize_gateway_request-Closing}

abbrev pub IsSettled : String → Request → Type 0
IsSettled id r = r.id ≡ id → is_some r.completed_at ≡ true

replace_where-IsSettled :
    (input : FinalizeInput) (e : Ending) (reasons : List Code) (rs : List Request)
    → HasDistinctIds rs
    → All
        (IsSettled input.request_id)
        (replace_where (has_request_id input.request_id) (finish_request input e reasons) rs)
replace_where-IsSettled input e reasons [] d = tt
replace_where-IsSettled input e reasons (r ∷ rs) d =
    elim (Bool-cases (str_eq r.id input.request_id)) [
      | inl m ↦
          let same = same_id r.id input.request_id m in
          let others =
            All-map_mono (λ s. r.id ≢ s.id) (IsSettled input.request_id) rs
              (λ s differs again. absurd (differs (same ∙ sym again))) d.0 in
          rw m ((λ _. refl), others)
      | inr m ↦
          let other : IsSettled input.request_id r =
            λ same. absurd (str_eq-differs r.id input.request_id m same) in
          rw m (other, replace_where-IsSettled input e reasons rs d.1)
    ]

prune_gateway_history-All :
    (P : Request → Type 0) (db : Database)
    → All P db.gateway_requests
    → All P (prune_gateway_history true db).gateway_requests
unfolding prune_gateway_history
prune_gateway_history-All P db h =
    let is_open = λ (r : Request). not (is_some r.completed_at) in
    All-append P (keep is_open db.gateway_requests) (recent db.gateway_requests)
      (All-keep P is_open db.gateway_requests h)
      (All-drop P (length (keep is_failure db.gateway_requests) - 100)
        (keep is_failure db.gateway_requests) (All-keep P is_failure db.gateway_requests h))

remove_finished-All :
    (P : Request → Type 0) (db : Database) (input : FinalizeInput) (e : Ending)
    → All P db.gateway_requests
    → All P (remove_finished db input e).gateway_requests
unfolding delete_gateway_request
remove_finished-All P db input success h =
    prune_gateway_history-All P (delete_gateway_request input.request_id db)
      (All-keep P (λ r. not (has_request_id input.request_id r)) db.gateway_requests h)
remove_finished-All P db input failure h = prune_gateway_history-All P db h

finalize_gateway_request-IsSettled :
    (db : Database) (now : ℕ) (input : FinalizeInput) (after : Database) (result : Finalized)
    → Inv db
    → finalize_gateway_request db now input ≡ returned after result
    → All (IsSettled input.request_id) after.gateway_requests
finalize_gateway_request-IsSettled db now input after result i e =
    let c = finalize_gateway_request-Closing db now input after result e in
    let settled = replace_where-IsSettled input c.ending c.reasons db.gateway_requests i.distinct in
    subst (λ d. All (IsSettled input.request_id) d.gateway_requests) (sym c.removed)
      (remove_finished-All (IsSettled input.request_id) c.before input c.ending
        (subst (All (IsSettled input.request_id)) (sym c.requests) settled))

find_settled :
    (id : String) (rs : List Request)
    → All (IsSettled id) rs
    → (find (has_request_id id) rs ≡ none)
      ⊎ ((r : Request) × (find (has_request_id id) rs ≡ some r) × (is_some r.completed_at ≡ true))
find_settled id [] h = inl refl
find_settled id (r ∷ rs) h = elim (Bool-cases (str_eq r.id id)) [
  | inl m ↦ rw m (inr (r, refl, h.0 (same_id r.id id m)))
  | inr m ↦ rw m (find_settled id rs h.1)
]

abbrev pub Refuses : {A : Type 0} → Reply A → Database → Type 0
Refuses reply db = (e : GatewayError) × (reply ≡ thrown db e)

begin_gateway_attempt_refused :
    (db : Database) (request_id id upstream_id : String) (started_at : ℕ)
    → All (IsSettled request_id) db.gateway_requests
    → Refuses (begin_gateway_attempt db request_id id upstream_id started_at) db
unfolding begin_gateway_attempt
begin_gateway_attempt_refused db request_id id upstream_id started_at h =
    elim (find_settled request_id db.gateway_requests h) [
      | inl n ↦ (request_not_found, rw n refl)
      | inr (r, n, done) ↦ (request_finalized, rw (n, done) refl)
    ]

retry_gateway_attempt_refused :
    (db : Database) (request_id attempt_id : String) (retry : RetryInput)
    → All (IsSettled request_id) db.gateway_requests
    → Refuses (retry_gateway_attempt db request_id attempt_id retry) db
unfolding retry_gateway_attempt
retry_gateway_attempt_refused db request_id attempt_id retry h =
    elim (find_settled request_id db.gateway_requests h) [
      | inl n ↦ (request_not_found, rw n refl)
      | inr (r, n, done) ↦ elim (Option-cases (find_gateway_attempt db request_id attempt_id)) [
        | inl m ↦ (attempt_not_found, rw (n, m) refl)
        | inr (a, m) ↦ (attempt_finalized, rw (n, m, done) refl)
      ]
    ]

finalize_ending_refused :
    (db : Database) (now : ℕ) (input : FinalizeInput) (ending : Option Ending)
    → All (IsSettled input.request_id) db.gateway_requests
    → Refuses (finalize_ending db now input ending) db
finalize_ending_refused db now input none h = (bad_status, refl)
finalize_ending_refused db now input (some e) h =
    elim (find_settled input.request_id db.gateway_requests h) [
      | inl n ↦ (request_not_found, rw n refl)
      | inr (r, n, done) ↦ (request_finalized, rw (n, done) refl)
    ]

-- Once a request is finalized, no further operation on it does anything: beginning an attempt of it,
-- retrying one and finalizing it again all throw and leave the database as it is.
pub finalize_gateway_request_final :
    (db : Database) (now : ℕ) (input : FinalizeInput) (after : Database) (result : Finalized)
    → Inv db
    → finalize_gateway_request db now input ≡ returned after result
    → ((id upstream_id : String) (started_at : ℕ)
        → Refuses (begin_gateway_attempt after input.request_id id upstream_id started_at) after)
      × ((attempt_id : String) (retry : RetryInput)
          → Refuses (retry_gateway_attempt after input.request_id attempt_id retry) after)
      × ((later : ℕ) (again : FinalizeInput)
          → again.request_id ≡ input.request_id
          → Refuses (finalize_gateway_request after later again) after)
unfolding finalize_gateway_request
finalize_gateway_request_final db now input after result i e =
    let settled = finalize_gateway_request-IsSettled db now input after result i e in
    (
      (λ id upstream_id started_at.
          begin_gateway_attempt_refused after input.request_id id upstream_id started_at settled),
      (λ attempt_id retry.
          retry_gateway_attempt_refused after input.request_id attempt_id retry settled),
      (λ later again same.
          finalize_ending_refused after later again again.ending
            (subst (λ i. All (IsSettled i) after.gateway_requests) (sym same) settled)),
    )
