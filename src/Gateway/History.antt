-- ===== src/Gateway/History.antt =====
-- The history of requests that `finalizeGatewayRequest` leaves behind.
use codex_pooler.Prelude.{
  ℕ, ◌-◌, ◌≤◌, ◌≡◌, ◌≢◌, refl, sym, ap, ◌∙◌, subst, String, Bool, true, false, not, inl, inr, none,
  List, [], ◌∷◌, arith, keep, length, length-keep, length-drop, is_some, Bool-cases, In,
  In-append_left, keep-In,
}
use codex_pooler.Gateway.{Database, Request, returned, has_request_id, replace_where}
use codex_pooler.Gateway.Operations.{is_failure, prune_gateway_history, delete_gateway_request}
use codex_pooler.Gateway.Finalizing.{
  Ending, success, failure, FinalizeInput, finalize_gateway_request, finish_request,
  remove_finished, Finalized,
}
use codex_pooler.Gateway.Rows.{same_id, keep-append}
use codex_pooler.Gateway.Invariant.{recent, open-failure_apart}
use codex_pooler.Gateway.Endings.{finalize_gateway_request-Closing}

keep-keep_apart :
    (p q : Request → Bool) (rs : List Request)
    → ((r : Request) → p r ≡ true → q r ≡ false)
    → keep q (keep p rs) ≡ []
keep-keep_apart p q [] k = refl
keep-keep_apart p q (r ∷ rs) k = ground (arith, k r, keep-keep_apart p q rs k)

In-replace_where :
    (p : Request → Bool) (f : Request → Request) (r : Request) (rs : List Request)
    → In r rs
    → p r ≡ false
    → In r (replace_where p f rs)
In-replace_where p f r [] m h = elim m [ ]
In-replace_where p f r (s ∷ rs) (inl e) h =
    let skip : p s ≡ false = sym (ap p e) ∙ h in rw skip (inl e)
In-replace_where p f r (s ∷ rs) (inr m) h = elim (Bool-cases (p s)) [
  | inl e ↦ rw e (inr m)
  | inr e ↦ rw e (inr (In-replace_where p f r rs m h))
]

prune_gateway_history-bound :
    (db : Database)
    → length (keep is_failure (prune_gateway_history true db).gateway_requests) ≤ 100
unfolding prune_gateway_history
prune_gateway_history-bound db =
    let is_open = λ (r : Request). not (is_some r.completed_at) in
    let failures = keep is_failure db.gateway_requests in
    let none_open = keep-keep_apart is_open is_failure db.gateway_requests open-failure_apart in
    let split =
      keep-append is_failure (keep is_open db.gateway_requests) (recent db.gateway_requests) in
    let size = length-drop (length failures - 100) failures in
    rw (split, none_open) (omega (arith, size, length-keep is_failure (recent db.gateway_requests)))

prune_gateway_history-open :
    (db : Database) (r : Request)
    → In r db.gateway_requests
    → r.completed_at ≡ none
    → In r (prune_gateway_history true db).gateway_requests
unfolding prune_gateway_history
prune_gateway_history-open db r m e =
    let is_open = λ (s : Request). not (is_some s.completed_at) in
    In-append_left r (keep is_open db.gateway_requests) (recent db.gateway_requests)
      (keep-In is_open r db.gateway_requests m (ap (λ c. not (is_some c)) e))

remove_finished-bound :
    (db : Database) (input : FinalizeInput) (e : Ending)
    → length (keep is_failure (remove_finished db input e).gateway_requests) ≤ 100
remove_finished-bound db input success =
    prune_gateway_history-bound (delete_gateway_request input.request_id db)
remove_finished-bound db input failure = prune_gateway_history-bound db

has_request_id-false : (id : String) (r : Request) → r.id ≢ id → has_request_id id r ≡ false
has_request_id-false id r differs = elim (Bool-cases (has_request_id id r)) [
  | inl e ↦ absurd (differs (same_id r.id id e))
  | inr e ↦ e
]

remove_finished-open :
    (db : Database) (input : FinalizeInput) (e : Ending) (r : Request)
    → In r db.gateway_requests
    → r.completed_at ≡ none
    → r.id ≢ input.request_id
    → In r (remove_finished db input e).gateway_requests
unfolding delete_gateway_request
remove_finished-open db input success r m e differs =
    prune_gateway_history-open (delete_gateway_request input.request_id db) r
      (keep-In (λ s. not (has_request_id input.request_id s)) r db.gateway_requests m
        (ap not (has_request_id-false input.request_id r differs)))
      e
remove_finished-open db input failure r m e differs = prune_gateway_history-open db r m e

-- At most a hundred failures that are over are kept, and no open request but the finalized one is lost.
pub finalize_gateway_request-history :
    (db : Database) (now : ℕ) (input : FinalizeInput) (after : Database) (result : Finalized)
    → finalize_gateway_request db now input ≡ returned after result
    → (length (keep is_failure after.gateway_requests) ≤ 100)
      × ((r : Request)
          → In r db.gateway_requests
          → r.completed_at ≡ none
          → r.id ≢ input.request_id
          → In r after.gateway_requests)
finalize_gateway_request-history db now input after result e =
    let c = finalize_gateway_request-Closing db now input after result e in
    (
      subst (λ d. length (keep is_failure d.gateway_requests) ≤ 100) (sym c.removed)
          (remove_finished-bound c.before input c.ending),
      λ r m open_still differs.
          subst (λ d. In r d.gateway_requests) (sym c.removed)
            (remove_finished-open c.before input c.ending r
              (subst (In r) (sym c.requests) (
                In-replace_where (has_request_id input.request_id)
                  (finish_request input c.ending c.reasons) r db.gateway_requests m
                  (has_request_id-false input.request_id r differs)))
              open_still differs),
    )
