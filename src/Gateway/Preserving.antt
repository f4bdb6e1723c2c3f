-- ===== src/Gateway/Preserving.antt =====
-- Every operation on the gateway's requests keeps the invariant, whether it returns or throws.
use codex_pooler.Prelude.{
  ℕ, ◌≡◌, refl, sym, subst, String, true, false, not, ◌||◌, Option, none, some, [], ◌∷◌, ◌++◌,
  if_elim, any, str_eq, is_some, Option-cases, inl, inr,
}
use codex_pooler.Spending.{UsageResult, refused, recorded, record_usage}
use codex_pooler.Gateway.{
  Database, Request, Attempt, Account, Reply, thrown, returned, database_of, in_progress,
  has_request_id, is_attempt, replace_where, scoped, find_gateway_request, find_gateway_attempt,
  gateway_attempts_of, error_codes,
}
use codex_pooler.Gateway.Usage.{UsageReport, add_gateway_usage, safe_cost}
use codex_pooler.Gateway.Operations.{
  has_request, Reservation, new_request, is_key, reserve_gateway_request, is_open_request,
  is_open_attempt, is_account, set_status, new_attempt, begin_gateway_attempt, RetryInput,
  fail_attempt, count_retry, retry_gateway_attempt, delete_gateway_request, record_gateway_usage,
}
use codex_pooler.Gateway.Finalizing.{
  Ending, FinalizeInput, finalize_gateway_request, finalize_ending, finalize_with, close_request,
  store_attempt, store_request, finish_attempt, finish_request, count_usage, charge, charge_account,
  store_spending, charged_upstream, finish_history, save_account, remove_finished, Finalized,
  is_success, report_of, find_account, non_empty, map_attempt,
}
use codex_pooler.Gateway.Rows.{find-any, find_passes, same_id}
use codex_pooler.Gateway.Invariant.{
  Inv, add_request-Rows, add_attempt-Rows, update_requests-Rows, update_attempts-Rows,
  delete_gateway_request-Inv, prune_gateway_history-Inv,
}

abbrev Keeps : {A : Type 0} → Reply A → Type 0
Keeps reply = Inv (database_of reply)

pub reserve_gateway_request-Inv :
    (db : Database) (v : Reservation)
    → has_request db.gateway_requests v.id ≡ false
    → Inv db
    → Inv (database_of (reserve_gateway_request db v))
unfolding reserve_gateway_request
reserve_gateway_request-Inv db v fresh i =
    if_elim {A = Reply Request} Keeps (str_eq v.api_key_id "") (λ _. i)
      λ _.
        if_elim {A = Reply Request} Keeps (not (any (λ s. str_eq s v.scope_id) db.scopes)) (λ _. i)
          λ _.
            if_elim {A = Reply Request} Keeps (not (any (is_key v) db.api_keys)) (λ _. i)
              λ _. add_request-Rows db.gateway_requests db.gateway_attempts (new_request v) fresh i

pub begin_gateway_attempt-Inv :
    (db : Database) (request_id id upstream_id : String) (started_at : ℕ)
    → Inv db
    → Inv (database_of (begin_gateway_attempt db request_id id upstream_id started_at))
unfolding begin_gateway_attempt
begin_gateway_attempt-Inv db request_id id upstream_id started_at i =
    elim (Option-cases (find_gateway_request db request_id)) [
      | inl e ↦ rw e i
      | inr (r, e) ↦
          let has : has_request db.gateway_requests r.id ≡ true =
            subst (λ j. has_request db.gateway_requests j ≡ true)
              (sym (
                same_id r.id request_id
                  (find_passes (has_request_id request_id) db.gateway_requests r e)))
              (find-any (has_request_id request_id) db.gateway_requests r e) in
          rw e (
            if_elim {A = Reply Attempt} Keeps (is_some r.completed_at || not (is_open_request r))
              (λ _. i)
              λ _.
                if_elim {A = Reply Attempt} Keeps
                  (not (any (is_account upstream_id) (scoped db.upstreams r.scope_id))) (λ _. i)
                  λ _.
                    update_requests-Rows db.gateway_requests
                      (db.gateway_attempts ++ new_attempt db r id upstream_id started_at ∷ [])
                      (has_request_id r.id) (set_status in_progress) (λ _. refl)
                      (add_attempt-Rows db.gateway_requests db.gateway_attempts
                        (new_attempt db r id upstream_id started_at) has refl i))
    ]

pub retry_gateway_attempt-Inv :
    (db : Database) (request_id attempt_id : String) (input : RetryInput)
    → Inv db
    → Inv (database_of (retry_gateway_attempt db request_id attempt_id input))
unfolding retry_gateway_attempt
retry_gateway_attempt-Inv db request_id attempt_id input i =
    elim (Option-cases (find_gateway_request db request_id)) [
      | inl e ↦ rw e i
      | inr (r, e) ↦ elim (Option-cases (find_gateway_attempt db request_id attempt_id)) [
        | inl n ↦ rw (e, n) i
        | inr (a, n) ↦
            rw (e, n)
              (if_elim {A = Reply Attempt} Keeps (is_some r.completed_at || not (is_open_attempt a))
                (λ _. i)
                λ _.
                  update_requests-Rows db.gateway_requests
                    (replace_where (is_attempt request_id a.id) (fail_attempt input)
                      db.gateway_attempts)
                    (has_request_id request_id) count_retry (λ _. refl)
                    (update_attempts-Rows db.gateway_requests db.gateway_attempts
                      (is_attempt request_id a.id) (fail_attempt input) (λ _. (refl, refl)) i))
      ]
    ]

store_attempt-Inv :
    (db : Database) (input : FinalizeInput) (e : Ending) (attempt : Option Attempt)
    → Inv db
    → Inv (store_attempt db input e attempt)
store_attempt-Inv db input e none i = i
store_attempt-Inv db input e (some a) i =
    update_attempts-Rows db.gateway_requests db.gateway_attempts (is_attempt input.request_id a.id)
      (finish_attempt input e) (λ _. (refl, refl)) i

store_spending-Inv :
    (db : Database) (u : Account) (result : UsageResult)
    → Inv db
    → Inv (database_of (store_spending db u result))
store_spending-Inv db u (refused e) i = i
store_spending-Inv db u (recorded sp r) i = i

charge_account-Inv :
    (db : Database) (input : FinalizeInput) (a : Attempt) (account : Option Account)
    → Inv db
    → Inv (database_of (charge_account db input a account))
charge_account-Inv db input a none i = i
charge_account-Inv db input a (some u) i =
    store_spending-Inv db u
      (record_usage u.spending (record {
        attempt_id = a.id;
        cost_source = input.cost_source;
        settled_cost_micros = safe_cost input.settled_cost_micros;
        started_at = some a.started_at;
      }))
      i

charge-Inv :
    (db : Database) (input : FinalizeInput) (a : Attempt) (upstream : Option String)
    → Inv db
    → Inv (database_of (charge db input a upstream))
charge-Inv db input a none i = i
charge-Inv db input a (some id) i = charge_account-Inv db input a (find_account db id) i

count_usage-Inv :
    (db : Database) (now : ℕ) (input : FinalizeInput) (e : Ending) (r : Request)
    (attempt : Option Attempt)
    → Inv db
    → Inv (database_of (count_usage db now input e r attempt))
count_usage-Inv db now input e r none i = i
count_usage-Inv db now input e r (some a) i =
    if_elim {A = Reply Unit} Keeps (is_success e || is_some input.usage)
      (λ _.
        charge-Inv
          (record db {
            gateway_usage = (add_gateway_usage now db.gateway_usage (report_of input r a)).0;
          })
          input a (charged_upstream input (some a)) i)
      (λ _. i)

remove_finished-Inv :
    (db : Database) (input : FinalizeInput) (e : Ending) → Inv db → Inv (remove_finished db input e)
remove_finished-Inv db input Ending.success i =
    prune_gateway_history-Inv (delete_gateway_request input.request_id db)
      (delete_gateway_request-Inv input.request_id db i)
remove_finished-Inv db input Ending.failure i = prune_gateway_history-Inv db i

save_account-Inv :
    {A : Type 0} (db : Database) (upstream : Option String) (result : A)
    → Inv db
    → Inv (database_of (save_account db upstream result))
save_account-Inv db none result i = i
save_account-Inv {A} db (some id) result i =
    if_elim {A = Reply A} Keeps (is_some (find_account db id)) (λ _. i) (λ _. i)

finish_history-Inv :
    (input : FinalizeInput) (e : Ending) (attempt : Option Attempt) (result : Finalized)
    (reply : Reply Unit)
    → Inv (database_of reply)
    → Inv (database_of (finish_history input e attempt result reply))
finish_history-Inv input e attempt result (thrown db error) i = i
finish_history-Inv input e attempt result (returned db _) i =
    save_account-Inv (remove_finished db input e) (charged_upstream input attempt) result
      (remove_finished-Inv db input e i)

close_request-Inv :
    (db : Database) (now : ℕ) (input : FinalizeInput) (e : Ending) (r : Request)
    (attempt : Option Attempt)
    → Inv db
    → Inv (database_of (close_request db now input e r attempt))
close_request-Inv db now input e r attempt i =
    let with_attempt = store_attempt db input e attempt in
    let reasons = error_codes (gateway_attempts_of with_attempt input.request_id) in
    finish_history-Inv input e attempt
      (finish_request input e reasons r, map_attempt (finish_attempt input e) attempt)
      (count_usage (store_request with_attempt input e reasons) now input e r attempt)
      (count_usage-Inv (store_request with_attempt input e reasons) now input e r attempt (
        update_requests-Rows with_attempt.gateway_requests with_attempt.gateway_attempts
          (has_request_id input.request_id) (finish_request input e reasons) (λ _. refl)
          (store_attempt-Inv db input e attempt i)))

finalize_with-Inv :
    (db : Database) (now : ℕ) (input : FinalizeInput) (e : Ending) (r : Request)
    (attempt_id : Option String)
    → Inv db
    → Inv (database_of (finalize_with db now input e r attempt_id))
finalize_with-Inv db now input e r none i =
    if_elim {A = Reply Finalized} Keeps (is_success e) (λ _. i)
      (λ _. close_request-Inv db now input e r none i)
finalize_with-Inv db now input e r (some id) i =
    elim (Option-cases (find_gateway_attempt db input.request_id id)) [
      | inl n ↦ rw n i
      | inr (a, n) ↦ rw n (
          if_elim {A = Reply Finalized} Keeps (is_open_attempt a)
            (λ _. close_request-Inv db now input e r (some a) i) (λ _. i))
    ]

finalize_ending-Inv :
    (db : Database) (now : ℕ) (input : FinalizeInput) (ending : Option Ending)
    → Inv db
    → Inv (database_of (finalize_ending db now input ending))
finalize_ending-Inv db now input none i = i
finalize_ending-Inv db now input (some e) i =
    elim (Option-cases (find_gateway_request db input.request_id)) [
      | inl n ↦ rw n i
      | inr (r, n) ↦ rw n (
          if_elim {A = Reply Finalized} Keeps (is_some r.completed_at) (λ _. i)
            (λ _. finalize_with-Inv db now input e r (non_empty input.attempt_id) i))
    ]

pub finalize_gateway_request-Inv :
    (db : Database) (now : ℕ) (input : FinalizeInput)
    → Inv db
    → Inv (database_of (finalize_gateway_request db now input))
unfolding finalize_gateway_request
finalize_gateway_request-Inv db now input i = finalize_ending-Inv db now input input.ending i

pub record_gateway_usage-Inv :
    (db : Database) (now : ℕ) (r : UsageReport) → Inv db → Inv (record_gateway_usage db now r)
record_gateway_usage-Inv db now r i =
    if_elim {A = Database} Inv (str_eq r.attempt_id "") (λ _. i) (λ _. i)
