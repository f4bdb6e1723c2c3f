-- ===== src/Gateway/Endings.antt =====
-- How `finalizeGatewayRequest` comes to the database with which it returns.
use codex_pooler.Prelude.{
  ℕ, ◌≡◌, refl, ap, subst, String, ◌||◌, inl, inr, Option, none, some, List, if_elim, is_some,
  Option-cases,
}
use codex_pooler.Spending.{UsageResult, refused, recorded, record_usage}
use codex_pooler.Gateway.{
  Database, Request, Attempt, Account, Code, Reply, thrown, returned, has_request_id, replace_where,
  find_gateway_request, find_gateway_attempt, gateway_attempts_of, error_codes,
}
use codex_pooler.Gateway.Usage.{add_gateway_usage, safe_cost}
use codex_pooler.Gateway.Operations.{is_open_attempt}
use codex_pooler.Gateway.Finalizing.{
  Ending, FinalizeInput, finalize_gateway_request, finalize_ending, finalize_with, close_request,
  store_attempt, store_request, finish_attempt, finish_request, count_usage, charge, charge_account,
  store_spending, charged_upstream, finish_history, save_account, remove_finished, Finalized,
  is_success, report_of, find_account, non_empty, map_attempt,
}

-- What holds of the database where an operation returns.
abbrev OnReturn : {A : Type 0} → (Database → Type 0) → Reply A → Type 0
OnReturn P (thrown db e) = Unit
OnReturn P (returned db a) = P db

returned-OnReturn :
    {A : Type 0} (P : Database → Type 0) (reply : Reply A) (db : Database) (a : A)
    → OnReturn P reply
    → reply ≡ returned db a
    → P db
returned-OnReturn P reply db a h e = subst (OnReturn P) e h

-- The history comes of the requests as they were, with the finished one in its place.
pub record Closing (db : Database) (input : FinalizeInput) (after : Database) : Type 0 where
  pub ending : Ending
  pub reasons : List Code
  pub before : Database
  pub requests : before.gateway_requests ≡ (store_request db input ending reasons).gateway_requests
  pub removed : after ≡ remove_finished before input ending

abbrev KeepsRequests : Database → Database → Type 0
KeepsRequests db after = after.gateway_requests ≡ db.gateway_requests

store_spending-requests :
    (db : Database) (u : Account) (result : UsageResult)
    → OnReturn (KeepsRequests db) (store_spending db u result)
store_spending-requests db u (refused e) = tt
store_spending-requests db u (recorded sp r) = refl

charge_account-requests :
    (db : Database) (input : FinalizeInput) (a : Attempt) (account : Option Account)
    → OnReturn (KeepsRequests db) (charge_account db input a account)
charge_account-requests db input a none = tt
charge_account-requests db input a (some u) = store_spending-requests db u (
    record_usage u.spending (record {
      attempt_id = a.id;
      cost_source = input.cost_source;
      settled_cost_micros = safe_cost input.settled_cost_micros;
      started_at = some a.started_at;
    }))

charge-requests :
    (db : Database) (input : FinalizeInput) (a : Attempt) (upstream : Option String)
    → OnReturn (KeepsRequests db) (charge db input a upstream)
charge-requests db input a none = refl
charge-requests db input a (some id) = charge_account-requests db input a (find_account db id)

count_usage-requests :
    (db : Database) (now : ℕ) (input : FinalizeInput) (e : Ending) (r : Request)
    (attempt : Option Attempt)
    → OnReturn (KeepsRequests db) (count_usage db now input e r attempt)
count_usage-requests db now input e r none = refl
count_usage-requests db now input e r (some a) =
    if_elim {A = Reply Unit} (OnReturn (KeepsRequests db)) (is_success e || is_some input.usage)
      (λ _.
        charge-requests
          (record db {
            gateway_usage = (add_gateway_usage now db.gateway_usage (report_of input r a)).0;
          })
          input a (charged_upstream input (some a)))
      (λ _. refl)

save_account-OnReturn :
    (P : Database → Type 0) (db : Database) (upstream : Option String) (result : Finalized)
    → P db
    → OnReturn P (save_account db upstream result)
save_account-OnReturn P db none result h = h
save_account-OnReturn P db (some id) result h =
    if_elim {A = Reply Finalized} (OnReturn P) (is_some (find_account db id)) (λ _. h) (λ _. tt)

finish_history-Closing :
    (db : Database) (input : FinalizeInput) (e : Ending) (reasons : List Code)
    (attempt : Option Attempt) (result : Finalized) (reply : Reply Unit)
    → OnReturn (λ d. d.gateway_requests ≡ (store_request db input e reasons).gateway_requests) reply
    → OnReturn (Closing db input) (finish_history input e attempt result reply)
finish_history-Closing db input e reasons attempt result (thrown d error) h = tt
finish_history-Closing db input e reasons attempt result (returned d _) h =
    save_account-OnReturn (Closing db input) (remove_finished d input e)
      (charged_upstream input attempt) result
      (record { ending = e; reasons = reasons; before = d; requests = h; removed = refl })

store_attempt-requests :
    (db : Database) (input : FinalizeInput) (e : Ending) (attempt : Option Attempt)
    → (store_attempt db input e attempt).gateway_requests ≡ db.gateway_requests
store_attempt-requests db input e none = refl
store_attempt-requests db input e (some a) = refl

close_request-Closing :
    (db : Database) (now : ℕ) (input : FinalizeInput) (e : Ending) (r : Request)
    (attempt : Option Attempt)
    → OnReturn (Closing db input) (close_request db now input e r attempt)
close_request-Closing db now input e r attempt =
    let with_attempt = store_attempt db input e attempt in
    let reasons = error_codes (gateway_attempts_of with_attempt input.request_id) in
    let closed = store_request with_attempt input e reasons in
    let same =
      ap (replace_where (has_request_id input.request_id) (finish_request input e reasons))
        (store_attempt-requests db input e attempt) in
    finish_history-Closing db input e reasons attempt
      (finish_request input e reasons r, map_attempt (finish_attempt input e) attempt)
      (count_usage closed now input e r attempt)
      (subst
        (λ rs. OnReturn (λ d. d.gateway_requests ≡ rs) (count_usage closed now input e r attempt))
        same (count_usage-requests closed now input e r attempt))

finalize_with-Closing :
    (db : Database) (now : ℕ) (input : FinalizeInput) (e : Ending) (r : Request)
    (attempt_id : Option String)
    → OnReturn (Closing db input) (finalize_with db now input e r attempt_id)
finalize_with-Closing db now input e r none =
    if_elim {A = Reply Finalized} (OnReturn (Closing db input)) (is_success e) (λ _. tt)
      (λ _. close_request-Closing db now input e r none)
finalize_with-Closing db now input e r (some id) =
    elim (Option-cases (find_gateway_attempt db input.request_id id)) [
      | inl n ↦ rw n tt
      | inr (a, n) ↦ rw n (
          if_elim {A = Reply Finalized} (OnReturn (Closing db input)) (is_open_attempt a)
            (λ _. close_request-Closing db now input e r (some a)) (λ _. tt))
    ]

finalize_ending-Closing :
    (db : Database) (now : ℕ) (input : FinalizeInput) (ending : Option Ending)
    → OnReturn (Closing db input) (finalize_ending db now input ending)
finalize_ending-Closing db now input none = tt
finalize_ending-Closing db now input (some e) =
    elim (Option-cases (find_gateway_request db input.request_id)) [
      | inl n ↦ rw n tt
      | inr (r, n) ↦ rw n (
          if_elim {A = Reply Finalized} (OnReturn (Closing db input)) (is_some r.completed_at)
            (λ _. tt) (λ _. finalize_with-Closing db now input e r (non_empty input.attempt_id)))
    ]

pub finalize_gateway_request-Closing :
    (db : Database) (now : ℕ) (input : FinalizeInput) (after : Database) (result : Finalized)
    → finalize_gateway_request db now input ≡ returned after result
    → Closing db input after
unfolding finalize_gateway_request
finalize_gateway_request-Closing db now input after result e =
    returned-OnReturn (Closing db input) (finalize_gateway_request db now input) after result
      (finalize_ending-Closing db now input input.ending) e
