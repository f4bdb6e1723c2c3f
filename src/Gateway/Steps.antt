-- ===== src/Gateway/Steps.antt =====
-- The operations on the gateway's requests as steps, and what holds after any number of them.
use codex_pooler.Prelude.{ℕ, ◌≡◌, String, false}
use codex_pooler.Gateway.{Database, database_of}
use codex_pooler.Gateway.Usage.{UsageReport}
use codex_pooler.Gateway.Operations.{
  has_request, Reservation, reserve_gateway_request, begin_gateway_attempt, RetryInput,
  retry_gateway_attempt, record_gateway_usage,
}
use codex_pooler.Gateway.Finalizing.{FinalizeInput, finalize_gateway_request}
use codex_pooler.Gateway.Invariant.{Inv}
use codex_pooler.Gateway.Preserving.{
  reserve_gateway_request-Inv, begin_gateway_attempt-Inv, retry_gateway_attempt-Inv,
  finalize_gateway_request-Inv, record_gateway_usage-Inv,
}

-- One operation, whether it returns or throws. The identifier of a new request is fresh.
pub data Step : Database → Database → Type 0 where
  reserve :
      (db : Database) (v : Reservation)
      → has_request db.gateway_requests v.id ≡ false
      → Step db (database_of (reserve_gateway_request db v))
  begin :
      (db : Database) (request_id id upstream_id : String) (started_at : ℕ)
      → Step db (database_of (begin_gateway_attempt db request_id id upstream_id started_at))
  retry :
      (db : Database) (request_id attempt_id : String) (input : RetryInput)
      → Step db (database_of (retry_gateway_attempt db request_id attempt_id input))
  finalize :
      (db : Database) (now : ℕ) (input : FinalizeInput)
      → Step db (database_of (finalize_gateway_request db now input))
  use_outside :
      (db : Database) (now : ℕ) (r : UsageReport) → Step db (record_gateway_usage db now r)

pub data Reaches (start : Database) : Database → Type 0 where
  here : Reaches start start
  next : {db after : Database} → Reaches start db → Step db after → Reaches start after

Step-Inv : {db after : Database} → Step db after → Inv db → Inv after
Step-Inv (reserve db v fresh) i = reserve_gateway_request-Inv db v fresh i
Step-Inv (begin db request_id id upstream_id started_at) i =
    begin_gateway_attempt-Inv db request_id id upstream_id started_at i
Step-Inv (retry db request_id attempt_id input) i =
    retry_gateway_attempt-Inv db request_id attempt_id input i
Step-Inv (finalize db now input) i = finalize_gateway_request-Inv db now input i
Step-Inv (use_outside db now r) i = record_gateway_usage-Inv db now r i

-- Whatever operations follow, and whether they return or throw: if the identifiers of new requests are
-- fresh, then no two requests share an identifier, each attempt's request is there, and the attempts
-- of each request are numbered 1, 2, 3 and so on in the order in which they began.
pub Reaches-Inv : {start db : Database} → Inv start → Reaches start db → Inv db
Reaches-Inv i here = i
Reaches-Inv i (next before step) = Step-Inv step (Reaches-Inv i before)
