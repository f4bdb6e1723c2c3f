-- ===== src/Lib.antt =====
-- The Node gateway of codex-pooler (node/src): it spreads requests over upstream accounts, lets
-- accounts rest when they refuse, and keeps to the spending caps and start intervals they are
-- given.
--
-- Parts and files. For every attempt the store asks the account (Accounts:
-- `beginUpstreamAttempt` and `settleUpstreamAttempt` of node/src/store.js), which asks the
-- circuit of the model (Circuits: `beginCircuitLease` and its settlements, node/src/store.js).
-- How an attempt is settled follows from the class of the upstream's answer (Outcomes.Status:
-- `classifyHttpResponse` and `classifySseEvent`, node/src/upstream-outcomes.js) and how long an
-- account rests from its headers (Outcomes.Cooldown: `quotaCooldown`, the same file;
-- Outcomes.Transport covers requests without an answer and the rules of Claude accounts). Before
-- an account is asked the spending caps exclude some (Spending: `recordUsage`,
-- `spendingEligibility`, `filterSpendCapEligible` of node/src/domain.js), and the plan of who is
-- tried in which order is Routing (`candidatePlanDetails`, `orderRoutingCandidates`,
-- node/src/store.js; `codexCapacityDecision`, node/src/provider-credits.js), which asks
-- Accounts, Circuits and Spending; before a request goes out it waits for its turn (Pacing:
-- `acquire`, `schedule` and the rest of node/src/upstream-pacer.js). Requests to a Codex origin
-- pass a circuit breaker (HostHealth: `CodexHostHealth` and `withCodexHostHealth`,
-- node/src/codex-host-health.js). Measured usage is turned into money by a price row (Pricing:
-- `resolvePrice` and `priceUsage` of node/src/pricing.js). The gateway's own books are Gateway
-- (`reserveGatewayRequest`, `beginGatewayAttempt`, `retryGatewayAttempt`,
-- `finalizeGatewayRequest`, node/src/store.js), which charges an account's Spending, with the
-- daily totals of Gateway.Usage. The events of an upstream's stream are cut by Streaming
-- (`consumeSseChunk`, node/src/openai-streaming.js). Clients are let in by Admission
-- (`clientIp`, `firewallAllowed`, node/src/admission.js). What an upstream turned out not to
-- support is learnt by Compatibility (`observe`, node/src/compatibility-learning.js). Prelude
-- holds the numbers, lists, tables and the eviction of the oldest that these share.
--
-- Correspondence. A class or a live object is a record, an operation a function from it to the
-- new record with its answer; an operation that returns early returns what it has written until
-- then. JavaScript maps and objects used as maps are tables in the order of insertion. Times are
-- milliseconds in the natural numbers; `now - window` is compared by adding on the other side.
-- Promises and their timers are lists of answers and a time to wake at.
--
-- Bounds and fuel. Walks along error causes take their depth from the source. The scheduler's
-- microtasks run for one round more than its queue is long: each round but the last starts an
-- entry. The source reads the clock anew in each round; `drain` takes one reading for all of
-- them, and `start_times` of Pacing.Waiting lets the clock move from round to round.
--
-- Parameters. URL parsing, the test of IP addresses, string case and length, collation, digests
-- of circuit keys, the model keys of Claude accounts and, for Accounts, the quota test of the
-- routing plan are arguments of the definitions; so is what the plan asks of Claude
-- configuration (Routing.Exclusions.Rules). Not modelled: reports (`status`), JSON and header
-- parsing, files, sockets and the user interface.
pub mod Prelude
pub mod HostHealth
pub mod Streaming
pub mod Gateway
pub mod Routing
pub mod Admission
pub mod Compatibility
pub mod Spending
pub mod Pricing
pub mod Pacing
pub mod Outcomes
pub mod Circuits
pub mod Accounts
