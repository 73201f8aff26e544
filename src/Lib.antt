-- ===== src/Lib.antt =====
-- RepairFlow: a repair shop's orders, from intake to handover, as an API (apps/api), a worker that
-- sends notifications and runs AI jobs (apps/worker), and a web application (apps/web).
--
-- The library models the parts that decide what may happen to an order, its money and its
-- messages.
--
-- RepairOrders/: apps/api/src/modules/repair-orders/state-machine.
--   Types         the columns that transitions read (TransitionOrderRecord), commands, the database
--   Graph         repair-order-transition-graph.ts
--   WorkLogs      workLogSemanticType, workLogScope, effectiveTechnicalScopes
--   Scope         approvedScope, from the JSON snapshot of an approval
--   Permission    actorCanSee, assertAllowedEdge, assertPermission, assertCompletionOutcome
--   Guards        assertGuards, one definition for each of its conditions
--   Transition    transitionInTransaction and its entries for the other services, advanceAfterQcPass
--   Lifecycle     any sequence of transitions and of changes by other services
--   Refinement    the life cycle of one order, which these sequences implement
-- Billing/: apps/api/src/modules/payments and apps/api/src/modules/handovers.
--   Desk          the rows of one order that both write
--   Balance       payment.types.ts: the monetary summary, and the quote that binds
--   Payments      the operation of PaymentsService.create
--   Handovers     the operation of HandoversService.complete, which runs the state machine's
--                 transition after a handover on the row that it has just written
--   Facts, Closing, Ledger what a success went through, and any sequence of payments and handovers
-- Portal/: apps/api/src/modules/public-portal.
--   Decision      calculateDecision and discountedTotal
--   Choice, Groups what a decision approves, its total, and approval groups
--   Links         assertReadable
--   Snapshot      approvedSnapshot, and in RoundTrip its reading by the service execution
--   Visit         the rows of one order, its quote versions and its links
--   Lineage       validateStoredLineage and parseApprovedSnapshot
--   Deciding      the operation of decide, which runs the state machine's transition after a quote
--                 decision on the rows that it has just written
--   Taken, Settled what a decision went through, and what it leaves behind
-- ServiceExecution/: apps/api/src/modules/service-execution.
--   Bench         the rows of one order that the four operations read and write
--   ApprovedScope parseApprovedScope of service-execution.types.ts
--   Access        lockAndLoadOrder and the look-ups of approved items
--   Logs          createWorkLog, with resolveWorkLogCorrection
--   Requirements  createPartRequirement and updatePartRequirement
--   UsedParts     createPartUsed
--   History       any sequence of these, while status and technician of the order change
-- Quotes/: apps/api/src/modules/quotes.
--   Calculation   quote-calculator.ts and the checks of quotes.service.ts on what it calculates
--   Totals        the totals of a sent quote beside those of the decision on it
--   Replacement   assertReplacementSend and parseApprovedSnapshot
--   Sending       the operation of send, which runs the state machine's transition after a send
--   Withdrawal, OneSent what a send leaves behind
-- QualityControl/: apps/api/src/modules/quality-control/runs.
--   Checklist     the checks of qc-runs.service.ts and deriveResult
--   Runs          submit, which runs the state machine on the row with the new run
--   Recorded, Verdict what passes, and what a submission does
-- Idempotency/: apps/api/src/common/idempotency/idempotency.service.ts, executeStored, over any
-- operation.
-- Worker/: apps/worker/src.
--   CircuitBreaker    ai/circuit-breaker.ts, with the permits that it has handed out
--   Outbox            rows, options, retryDelayMs and the error codes of outbox/
--   Outbox/Claims     claimBatch, completeClaim and failClaim of outbox-repository.ts
--   Outbox/Leases     any sequence of these by any workers
--   Outbox/Liveness   when a row is claimed
--   Outbox/Sending    notification-outbox-handler.ts
--   Outbox/Processing, Outbox/Polls  outbox-processor.ts and composite-outbox-processor.ts
-- Common/: lists, tests, the white space of texts, and Result, which is a value or the code of the
-- ApiException that was thrown. A refused operation leaves no new state, as its transaction is
-- rolled back.
--
-- Conventions. Ids are texts. Times are milliseconds, given as arguments, as are the keys that the
-- database gives to new rows. Amounts of money are natural numbers, like the checked columns. A
-- query is its `where` clause over a list of rows; a table holds the order in which the query reads
-- it. Numbers of lock versions and attempts do not overflow. Requests have passed their DTO, with
-- texts trimmed and ids in lower case. Events and audit rows carry what the theorems speak of;
-- payloads made for display are left out.
--
-- Parameters. The notification adapter's hash of an e-mail address or of the destination of a send,
-- the media verifier over object storage, and the message resolver with the mail provider are
-- functions of any kind, and nothing is assumed of them; so is the normalisation of texts that the
-- lineage check compares (NFKC and Vietnamese lower case); so are the hash of an idempotent request
-- and the operation itself.
--
-- Bounds. The chain of corrections of a work log is followed with as much fuel as there are logs
-- and two more; the walk keeps the ids that it has seen, so each step uses one up, and
-- RepairOrders/WorkLogs/Chains proves that the fuel is enough. The loop of
-- resolveWorkLogCorrection has as much, and ServiceExecution/Corrections proves the same of it. All
-- else recurs on lists.
--
-- Not modelled: PostgreSQL, Prisma, NestJS and HTTP themselves, DTO validation, sessions and
-- cryptography, the AI gateways and prompts, object storage, and the web application. Of the quotes
-- service, creating and replacing drafts are not modelled: what they write to an order stands in
-- Lifecycle as a change that keeps its life-cycle columns. The raw token of a link is not modelled
-- either. The views of responses, which leave the state as it is, are left out.
pub mod Common
pub mod RepairOrders
pub mod Billing
pub mod Portal
pub mod Idempotency
pub mod QualityControl
pub mod Worker
pub mod ServiceExecution
pub mod Quotes
