-- ===== src/Lib.antt =====
-- A verification library for deliberum: the event store and the deliberation engine on top of it.
--
-- Parts of the program and where they are modelled
--  * packages/protocol/src (zod schemas): Protocol. common.ts is Protocol/Common, core.ts
--    Protocol/Core, deliberation.ts Protocol/Deliberation, proposals.ts Protocol/Proposals, events.ts
--    Protocol/Events, resources.ts Protocol/Resources. A schema is a record for the shape and a
--    Boolean check for the rest; Protocol/Encode gives the JSON value of each record.
--  * packages/storage/src: Storage. idempotency.ts (isCompatibleIdempotentEventInput, toComparableEvent)
--    is Storage/Idempotency, integrity.ts (attachEventIntegrity, computeEventHash,
--    validateEventIntegrityChain) Storage/Integrity, in-memory-event-store.ts Storage/Memory. The
--    proofs are in Storage/Memory/* and Storage/Chain; Storage/Memory/Log is the append-only log that
--    the in-memory store is a refinement of. json-file-event-store.ts is Storage/JsonFile
--    and, for load, Storage/JsonFile/Ledger.
--  * packages/core/src: Core. Core/World holds what each operation takes as options: the store, the id
--    generator, the clock. sealed-divergence.ts (openSealedBatch, submitSealedContribution,
--    closeSealedBatch, getOpenBatchState) is Core/SealedDivergence, projections.ts Core/Projections,
--    process-proposals.ts Core/ProcessProposals and its child States, extraction-proposals.ts
--    (proposeExtraction, challengeProposal, acceptProposal) Core/ExtractionProposals, session.ts
--    (createSession) Core/Session, final-outcome.ts (proposeFinalCandidate, auditFinalCandidate,
--    recordEvidenceResult, compileOutcome) Core/FinalOutcome and its children Evidence, Outcome and
--    Compile; the other children hold proofs.
--  * packages/resources/src: Resources. types.ts is Resources/Types, resource-broker.ts
--    Resources/Broker, delivery-planner.ts Resources/Planner, Resources/Url and Resources/Base64.
--  * packages/orchestrator/src/adaptive-primitive-scheduler.ts (suggestAdaptivePrimitiveProposals):
--    Orchestrator/Gaps (what is missing in a run) and Orchestrator/Scheduler.
--  * errors.ts of packages/core, packages/storage and packages/resources: Errors, one
--    constructor per class.
--  * Tests holds concrete runs, to which the theorems are applied.
--
-- How the parts interact
--    The core never changes an event: it reads the store's lists, decides, and hands one input to
--    appendEventResult, which numbers, links and stores it or replays the event of a repeated
--    idempotency key. Everything else is computed again from the events. An operation here is an
--    action on a state that may throw (Exec of Errors); what was written before a throw stays written.
--    History describes runs as steps: the three batch operations and any append of other components
--    that is not a sealed contribution. The scheduler reads a run record and the projections of the
--    run's session and only suggests. The planner of resource deliveries reads the broker's registered
--    resources and contents and never changes them.
--
-- How the code is modelled
--  * Parameters (Host of Protocol/Host): the n-th result of the id generator and of both clocks,
--    Date.parse, the SHA-256 digest of an event's canonical text, and which options are set. JsonHost
--    of Storage/JsonFile has JSON.parse, JSON.stringify, localeCompare and which writes of the file
--    fail; Resources/Runtime has what the planner takes from URL, Buffer and the regular expressions;
--    the scheduler takes its hash. Nothing is assumed of them but what a theorem's hypotheses say.
--  * A payload, of type unknown in the source, is a sum of the shapes that the schemas accept and of
--    other JSON. A shape check of zod is therefore a type here; where the store compares
--    payloads, each is the JSON value that it is, with sorted keys and without the generated ones.
--    Numbers of JSON are texts.
--  * Sequence numbers, counts and bounds are natural numbers: the checks for fractions and negative
--    bounds cannot fail here. Texts are compared as a whole; sorting of keys is by the text order.
--  * Events are values, so structuredClone and deepFreeze are the identity. The check that an input
--    carries no store-assigned field holds by the type of inputs.
--  * Of an error the class and the id in its message are kept. Where the source returns an event with
--    its id beside it, the model returns the event.
--  * Loops are structural recursion on lists. Only the decimal digits of a number are on fuel, the
--    number itself, and decimal_on_enough shows that more makes no difference.
--  * A field of a delivery policy may be there and undefined, which counts when policies are spread.
--
-- Not modelled
--    The SQLite store (a database around the same functions), listSessionIds, stableHash of the
--    scheduler (bits of character codes; it only ends an id), resource-delivery.ts of
--    the core, the rest of the orchestrator (asynchronous runs), adapters, daemon, CLI, client,
--    evaluation and web application.
pub mod Prelude
pub mod Errors
pub mod Protocol
pub mod Storage
pub mod Core
pub mod Resources
pub mod Orchestrator
pub mod Tests
