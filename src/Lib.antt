-- ===== src/Lib.antt =====
-- Synthia, an IT service-management agent: a model of the core of its two Python services.
--
-- ragcore/ is the orchestrator. A conversation is triaged, evidence is retrieved and graded, a model
-- proposes an operation, and deterministic governance decides whether it may run, whether a human has
-- to agree first, or not at all. integrations/ performs the effects: it takes an opaque command from a
-- queue, reads the instruction that ragcore made durable, checks the facts again, invokes a connector
-- at most once and writes what happened in one transaction.
--
-- Files, with the code each one models (paths from the repository's root; RC is
-- ragcore/src/ragcore, IN is integrations/src/integrations):
--   Common              helpers on tests, lists and results (Python exceptions as values)
--   Domain/Treatment    RC/domain/governance.py: treatments, strictness, is_narrowing
--   Domain/Authority    RC/domain/authority.py: what may grant authority
--   Domain/Roles        RC/domain/roles.py: StaffRole.parse, RoleSet, evaluate (evaluate_roles here)
--   Domain/Work         RC/domain/work.py: the states of work, approvals, consents and sessions
--   Domain/Session      RC/domain/session_state.py: the table of moves, transition, suspension_for
--   Domain/Records      RC/domain/{identifiers,tenancy,decisions,proposal}.py and CatalogueEntry of
--                       RC/application/ports.py
--   Retrieval           RC/retrieval/{confidence,hybrid,rerank}.py, over scores given as a record of
--                       operations; a rerank takes any class of chunks, the fused ones among them
--   Governance/Catalogue
--                       RC/governance/catalogue.py: records, rows and the catalogue of known entries;
--                       its Fixtures is RC/governance/fixtures.py
--   Governance/Conditions, Policy, Gate
--                       RC/governance/{conditions,policy,gate}.py; the gate's evaluate calls the
--                       policy's assign_treatment and the roles' evaluate
--   Graph/State         RC/graph/state.py: channels and reducers
--   Graph/Scope         classify_scope of RC/graph/nodes/guardrail.py, assess_triage of
--                       RC/application/sessions.py
--   Graph/Ports, Nodes  RC/graph/nodes/*.py: one function per node, from the state, the run's context
--                       and what the ports answer, to the channels that it writes
--   Graph/Builder       RC/graph/builder.py: edges and routing; a step runs a node, folds its writes
--                       through the reducers and takes the edge; a run is any sequence of steps
--   Domain/Envelopes    RC/domain/envelopes.py: what crosses the queues
--   Persistence/Rows    the statements SELECT and UPDATE over the list of a table's rows
--   Persistence/Guard   RC/persistence/concurrency.py: guarded_update, require_guarded_update, claim_once
--   Persistence/WorkItems
--                       WorkItem of RC/persistence/models.py and WorkItemRepository of repositories.py;
--                       its calls in any order are a trace (WorkItems/Calls)
--   Persistence/Approvals, Consents
--                       Approval, Operation and Consent of RC/persistence/models.py,
--                       ApprovalRepository and ConsentRepository of repositories.py
--   Persistence/Catalogue
--                       OperationCatalogue of RC/persistence/repositories.py, over Governance/Catalogue
--   Persistence/Audit, Feedback, Tenants
--                       AuditSink, FeedbackRepository, TenantRegistry and SessionRepository of
--                       RC/persistence/repositories.py, and their tables
--   Persistence/Instructions
--                       IntegrationDispatcher of RC/persistence/integration_jobs.py, over the outbox
--   Persistence/Erasure, Retention
--                       RC/persistence/{erasure,retention}.py; a deletion is followed through the
--                       foreign keys of RC/persistence/models.py
--   Egress              RC/egress/{http,validation}.py: requests, retries and the checks of a body
--   Infrastructure/Cache
--                       RC/infrastructure/cache.py, over a server that keeps an entry until it expires
--   Model/Safety        RC/model/safety.py: the screen before and after the model
--   Application         RC/application/{sessions,audit,cases,escalation}.py; an escalation writes under
--                       the key of Application/Cases and appends an entry of Application/Audit
--   Execution/Idempotency, SampleFlow
--                       RC/execution/{idempotency,claim}.py, IdempotencyStore of
--                       RC/persistence/repositories.py and RC/messaging/sample_flow.py, which claims a
--                       work item before it acts
--   Execution/Legs      RC/execution/{executor,availability}.py; its run takes an outcome of the gate
--   Messaging           RC/messaging/{retry,deadletter}.py, the bodies of RC/messaging/publisher.py and
--                       the Outbox of RC/persistence/repositories.py
--   Workers/Expiry, Retention, Dispatch
--                       ragcore/workers/{expiry_sweep,retention_sweep,outbox_dispatch}.py, over the
--                       tables above; Graph/Threads is RC/graph/threads.py
--   Workers/Conclusions ragcore/workers/integration_result_worker.py and IntegrationResult of
--                       RC/persistence/integration_jobs.py
--   Api/Components      _references and _reachable_components of RC/api/openapi.py
--   Api/Authority, Positions
--                       authority_findings and _authority_in_request of RC/api/openapi.py
--   Api/Disclosure, Problems
--                       disclosure_findings and relabel_problem_media_type of RC/api/openapi.py
--   Api/Identity, Correlation
--                       RC/api/middleware/{identity,correlation}.py
--   Contracts           build/scripts/openapi_diff.py: the reading of two documents, their comparison,
--                       and the register of approved changes
--   Integrations/Catalogue, Access
--                       IN/domain/catalogue.py and AccessPolicy.evaluate of IN/policy/checks.py
--   Integrations/Jobs   IN/persistence/jobs.py: JobInstruction and is_executable_at
--   Integrations/Attempts
--                       IN/domain/execution.py, IN/execution/idempotency.py and the statements of
--                       IN/persistence/{executions,jobs,audit}.py as operations on tables
--   Integrations/Leg    IN/execution/executor.py: run and _record
--   Integrations/Envelope, Consumer
--                       IN/messaging/{envelope,consumer}.py
--   Integrations/Seam   the bodies that the two services write and read, Messaging and Workers on
--                       one side and Envelope on the other
--   Integrations/Egress, Normalization
--                       IN/egress/http.py and IN/execution/normalization.py
--   Examples            inputs, tests of the definitions, and the theorems applied to them
-- Child modules hold proofs and are named for what they prove.
--
-- How code corresponds to definitions. A dataclass is a record and an enumeration a data type. A raised
-- exception is the error of a Result; several nodes raise ValueError for different reasons, which are
-- one error here. A frozenset of roles is its membership test. A UUID is its integer and an instant a
-- count of microseconds, both natural numbers, which Python does not bound either. An awaited port is a
-- function that the caller of the node supplies, so a property that holds for all such functions holds
-- for every behaviour of the ports; a port is read afresh at each node. A table is the list of its
-- rows; a unique key is checked by the insert, as the database does, and the store that a transaction
-- finds is another than the one that was read before the invocation, so that other replicas may have
-- written in between.
--
-- A write of a repository is one UPDATE: what it does to the rows that its WHERE clause admits, and
-- whether it admitted exactly one. A primary key is the hypothesis that an identifier is in one row at
-- most (Keyed). The sweep of expired items reads the rows at one moment and writes them at another, so
-- the two are separate arguments. ORDER BY is a stable sort. A payload of the outbox and a decoded body
-- are lists of texts, which is what their writers put into them; a publish is a function of the number
-- of the try and the envelope to whether it was accepted, so it may fail on any try.
--
-- What a port or the network answers is given for each call or for each attempt. A call that is
-- awaited is an entry of a list of calls where a property speaks of it.
--
-- Parameters. Floating-point scores (Retrieval/Scores: a total order, a subtraction without laws,
-- and literals in order; their product, quotient and sum without laws), the text methods split, strip, lower and len, equality of execution and
-- verification records in the checkpoint, str and UUID, the regular expression of correlation
-- identifiers and the identifier made for a request, the decoding of JSON, lower and isalnum in the normalising of names, sha256, str.join
-- and formatting, the clock of the database and its fresh identifiers, and the random source of a
-- delay. Two loops run on fuel. The search for component schemas (Api/Components) has one unit for
-- each schema and one for the paths, which is enough: a node is put on the frontier only with a
-- schema that was not wanted before. The walk over the schemas of a request (Api/Authority) has one
-- for each reference of the body, for each schema and for each reference of one, since a schema is
-- entered once. All other recursion is on lists and on documents. A suspended run is not bounded: it
-- is any sequence of steps, and an await node that finds no decision writes that it still waits,
-- then takes its edge to the gate.
--
-- Not modelled: the interrupt payloads and the durability of checkpoints (LangGraph), HTTP
-- interfaces beyond the middleware of identities and of correlation identifiers, SQL beyond the tables above, the cascades of foreign
-- keys from a session that the retention sweep deletes, language-model clients and the cache server's connection, logging and metrics,
-- the broker's client and database connections with the exceptions they raise, a notification that
-- fails, ServiceNow and realtime adapters, the .NET service, the web and desktop clients, the
-- other build scripts and infrastructure. Their code calls services and libraries, or is in another language.
pub mod Common
pub mod Domain
pub mod Retrieval
pub mod Governance
pub mod Graph
pub mod Persistence
pub mod Infrastructure
pub mod Egress
pub mod Model
pub mod Application
pub mod Execution
pub mod Messaging
pub mod Workers
pub mod Integrations
pub mod Api
pub mod Contracts
pub mod Examples
