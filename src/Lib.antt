-- ===== src/Lib.antt =====
-- ForgetOps, a control plane for privacy requests: a model of its core, with its theorems.
--
-- A privacy request is an aggregate that is moved by commands from its creation to its
-- completion. Its plan is made by the plan service, is approved by the approval service, and is
-- executed by an agent that was paired with the environment; the signer decides whether an
-- execution and each of its leases may be signed. The agent asks for its jobs, leases them and
-- prolongs the leases by signed messages to the gateway. A subject is bound to a request by the
-- agent, which may make one of two requests a cancelled duplicate. The repository writes an
-- aggregate with its new events, which go to the outbox and to the audit chain of the
-- environment. The audit chain records what was done; magic links and export capabilities are
-- what a data subject gets; roles say who may call what. The application of the customer runs an
-- adapter, which erases and verifies what a signed request asks for.
--
-- Files and code:
-- PrivacyRequest: packages/domain/src/privacy-request. Data and Status are the types, Steps the
--   private helpers (record, transition, applyAttemptUpdate), Planning, Execution and Recovery the
--   methods of PrivacyRequestAggregate, each a function from the aggregate and a clock to both and
--   an outcome; Commands is the step from one aggregate to the next by any method.
-- Signer: apps/signer/src/authorization-policy.ts. Policy is assertAuthorizationPolicy, Lease
--   assertExecutionLeasePolicy and assertLeaseClaimsBound.
-- Pairing: apps/api/src/modules/agents/pairing-service.ts. Store is InMemoryPairingRepository with
--   its small methods and createToken, Consume is consumeAndPair, Events a history of their calls.
-- Plans: apps/api/src/modules/execution-plans/plan-service.ts (Service) and
--   apps/api/src/modules/approvals/approval-service.ts (Approvals).
-- Gateway: apps/api/src/modules/agent-gateway. Data, Messages, Transports and Jobs are
--   PostgresJobRepository of job-repository.ts, Authenticate is AgentMessageAuthenticator and
--   verifyAgentMessage of message-signer.ts with the bytes of packages/contracts/src/agent-message.ts,
--   Polling the three routes of polling-routes.ts; Calls is a history of the repository's calls, and
--   LeaseSpec relates the leases of a job to the lock of Lock, with its holders and times.
-- Database: packages/database/src/repositories. Tables are the rows, AuditLog the appending of an
--   audit event, Repository is save of privacy-request-repository.ts, Idempotency is
--   idempotency-repository.ts.
-- Subjects: apps/api/src/modules/privacy-requests/subject-envelope-service.ts. Validation holds the
--   checks of the service, Envelopes storeEnvelope, Requests, Duplicates and Binding are bindSubject.
-- Adapter: sdk/typescript/src. Signature is verifyAdapterSignature, Nonces FileNonceStore and
--   MemoryNonceStore, Fetch the handler fetch up to the payload, Resources validateResources and the
--   handlers erase and verify of create-adapter.ts.
-- Audit: packages/domain/src/audit. Chain is auditEventHash, buildChain and verifyChain.
-- Portal: apps/api/src/modules/identity-verification/magic-link-service.ts (MagicLink) and
--   apps/api/src/modules/exports/export-capability-service.ts (Exports).
-- Auth: packages/auth/src.
-- Prelude: what JavaScript offers to all of them: strict equality, array methods, Set, Map, and the
--   outcome of code that may throw.
--
-- How state is modelled: a class with private fields is a record or a map, a method takes it and
-- gives it back. Where the code throws before it writes, the outcome is an error alone; where a
-- write may come before the throw, the new state and the outcome are given side by side. A map is
-- a list of pairs in the order of insertion. Numbers are natural numbers: versions, counts and
-- milliseconds are never negative in these types, and a sequence that the database keeps as a
-- text is its number. Every loop is over a list, so that there is no fuel, but for the decimal
-- digits of a number, whose fuel is above the number and so above their count.
--
-- How the database is modelled: a table is a list of rows by primary key, a query reads and
-- writes it as its SQL says, and a transaction is one step, since the code locks what it reads. A
-- transaction that throws gives an error and no tables. Row-level security is in the tests for
-- the tenant. What others commit between two transactions, or while one waits for a lock, is an
-- argument: a list of calls or a function of the tables.
--
-- Parameters: canonicalize, SHA-256, hexadecimal, base64url, JSON.parse, Ed25519, HMAC,
-- Date.parse, the ids of keys, the database's order of texts and localeCompare, random texts and
-- ids, the clocks, the adapter of the magic links and the hierarchy store are arguments of the
-- definitions that use them.
--
-- Not modelled: the WebSocket sessions and the requests for execution leases of the gateway, the
-- reading of a request from the database, the repository of the hierarchy, the schema, HTTP routes but
-- those of polling, the exports of the SDK, the worker, the web application and the Rust agent.
-- Calls that wait in between run here as one step, but for a long poll, for the consumption of a
-- pairing token or of a magic link and for the binding of a subject, whose parts stand apart.
pub mod Prelude
pub mod PrivacyRequest
pub mod Signer
pub mod Pairing
pub mod Plans
pub mod Audit
pub mod Portal
pub mod Auth
pub mod Gateway
pub mod Database
pub mod Subjects
pub mod Adapter
