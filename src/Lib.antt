-- ===== src/Lib.antt =====
-- The event pipeline of idmMw, a middleware between an identity management system and its target
-- systems: inbound webhooks, deduplication, dispatch, execution with retries, and the dead letter
-- queue (DLQ). Paths below are from the repository's root.
--
-- How the parts interact. WebhookService (src/inbound/webhooks) locks the event's key with
-- IdempotencyService (src/core/idempotency), answers reads by ProcessingService.processWithResult and
-- hands writes to DispatcherService (src/outbound), which calls ProcessingService.process
-- (src/core/processing.service.ts) or queues the event in Kafka (src/kafka). ProcessingService looks
-- the connector up, runs it under RetryService with the target's policy (src/core/retry), counts the
-- outcome (src/metrics), and stores a failed write by DlqService (src/core/dlq), whose items are
-- claimed under a lease and retried. When an error does not say that the event was durably accepted,
-- WebhookService releases the lock.
--
-- The files.
--   Prelude      shared names and lemmas: lists, texts, association lists, Boolean tests.
--   Json         JavaScript values. Effects: exceptions as values, methods on a state that may throw;
--                Effects/Preserves: rules for invariants of such methods.
--   Core/World   the state: the rows of prisma/schema.prisma that the pipeline reads and writes, the
--                metrics, the messages sent, the clock, the environment that the connectors act on.
--   Core/Metrics, Core/Retry, Core/Dlq, Core/Idempotency, Core/Processing
--                src/metrics/metrics.service.ts, src/core/retry, src/core/dlq, src/core/idempotency and
--                src/core/processing.service.ts, one function per method. Their child modules prove.
--   Connectors   src/connectors/connector.interface.ts; Connectors/Registry: connector.registry.ts;
--                Connectors/Capabilities: connector.capabilities.ts.
--   Kafka        src/kafka/kafka-producer.service.ts and the handler of kafka-consumer.service.ts.
--   Outbound     src/outbound/dispatcher.service.ts.
--   Inbound      src/inbound/webhooks: webhook.service.ts and avanpost-operation.enum.ts.
--   Admin        src/admin: Rbac is admin-rbac.service.ts, Service is admin.service.ts; TargetConfig,
--                TargetRows and TargetSystems are target-system.service.ts; FleetRows, FleetDtos,
--                FleetChecks, FleetGuards, Fleet and FleetLists are linux-fleet.service.ts, with the
--                tables of the fleet as the environment.
--   Encryption   Keyring and Envelope: src/security/encryption.service.ts, and src/database/json.helper.ts;
--                Rotation and Rotation/Service: src/security/encryption-rotation.service.ts; Startup: the
--                check of the encryption state in src/database/prisma.service.ts.
--   Security     src/security: Redaction is secret-redaction.ts, Addresses is ip-utils.ts.
--   Auth         src/auth/auth.service.ts: Config its settings, Sessions the cookies, Logins the logins and
--                the check of each request.
--   Diagnostics  src/diagnostics: LogBuffer is log-buffer.ts.
--   Tests        concrete inputs for the theorems.
-- Names are those of the source in snake case: DlqService.markRetryFailed is `mark_retry_failed`.
--
-- The model. A method is a function from the state to a result, a value or what was thrown, and the
-- state after it. Every call of the database or of Kafka may fail: the state holds a list that foretells
-- which of the next calls fail, and that list is arbitrary. A failing call changes
-- nothing; a transaction, and a single statement of the database, is one call. Time passes in the calls
-- of connectors and in the pauses of the retry loop. Interleavings of processes are sequences of calls;
-- within a method no other method runs, so what the theorems say of a state in which another process
-- may have acted in between, they say with the state before the call as a hypothesis.
--
-- Numbers. Times are milliseconds and delays are computed exactly, with the draw of Math.random in units
-- of 2^-53. Subtraction of times stops at 0, which is 1970. Identifiers that the database generates are
-- numbers, but those of the Linux fleet are texts that an argument draws, since bodies of requests name
-- them.
--
-- Fuel. Only the retry loop runs on fuel: maxRetries + 1 rounds, one for each attempt that its bound
-- `attempt <= maxRetries` allows. All other recursion is structural.
--
-- Parameters. The registry of connectors (`get`), JavaScript's coercion Number (`to_number`), the
-- candidate keys of the keyring (`keys_of`), JSON.parse and the configuration are arguments of the
-- definitions; the registry of Connectors/Registry is one instance of `get`.
-- The column `config` of a target system and `metadata` of a Linux host stand in the state as what
-- JsonHelper makes of them, a value or what it throws; Encryption models JsonHelper itself.
-- A store of locks is an interface with laws, Core/Idempotency/Laws, which the PostgreSQL store fills.
--
-- Around the pipeline. ConnectorRegistry (src/connectors) holds the routing table that ProcessingService
-- asks; its rows are the target systems, whose configurations it injects. Administrators list and retry
-- items of the queue by AdminService, within what AdminRbacService grants them (src/admin); they see
-- configurations with their secrets masked (src/security/secret-redaction.ts) and recent log events
-- (src/diagnostics/log-buffer.ts). They create, change and delete target systems by
-- TargetSystemService, and the hosts, groups and credential profiles of a Linux target system by
-- LinuxFleetService.
-- The payloads of the queue and of the audit log and the configurations are stored through JsonHelper,
-- which encrypts them under the active key of the keyring. A process that starts compares its keyring
-- with the encryption state of the database; the rotation of the keys moves the audit log,
-- the queue and the configurations of the target systems from one active key to the next; the metadata
-- of Linux hosts, which is encrypted too, is not among what it rewrites. The same keyring gives the candidate keys of an event.
--
-- An administrator's request is let in by AuthService (src/auth): by a signed session cookie, or by the
-- headers of a trusted proxy. The HMAC, base64url and JSON are arguments there.
--
-- Not modelled: the connectors to the target systems, the Redis store, OIDC and SAML,
-- the authentication of integrations, the resolver of secrets, the changes of roles, the controllers,
-- start-up and wiring, the lines that are logged.
pub mod Prelude
pub mod Json
pub mod Effects
pub mod Core
pub mod Connectors
pub mod Kafka
pub mod Outbound
pub mod Inbound
pub mod Admin
pub mod Diagnostics
pub mod Security
pub mod Encryption
pub mod Auth
pub mod Tests
