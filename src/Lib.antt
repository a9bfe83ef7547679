-- ===== src/Lib.antt =====
-- andruha-identity-service: accounts, sessions with rotating refresh tokens, registration, and the
-- transactional outbox of an identity service. Paths below are in src/app of the repository.
--
-- Parts, and the file that models each:
-- Errors, Clock: the exceptions of domain/exceptions and application/exceptions and code that may
--   raise (`Result`); `datetime`, `timedelta`, `bytes` and `require_aware` of domain/base.py.
-- Breaker: infrastructure/resilience/circuit_breaker.py. `admit` is the first locked block of
--   `CircuitBreaker.call`, `finish` all that follows the awaited function, so that a run of many
--   overlapping calls is a sequence of admissions and endings (Breaker/System).
-- Session: domain/aggregates/auth_session.py and domain/entities/refresh_token.py. A method takes
--   the session and returns the new one, or raises.
-- Table: lists of rows with the SQL that the repositories use. A repository method is one SQL
--   statement, so it is one function from table to table; what FOR UPDATE SKIP LOCKED skips is a
--   parameter `locked`.
-- Outbox: application/ports/dto/outbox.py and
--   infrastructure/database/repositories/outbox_repository.py. Outbox/System is the step relation
--   of any number of workers, whose steps are the statements.
-- Relay: application/outbox/relay.py, one round of the worker (`run_once`), which claims a batch
--   from the outbox, publishes each message and settles it, and the polling loop round it
--   (Relay/Loop). Streams of different keys are run one after the other.
-- Accounts: domain/aggregates/user.py, domain/value_objects and
--   infrastructure/database/repositories/user_repository.py.
-- Registration: the durable operation of application/ports/dto/registration.py (Operation), its
--   repository infrastructure/database/repositories/registration_operation_repository.py
--   (Repository), application/use_cases/resume_registration/handler.py with the unit of work of
--   infrastructure/database/uow.py (Resume), and application/use_cases/register/handler.py
--   (Register). The handlers work on one database of operations, users and outbox messages; the
--   event of a completed registration is a row of the same outbox that the relay empties.
-- Idempotency: application/ports/dto/idempotency.py and
--   infrastructure/database/repositories/idempotency_record_repository.py (Record), and
--   application/idempotency/durable.py (Durable), for any state that the business operation
--   writes.
-- HotStore: infrastructure/cache/valkey_idempotency_store.py, on the key of one identity: the Lua
--   scripts (Script), the adapter (Adapter), and round it the circuit breaker of
--   infrastructure/resilience/circuit_breaking_hot_store.py (Guarded).
-- Coordinator: application/idempotency/coordinator.py, over any hot store (`HotOps`) and the durable
--   service of Idempotency; Coordinator/Stores gives it the stores above.
-- SessionStore: infrastructure/database/repositories/auth_session_repository.py,
--   refresh_token_repository.py and base_repository.py, on the tables of users, sessions and
--   tokens, with the constraints of infrastructure/database/models.
-- Auth: application/tokens.py (Tokens) and application/use_cases: refresh/handler.py, of which
--   Exchange is the operation inside the transaction and Refresh the handler, login, logout and
--   get_current_user (Login). Auth/System is the step relation of their transactions.
-- AccessTokens: infrastructure/security/access_token_verifier.py and the claims of
--   application/ports/dto/security.py.
-- Profiles: infrastructure/http/profile_provisioner.py, which sends its requests through a circuit
--   breaker of Breaker. The registration takes its answers from a `World`.
-- UnitOfWork: how a transaction of infrastructure/database/uow.py ends; a commit may fail and
--   still be written. It has the transaction that Auth uses, for any state.
--
-- What the code leaves to others is a parameter. The relay and the handlers take a `World`: the
-- answers of the broker or of the profile service, the clock, the time of the database (`func.now()`,
-- which every UPDATE of a table with `updated_at` writes there), jittered delays, how each transaction
-- ends and what other workers commit before it, asked by a counter (`tick`) that every transaction
-- advances; the Valkey server answers as its `Server` says; a `Registrar` gives the password hasher,
-- new identifiers and owner tokens; `Texts` what Pydantic and Python make of an email and of a
-- password hash. A UUID is a number, a JSON document its text, a float delay the `timedelta` made of
-- it. Instants are microseconds in UTC, and Python's integers have no bound, so no arithmetic wraps;
-- the one subtraction, the seconds until a retry, stops at 0 as the `max` of the source makes it.
-- The lifetime of a session, the lease of an outbox claim and the delay of a retry are added to a
-- time as Python does it, with an OverflowError past `datetime.max`; the other leases and
-- retentions are settings, and the sums of a clock and those are taken to be times. Every loop is
-- over a list of rows or messages, or is counted: the two attempts of the provisioner, and the
-- finished renewals of a heartbeat, whose number is a parameter; only the polling loop of the
-- relay, which ends on a signal, has fuel, and more rounds than the time of the signal are enough.
--
-- Not modelled: the redrive use cases, the registration reconciler, retry policies (floats), the policy
-- for new passwords, the HTTP and messaging entry points, settings, dependency injection,
-- metrics and logging, and the adapters of third-party libraries (signing, encryption, Kafka,
-- HTTP).
pub mod Prelude
pub mod Errors
pub mod Clock
pub mod Breaker
pub mod Session
pub mod Table
pub mod Outbox
pub mod Relay
pub mod Accounts
pub mod UnitOfWork
pub mod Registration
pub mod Idempotency
pub mod HotStore
pub mod Coordinator
pub mod SessionStore
pub mod Auth
pub mod AccessTokens
pub mod Profiles
