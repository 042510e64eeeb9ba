-- ===== src/Lib.antt =====
-- The backend of the platform: a FastAPI application with browser login over OpenID Connect, a
-- transactional outbox with durable delivery to Celery, and fenced consumers over PostgreSQL.
--
-- Base holds the shared lists, texts, results, updates of rows (`UPDATE … WHERE`) and JSON values.
--
-- Delivery is the outbox and what delivers it:
--   Delivery/Event     app/app/application/dto/outbox.py, `OutboxEvent` and its validators
--   Delivery/Store     the four tables (models/outbox.py, messaging/delivery_schema.py) as lists of
--                      rows, and the conditions that several statements share
--   Delivery/Outbox    app/app/infrastructure/repositories/outbox.py, `SqlOutboxRepository`
--   Delivery/Policy    app/app/infrastructure/messaging/durable_delivery.py, `DurableDelivery`
--   Delivery/Tasks     app/app/infrastructure/messaging/durable_tasks.py, `DurableTasks`; `consume` in
--                      Delivery/Tasks/Runs
--   Delivery/Workers   many workers over one database, as a step relation on transactions
--   Delivery/Observation
--                      app/app/infrastructure/messaging/delivery_observation.py, the gauges of each topic
--   Delivery/Pump      app/app/tasks/durable_delivery.py, `pump`
--   Delivery/History   all sequences of the calls above on one store, against a log of what was enqueued
-- A method is a function of the store and of the instants that its statements read; a transaction
-- that raises leaves the store as it was. `FOR UPDATE SKIP LOCKED` is a test `locked` of the rows
-- that others hold. What other transactions commit between two transactions of `consume` is a
-- function on the store in `Schedule`; in Delivery/Workers it is a sequence of steps. A handler of
-- `consume` is a tree of transactions (`Work`), of which it commits all but the last itself; in
-- Delivery/Workers `execute` is its last one and the others are steps. The cast of a malformed
-- not-before header raises in the statement that evaluates it, in the order of its `WHERE`. The
-- equality of `jsonb`, handlers and fresh identifiers are parameters. Texts are lists of code points, instants
-- are microseconds, and no loop needs fuel: they follow the lists of rows and topics.
--
-- Auth is the browser login:
--   Auth/Errors        app/app/application/errors/exceptions.py
--   Auth/Principal     app/app/domain/security/principal.py
--   Auth/Profile       app/core/config.py, the profile of a surface and its tests of paths
--   Auth/Sessions      app/app/application/ports/auth.py as interfaces, with the documented behaviour of
--                      the Redis commands of app/app/infrastructure/storage/session_store.py as laws
--   Auth/Service, Auth/Login, Auth/Browser, Auth/Claims
--                      app/app/application/services/auth_service.py, `AuthService`
--   Auth/Access        app/app/interfaces/http/middleware/auth.py
--   Auth/Oidc          app/app/infrastructure/security/oidc.py, `OidcProviderClient`: the caches of
--                      metadata and keys (Client), the tokens (Tokens) and the addresses (Urls)
--   Auth/ServiceIdentity
--                      app/app/infrastructure/security/service_identity.py, and the bindings of
--                      app/core/config.py; the signature check of a token is a parameter
-- A method takes the fresh secrets and the instants, and returns its result with the state of the
-- session store, which a raised exception does not restore. The provider, the user directory, the
-- JSON and pydantic codecs and the validity of a network location are parameters.
--
-- Settings is app/core/config.py: the profiles of the two surfaces, which Auth uses, and (Checks) the
-- validations when a process starts. Base/Url is `urlsplit` as they call it; which network locations
-- it refuses is a parameter. The network, `json.loads`, and the library for keys and tokens are
-- parameters of Auth/Oidc, the last with its documented behaviour as a hypothesis; a call of them
-- returns, raises what the client catches, or raises something else (`Reply`).
--
-- Http is app/app/interfaces/http/auth_common.py, web/auth.py and admin/auth.py: the responses of the
-- login routes, on top of Auth and Settings.
--
-- CrossApp is app/app/domain/cross_app.py: links between applications, and (CrossApp/Config) their two
-- settings, with `urlsplit` and `json.loads` as parameters.
--
-- Scheduler is app/app/infrastructure/messaging/scheduler_activity.py: the activity that the scheduler
-- writes to a file after its ticks, and the probe that reads it.
--
-- Interactions is app/app/application/services/web_interaction.py, the reference run that a browser
-- follows, and (Interactions/Contract) the checks of app/app/application/dto/interaction.py.
--
-- Not modelled: the Celery wiring, the other routes of FastAPI and its parsing of requests,
-- connections, logging, the probes of the command line, migrations and the shell scripts, which are
-- input and output or configuration of other programs; `normalize_postgres_url`, and the text format
-- of the gauges.
pub mod Auth
pub mod Base
pub mod CrossApp
pub mod Delivery
pub mod Http
pub mod Interactions
pub mod Scheduler
pub mod Settings
