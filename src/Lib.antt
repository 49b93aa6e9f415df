-- ===== src/Lib.antt =====
-- The self-healing engine for Kafka Connect of src/self_healthy_kafka: it watches connectors,
-- decides how to heal a failed one, acts on Kafka Connect's REST API, and keeps a work queue and an
-- append-only log in SQL Server.
--
-- The parts, by file (paths from the repository's root):
--   Domain         domain/healing.py, domain/models.py and healing/phases.py of
--                  src/self_healthy_kafka: enums, RecoveryPolicy, ConnectorJob, statuses; Domain/Json
--                  is the dictionaries of details, configurations and offsets.
--   Naming         healing/offset_recovery.py: versioned names, SCNs, the replacement's configuration.
--   Policy         healing/policy.py: decide_unhealthy; its engine class is a set of functions.
--   Effect         the world that the engine changes, the environment that it consults, and actions
--                  on them that return or raise. Effect/Does and Effect/Follows say which
--                  requests an action makes, and in which order.
--   Client         connect/client.py: every method that sends a request, and the circuit breaker.
--   Health         health/checker.py: check and _evaluate.
--   Store          storage/connector_repository.py and storage/log_repository.py, with the stored
--                  procedures spGetConnectorHealingQueue, spEnqueueConnectorHealing,
--                  spUpdateConnectorHealingQueue and spInsertConnectorHealingLog of
--                  sql/ingest_reference/stored-procedures, which the repositories call.
--   Healing        healing/actions.py, healing/action_services, healing/helpers.py and
--                  healing/recovery_summary.py: what a decision does.
--   Machine        healing/db_state_machine.py: tick, process_connector and all that they call.
--   Webhook        webhook/security.py, webhook/grafana.py and run_health_checks of main.py: Auth and
--                  Dedupe, Alerts (the parser), Followups (the state and its timers), Service (submit
--                  and close), Worker (the loop of the workers), Http (do_POST), Routes
--                  (do_GET, do_DELETE), and Steps, the interleavings of the threads, with Alone, the
--                  methods that no other thread comes between.
--   Retrieval      rag/chunking.py: _section_chunks and _split_oversized_paragraph.
--   Analytics      semantic/tsql.py (the query compiler and its read-only guard) and the sources of
--                  semantic/fact_source.py; a statement is a list of texts and placeholders, and each
--                  placeholder carries the parameter that was bound for it.
--   Examples       tests at concrete inputs, with an Examples in Webhook, Retrieval and
--                  Analytics.
--   Base           lists, texts as lists of code points, dictionaries and decimals.
--
-- How they interact: Machine reads a job from Store, asks Health (and through it Client) for the
-- connector's state, lets Policy decide, and runs an action of Healing, which calls Client and
-- writes to Store. Webhook turns alerts and timers into calls of Machine's process_connector. The
-- world has the HTTP exchanges, the rows, the logs, the circuit, and the memory of the process
-- (_healthy_since, _uncertain_actions, the locks).
--
-- Parameters: what is not in the repository is the environment Env, an argument of every action:
-- the reply of Kafka Connect to each request (or the HTTP library's exception), whether a call of
-- the database succeeds, fails or fails after its commit, the clocks, newid(), the collation, and
-- str() of lists and dictionaries. Each question has a number, so answers vary freely over time.
-- The two functions of redaction.py are parameters there, too. The receiver takes Python's
-- libraries as the record Platform, and the clocks that it reads as arguments. The chat services,
-- of which only the answers matter to the HTTP handler, are arguments too.
--
-- Bounds: every function is structurally recursive. Two loops have fuel: a worker, for which as
-- many rounds as there are events are enough, and the loop that splits a paragraph, for which the
-- paragraph's length is enough for a limit above zero, since every round shortens the text (with a
-- limit of zero the loop of the source does not end). Times are whole microseconds,
-- except the client's monotonic clock and its cooldown, which share a unit, and the receiver's
-- clocks, which count the unit of its settings. Numbers are natural numbers, as the counts and
-- identifiers of the program are; SCNs that are not are read as texts.
--
-- Not modelled: the lines that go to the process's own log (and the arguments that only they read),
-- the chat, the vector store and the retrieval from it, the planner and the answers of the
-- analytics, evaluation, start-up and configuration. The engine's threads are modelled by the set
-- of locks that are held: an action is one step, and a second call meets the locks of the first.
-- The receiver's threads are modelled by Webhook/Steps, where each critical section, each access to
-- the queue and each cancellation of a timer is one step and steps come in any order; the functions
-- of Webhook/Followups and Webhook/Service are the methods run without another thread in between.
pub mod Base
pub mod Domain
pub mod Naming
pub mod Policy
pub mod Effect
pub mod Client
pub mod Health
pub mod Store
pub mod Healing
pub mod Machine
pub mod Webhook
pub mod Retrieval
pub mod Analytics
pub mod Examples
