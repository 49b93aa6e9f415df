-- ===== src/Store/Logs.antt =====
-- `record_connector_log` of storage/log_repository.py and `spInsertConnectorHealingLog`, and what
-- `spGetConnectorHealingQueue` reads from the logs of a row. The line that goes to the process's
-- own log is not modelled, and with it the arguments that only it reads (`job_name`,
-- `incident_id`, `has_next_step`).
use self_healing_kafka_syste.Base.{
  ℕ, Bool, true, false, ◌&&◌, Option, none, some, List, [], ◌∷◌, ltb, ◌==◌, if◌then◌else◌, any,
  keep_if, count_if,
}
use self_healing_kafka_syste.Base.Text.{Text}
use self_healing_kafka_syste.Domain.{QueueId, EventType}
use self_healing_kafka_syste.Domain.Json.{Fields, str, set_default}
use self_healing_kafka_syste.Effect.Exn.{ExnKind, text}
use self_healing_kafka_syste.Effect.World.{Env, World, LogRow, QueueRow, Severity}
use self_healing_kafka_syste.Effect.Monad.{M, execute, raise, gets, ◌>>=◌, ◌>>◌}

-- The event types that the procedures test for.
unfoldable pub is_confirmation : EventType → Bool
is_confirmation EventType.health_failed_confirmed = true
is_confirmation _ = false

unfoldable pub is_observation : EventType → Bool
is_observation EventType.health_failure_observed = true
is_observation _ = false

unfoldable pub is_task_restart : EventType → Bool
is_task_restart EventType.task_restart = true
is_task_restart _ = false

unfoldable pub is_connector_restart : EventType → Bool
is_connector_restart EventType.connector_restart = true
is_connector_restart _ = false

unfoldable pub is_with_offset : EventType → Bool
is_with_offset EventType.connector_recreate_with_offset = true
is_with_offset EventType.connector_recreate_with_offset_failed = true
is_with_offset _ = false

unfoldable pub is_with_offset_timeout : EventType → Bool
is_with_offset_timeout EventType.connector_recreate_with_offset_timeout = true
is_with_offset_timeout _ = false

unfoldable pub is_without_offset : EventType → Bool
is_without_offset EventType.connector_recreate_without_offset = true
is_without_offset EventType.connector_recreate_without_offset_failed = true
is_without_offset _ = false

-- `where l.[QueueId] = q.[QueueId]`.
unfoldable pub logs_of : QueueId → List LogRow → List LogRow
logs_of id logs = keep_if (λ (l : LogRow). l.queue_id == id) logs

-- `sum(case when … then 1 else 0 end)` over the logs of a row.
unfoldable pub count_events : (EventType → Bool) → QueueId → List LogRow → ℕ
count_events p id logs = count_if (λ (l : LogRow). l.queue_id == id && p l.event_type) logs

-- `top (1) … order by l.[CreatedAt] desc, l.[Id] desc`: the list has the newest row first.
unfoldable pub latest : List LogRow → Option LogRow
latest [] = none
latest (l ∷ ls) = elim (latest ls) [
  | none ↦ some l
  | some m ↦ if ltb l.created_at m.created_at then some m else some l
]

-- The insertion; a second confirmation of a row is dropped.
unfoldable pub insert_log : LogRow → World → World
insert_log l w =
    if is_confirmation l.event_type
      && any (λ (m : LogRow). m.queue_id == l.queue_id && is_confirmation m.event_type) w.logs
    then w
    else record w { logs = l ∷ w.logs }

unfoldable pub has_row : QueueId → List QueueRow → Bool
has_row id rows = any (λ (r : QueueRow). r.queue_id == id) rows

-- What a caller passes to `record_connector_log`.
pub record Entry : Type 0 where
  pub connector_id : QueueId
  pub connector_name : Text
  pub event_type : EventType
  pub attempt_no : Option ℕ
  pub healing_step : Option ℕ
  pub severity : Severity
  pub message : Text
  pub scn : Option Text
  pub commit_scn : Option Text
  pub details : Fields

abbrev pub severity_text : Severity → Text
severity_text Severity.info = text "INFO"
severity_text Severity.warning = text "WARNING"
severity_text Severity.error = text "ERROR"
severity_text Severity.critical = text "CRITICAL"

-- `_connector_log_details`.
unfoldable pub connector_log_details : Entry → Fields
connector_log_details e =
    let payload = set_default "severity" (str (severity_text e.severity)) e.details in
    let with_scn : Fields = elim e.scn [
      | none ↦ payload
      | some s ↦ set_default "scn" (str s) payload
    ] in
    elim e.commit_scn [ none ↦ with_scn | some s ↦ set_default "commit_scn" (str s) with_scn ]

module _ (env : Env) where
  unfoldable pub log_row : Entry → ℕ → LogRow
  log_row e step = record {
    queue_id = e.connector_id;
    connector_name = e.connector_name;
    event_type = e.event_type;
    attempt_no = e.attempt_no;
    healing_step = e.healing_step;
    severity = e.severity;
    message = env.redact_text e.message;
    details = env.redact (connector_log_details e);
    created_at = env.database_clock step;
  }

  -- The foreign key refuses a log without its queue row.
  unfoldable pub record_connector_log : Entry → M (Unit {0})
  record_connector_log e = do
    found ← gets (λ w. has_row e.connector_id w.queue)
    if found then execute env (λ w. insert_log (log_row e w.steps) w) else do
      execute env (λ w. w)
      raise (record { kind = ExnKind.database; message = text "Queue does not exist." })
