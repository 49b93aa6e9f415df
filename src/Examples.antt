-- ===== src/Examples.antt =====
-- Tests at concrete inputs: a connector, its row, its job, and environments that answer.
use self_healing_kafka_syste.Base.{
  ltb, ℕ, Bool, true, false, Option, none, some, List, [], ◌∷◌, ◌≡◌, refl, inl, inr, ◌+◌,
}
use self_healing_kafka_syste.Base.Text.{Text}
use self_healing_kafka_syste.Domain.{
  HealthStatus, ConnectorState, HealingMode, EventType, HealingStep, RecoveryAction, RecoveryPolicy,
  Phase, ConnectorJob, ConnectorStatus, HealthResult, Settings,
}
use self_healing_kafka_syste.Domain.Json.{Items, nil, cons, end, field, str, obj}
use self_healing_kafka_syste.Effect.Exn.{
  Exn, ExnKind, raised, text, is_request_error, is_status_error,
}
use self_healing_kafka_syste.Effect.World.{
  Env, World, response, failed, done, lost, QueueRow, QueueStatus,
}
use self_healing_kafka_syste.Effect.Monad.{
  tick, ◌>>=◌, send, catch, pure, gets, execute, modify, raise,
}
use self_healing_kafka_syste.Effect.Does.{Does, Extends}
use self_healing_kafka_syste.Effect.Follows.{Follows}
use self_healing_kafka_syste.Naming.Version.{
  next_versioned_connector_name, is_versioned_connector_name, base_connector_name,
}
use self_healing_kafka_syste.Naming.Sequence.{IsName, after}
use self_healing_kafka_syste.Naming.Sequence
use self_healing_kafka_syste.Policy.{decide_unhealthy}
use self_healing_kafka_syste.Policy.Budget
use self_healing_kafka_syste.Policy.Budget.{Warranted}
use self_healing_kafka_syste.Client.Rest.{get_status}
use self_healing_kafka_syste.Client.Circuit.{circuit_error}
use self_healing_kafka_syste.Client.Breaker
use self_healing_kafka_syste.Health.{evaluate, is_failed_task}
use self_healing_kafka_syste.Health.Verdict
use self_healing_kafka_syste.Health.Verdict.{is_unhealthy}
use self_healing_kafka_syste.Store.Job.{job_of_new_row}
use self_healing_kafka_syste.Healing.Helpers.{level}
use self_healing_kafka_syste.Healing.Recreate.{Plan, stop_and_replace}
use self_healing_kafka_syste.Healing.Protocol
use self_healing_kafka_syste.Healing.Protocol.{replacement_requests}
use self_healing_kafka_syste.Machine.Dispatch.{
  execute_decision, dispatch_decision, level_allows, run_action, quarantine_uncertain_action,
}
use self_healing_kafka_syste.Machine.Memory.{mark_uncertain, is_member}
use self_healing_kafka_syste.Store.Logs.{record_connector_log, has_row}
use self_healing_kafka_syste.Base.Text.{text_eq}
use self_healing_kafka_syste.Machine.Unhealthy.{handle_unhealthy}
use self_healing_kafka_syste.Machine.Gate
use self_healing_kafka_syste.Machine.Gate.{IsRestartOf}
use self_healing_kafka_syste.Machine.Quarantine
use self_healing_kafka_syste.Machine.Quarantine.{Marked}
use self_healing_kafka_syste.Machine.Quiet
use self_healing_kafka_syste.Machine.Process.{process_job}
use self_healing_kafka_syste.Machine.Discovery
use self_healing_kafka_syste.Base.{arith}
use self_healing_kafka_syste.Effect.World.{Response, Request, LogRow, Severity, FinalOutcome}
use self_healing_kafka_syste.Policy.{retry_decision}
use self_healing_kafka_syste.Store.Queue.{complete}
use self_healing_kafka_syste.Store.Closing
use self_healing_kafka_syste.Store.Closing.{has_open}
use self_healing_kafka_syste.Store.Logs.{insert_log, count_events}
use self_healing_kafka_syste.Store.Once
use self_healing_kafka_syste.Store.Once.{ConfirmedOnce}
use self_healing_kafka_syste.Naming.Scn.{Candidate}
use self_healing_kafka_syste.Naming.Greatest
use self_healing_kafka_syste.Machine.Missing
use self_healing_kafka_syste.Base.{◌++◌}
use self_healing_kafka_syste.Domain.Json.{put, get, Fields}
use self_healing_kafka_syste.Naming.Replacement.{
  build_replacement_connector, replacement_config, version_seed,
}
use self_healing_kafka_syste.Healing.Fresh.{recreate_without_offset}
use self_healing_kafka_syste.Healing.Protocol.{fresh_requests}

abbrev policy : RecoveryPolicy
policy = record {
  failure_confirm_checks = 3;
  task_restart_max_attempts = 2;
  connector_restart_max_attempts = 2;
  recreate_with_offset_timeout_max_attempts = 1;
  recreate_without_offset_max_attempts = 1;
}

abbrev pub settings : Settings
settings = record {
  policy = policy;
  post_restart_wait_seconds = 60;
  recovery_healthy_confirm_seconds = 120;
  recreate_verify_wait_seconds = 120;
  recreate_keep_base_connector = true;
  circuit_cooldown = 30;
}

abbrev pub orders : Text
orders = text "orders"

abbrev transport : Exn
transport = record { kind = ExnKind.httpx_request; message = text "refused" }

abbrev odd : Exn
odd = record { kind = ExnKind.other; message = text "odd" }

-- Every request is accepted, and the database works.
abbrev pub env : Env
env = record {
  http = λ n r. response (record { status = 200; body = some (obj end) });
  database = λ n. done;
  wall_clock = λ n. 1000;
  monotonic = λ n. 500;
  database_clock = λ n. 1000;
  new_id = λ n. 7;
  same_name = λ a b. false;
  repr = λ v. text "value";
  redact_text = λ t. t;
  redact = λ fs. fs;
}

abbrev unreachable : Exn → Env
unreachable x = record env { http = λ n r. failed x }

abbrev broken_database : Env
broken_database = record env { database = λ n. lost odd; http = λ n r. failed transport }

abbrev row : QueueRow
row = record {
  queue_id = 1;
  root_connector_name = orders;
  current_connector_name = orders;
  connector_class = none;
  healing_mode = HealingMode.restart_only;
  queue_status = QueueStatus.pending;
  final_outcome = none;
  received_at = 900;
  started_at = none;
  completed_at = none;
  next_attempt_at = none;
}

abbrev pub world : World
world = record {
  steps = 0;
  trace = [];
  queue = row ∷ [];
  logs = [];
  circuit = record { open_until = 0; half_open = false };
  healthy_since = [];
  uncertain_actions = [];
  locks = [];
}

-- A confirmed failure of a connector in the mode `RESTART_ONLY`.
abbrev job : ConnectorJob
job = record {
  id = 1;
  connector_name = orders;
  healing_mode = some HealingMode.restart_only;
  level = 2;
  active_config = none;
  failed_count = 3;
  failure_confirmed = true;
  failed_connector = true;
  failed_task = false;
  active_incident_id = some 1;
  latest_event_type = none;
  latest_event_at = none;
  latest_event_details = end;
  latest_has_next_step = none;
  current_phase = Phase.failed_debounce;
  task_restart_count = 0;
  connector_restart_count = 0;
  recreate_with_offset_count = 0;
  recreate_with_offset_timeout_count = 0;
  recreate_without_offset_count = 0;
  last_failed_task_ids = [];
}

abbrev result : HealthResult
result = record {
  connector_name = orders;
  status = HealthStatus.unhealthy;
  reason = text "connector.state == FAILED";
  failed_task_ids = [];
  trace = none;
  checked_at = 1000;
}

abbrev plan : Plan
plan = record {
  job = job;
  result = result;
  offsets = end;
  scn = none;
  commit_scn = none;
  connector_name = text "orders.001";
  config = field "name" (str (text "orders.001")) end;
}

stop_and_replace-Follows_example :
    Follows (replacement_requests env settings plan) (stop_and_replace env settings plan)
stop_and_replace-Follows_example = Protocol.stop_and_replace-Follows env settings plan

handle_unhealthy-Restarts_example :
    Does (IsRestartOf orders) (handle_unhealthy env settings job result true)
handle_unhealthy-Restarts_example = Gate.handle_unhealthy-Restarts env settings job result true refl

handle_unhealthy-job_of_new_row_example :
    Does (λ q. ⊥) (handle_unhealthy env settings (job_of_new_row row) result true)
handle_unhealthy-job_of_new_row_example =
    Gate.handle_unhealthy-job_of_new_row env settings row result true

execute_decision-Refused_example :
    Does
      (λ r. ⊥)
      (execute_decision env settings job result (record {
        action = RecoveryAction.recreate_with_offset;
        required_level = some HealingStep.recreate_with_offset;
        attempted_event = some EventType.connector_recreate_with_offset;
      }))
unfolding level
execute_decision-Refused_example =
    Gate.execute_decision-Refused env settings job result RecoveryAction.recreate_with_offset
      HealingStep.recreate_with_offset (some EventType.connector_recreate_with_offset) refl

decide_unhealthy-Warranted_example : Warranted policy job false (decide_unhealthy policy job false)
decide_unhealthy-Warranted_example = Budget.decide_unhealthy-Warranted policy job false

process_job-Quiet_example :
    Extends
      (λ r. ⊥)
      (record world { uncertain_actions = 1 ∷ [] })
      (process_job env settings job true (record world { uncertain_actions = 1 ∷ [] })).1
unfolding self_healing_kafka_syste.Machine.Memory.is_member
process_job-Quiet_example =
    Quiet.process_job-Quiet env settings job true (record world { uncertain_actions = 1 ∷ [] })
      (inl refl)

tick-Extends_example : Extends (λ r. Unit {0}) world (Discovery.tick env settings world).1
tick-Extends_example = Quiet.tick-Extends env settings world

process_connector-Extends_example :
    Extends (λ r. Unit {0}) world (Discovery.process_connector env settings orders true world).1
process_connector-Extends_example = Quiet.process_connector-Extends env settings orders true world

execute_decision-Marked_example :
    Marked 1
      (execute_decision broken_database settings job result
        (record {
          action = RecoveryAction.restart_connector;
          required_level = some HealingStep.restart;
          attempted_event = some EventType.connector_restart;
        })
        world).1
unfolding execute_decision dispatch_decision level_allows level run_action
    self_healing_kafka_syste.Healing.Restart.restart_connector
    self_healing_kafka_syste.Client.Rest.restart_connector ◌>>=◌ send catch pure gets execute modify
    raise record_connector_log has_row mark_uncertain is_member quarantine_uncertain_action
execute_decision-Marked_example =
    Quarantine.execute_decision-Marked broken_database settings job result
      (record {
        action = RecoveryAction.restart_connector;
        required_level = some HealingStep.restart;
        attempted_event = some EventType.connector_restart;
      })
      world odd refl

get_status-opens_example :
    ((get_status (unreachable transport) 30 orders world).0 ≡ raised transport)
    × ((get_status (unreachable transport) 30 orders world).1.circuit
        ≡ record { open_until = 530; half_open = false })
unfolding is_request_error
get_status-opens_example =
    Breaker.get_status-opens (unreachable transport) 30 orders world transport refl refl refl

-- The circuit is open until 600.
abbrev open_world : World
open_world = record world { circuit = record { open_until = 600; half_open = false } }

-- The circuit is open, and its cooldown is over.
abbrev probe_world : World
probe_world = record world { circuit = record { open_until = 400; half_open = false } }

get_status-stuck_example :
    get_status env 30 (text "other") (get_status (unreachable odd) 30 orders probe_world).1 ≡ (
      raised (
          circuit_error (
            ltb
              (env.monotonic (get_status (unreachable odd) 30 orders probe_world).1.steps)
              (get_status (unreachable odd) 30 orders probe_world).1.circuit.open_until)),
      tick env (get_status (unreachable odd) 30 orders probe_world).1,
    )
unfolding is_request_error is_status_error
get_status-stuck_example =
    Breaker.get_status-stuck (unreachable odd) env 30 30 orders (text "other") probe_world odd refl
      refl refl refl refl

abbrev broken_status : ConnectorStatus
broken_status = record {
  name = orders;
  state = ConnectorState.running;
  tasks =
      record { id = 0; state = text "RUNNING"; trace = none }
      ∷ record { id = 1; state = text "FAILED"; trace = none }
      ∷ [];
  trace = none;
}

evaluate-is_broken_example : is_unhealthy (evaluate broken_status 1000).status ≡ true
unfolding is_failed_task text text_eq
evaluate-is_broken_example = Verdict.evaluate-is_broken broken_status 1000

evaluate-failed_task_ids_example : (evaluate broken_status 1000).failed_task_ids ≡ 1 ∷ []
unfolding is_failed_task text text_eq
evaluate-failed_task_ids_example = Verdict.evaluate-failed_task_ids broken_status 1000

orders-IsName : IsName orders
unfolding text
orders-IsName = record { on_one_line = refl; not_empty = refl }

next_versioned_connector_name_example :
    let next = next_versioned_connector_name orders in
    (is_versioned_connector_name next ≡ true)
    × (base_connector_name next ≡ base_connector_name orders)
    × (Sequence.sequence next ≡ Sequence.sequence orders + 1)
next_versioned_connector_name_example =
    Sequence.next_versioned_connector_name_lem orders orders-IsName

after_injective_example : ◌≡◌ {A = ℕ} 2 2
after_injective_example = Sequence.after_injective orders 2 2 orders-IsName refl

-- A job in the mode `RECOVERY`, after a timeout of its recreation.
abbrev retry_job : ConnectorJob
retry_job = record job {
  healing_mode = some HealingMode.recovery;
  level = 4;
  latest_event_type = some EventType.connector_recreate_with_offset_timeout;
}

abbrev missing_response : Response
missing_response = record { status = 404; body = none }

abbrev missing : Env
missing = record env { http = λ n r. response missing_response }

execute_decision-retry_example :
    Extends
      (λ r. r ≡ Request.config orders)
      world
      (execute_decision missing settings retry_job result retry_decision world).1
unfolding level
execute_decision-retry_example =
    Missing.execute_decision-retry missing settings retry_job result world missing_response refl
      refl refl refl

complete-closed_example : has_open 1 (complete env 1 FinalOutcome.escalated world).1.queue ≡ false
complete-closed_example = Closing.complete-closed env 1 FinalOutcome.escalated world refl

abbrev confirmation : LogRow
confirmation = record {
  queue_id = 1;
  connector_name = orders;
  event_type = EventType.health_failed_confirmed;
  attempt_no = none;
  healing_step = none;
  severity = Severity.warning;
  message = text "confirmed";
  details = end;
  created_at = 1000;
}

insert_log-ConfirmedOnce_example : ConfirmedOnce (insert_log confirmation world).logs
unfolding count_events
insert_log-ConfirmedOnce_example =
    Once.insert_log-ConfirmedOnce confirmation world λ id. omega arith

-- Two offsets, the second with a commit SCN above the SCN of the first.
abbrev two_offsets : Items
two_offsets =
    cons (obj (field "offset" (obj (field "scn" (str (text "10")) end)) end))
      (cons (obj (field "offset" (obj (field "commit_scn" (str (text "12:x")) end)) end)) nil)

abbrev two_candidates : List Candidate
two_candidates =
    record { value = 10; is_commit = false; raw = text "10" }
    ∷ record { value = 12; is_commit = true; raw = text "12:x" }
    ∷ []

-- A job whose configuration is loaded.
abbrev loaded_job : ConnectorJob
loaded_job = record job { active_config = some (field "tasks.max" (str (text "1")) end) }

abbrev next_name : Text
next_name = next_versioned_connector_name orders

abbrev next_config : Fields
next_config =
    put "schema.history.internal.kafka.topic" (str (text "schema-history." ++ next_name))
      (put "name" (str next_name) (field "tasks.max" (str (text "1")) end))

recreate_without_offset-Follows_example :
    Follows
      (fresh_requests env settings loaded_job result next_name next_config)
      (recreate_without_offset env settings loaded_job result)
unfolding build_replacement_connector replacement_config version_seed get
recreate_without_offset-Follows_example =
    Protocol.recreate_without_offset-Follows env settings loaded_job result next_name next_config
      refl
