-- ===== src/Healing/Escalation.antt =====
-- `EscalationExecutor` of src/self_healthy_kafka/healing/action_services/escalation.py.
use self_healing_kafka_syste.Base.{some, none, ◌++◌, String}
use self_healing_kafka_syste.Base.Decimal.{print_decimal}
use self_healing_kafka_syste.Domain.{
  HealingStep, EventType, Phase, ConnectorJob, HealthResult, event_name, step_value,
}
use self_healing_kafka_syste.Domain.Json.{end, field, str, num}
use self_healing_kafka_syste.Effect.Exn.{text}
use self_healing_kafka_syste.Effect.World.{Env, Severity, FinalOutcome}
use self_healing_kafka_syste.Effect.Monad.{M, ◌>>◌}
use self_healing_kafka_syste.Store.Queue.{complete}
use self_healing_kafka_syste.Store.Logs.{Entry, record_connector_log}
use self_healing_kafka_syste.Healing.Helpers.{failure_message, failure_details}

-- The text of the constant.
unfoldable pub phase_name : Phase → String
phase_name Phase.healthy = "HEALTHY"
phase_name Phase.initial_waiting = "INITIAL_WAITING"
phase_name Phase.kc_unreachable = "KC_UNREACHABLE"
phase_name Phase.failed_debounce = "FAILED_DEBOUNCE"
phase_name Phase.task_restarting = "TASK_RESTARTING"
phase_name Phase.connector_restarting = "CONNECTOR_RESTARTING"
phase_name Phase.recreate_with_offset_verifying = "RECREATE_WITH_OFFSET_VERIFYING"
phase_name Phase.recreate_with_offset_failed = "RECREATE_WITH_OFFSET_FAILED"
phase_name Phase.recreate_without_offset_verifying = "RECREATE_WITHOUT_OFFSET_VERIFYING"
phase_name Phase.recreate_without_offset_failed = "RECREATE_WITHOUT_OFFSET_FAILED"
phase_name Phase.escalated = "ESCALATED"

abbrev escalation_entry : ConnectorJob → HealthResult → Entry
escalation_entry job result = record {
  connector_id = job.id;
  connector_name = job.connector_name;
  event_type = EventType.healing_escalated;
  attempt_no = none;
  healing_step = some (step_value HealingStep.recreate_without_offset);
  severity = Severity.critical;
  message = failure_message result;
  scn = none;
  commit_scn = none;
  details = failure_details result (
      field "action" (str (text "Automated healing exhausted"))
        (field "phase" (str (text (phase_name job.current_phase))) end));
}

abbrev level_limit_entry : ConnectorJob → HealthResult → HealingStep → EventType → Entry
level_limit_entry job result required attempted = record {
  connector_id = job.id;
  connector_name = job.connector_name;
  event_type = EventType.healing_level_limit_reached;
  attempt_no = none;
  healing_step = some (step_value required);
  severity = Severity.critical;
  message =
      text "Connector level "
      ++ (print_decimal job.level
          ++ (text " does not allow "
              ++ (text (event_name attempted) ++ text "; manual configuration required")));
  scn = none;
  commit_scn = none;
  details = failure_details result (
      field "required_level" (num (step_value required)) (
        field "connector_level" (num job.level)
          (field "attempted_event" (str (text (event_name attempted))) end)));
}

module _ (env : Env) where
  unfoldable pub escalate : ConnectorJob → HealthResult → M (Unit {0})
  escalate job result = do
    record_connector_log env (escalation_entry job result)
    complete env job.id FinalOutcome.escalated

  unfoldable pub level_limit_reached :
      ConnectorJob → HealthResult → HealingStep → EventType → M (Unit {0})
  level_limit_reached job result required attempted = do
    record_connector_log env (level_limit_entry job result required attempted)
    complete env job.id FinalOutcome.escalated
