-- ===== src/Healing/Restart.antt =====
-- `RestartExecutor` of src/self_healthy_kafka/healing/action_services/restart.py.
use self_healing_kafka_syste.Base.{
  ℕ, ◌+◌, true, false, some, none, List, ◌++◌, if◌then◌else◌, is_empty,
}
use self_healing_kafka_syste.Domain.{
  HealingStep, EventType, ConnectorJob, HealthResult, Settings, max_failed_count, step_value,
}
use self_healing_kafka_syste.Domain.Json.{end, field, str, num}
use self_healing_kafka_syste.Effect.Exn.{text}
use self_healing_kafka_syste.Effect.World.{Env, Severity}
use self_healing_kafka_syste.Effect.Monad.{M, ◌>>◌}
use self_healing_kafka_syste.Client.Rest
use self_healing_kafka_syste.Store.Logs.{Entry, record_connector_log}
use self_healing_kafka_syste.Healing.Helpers.{
  clamp_failed_count, failure_message, failure_details, numbers,
}

abbrev task_restart_entry : Settings → ConnectorJob → HealthResult → Entry
task_restart_entry settings job result =
    let task_ids : List ℕ =
      if is_empty result.failed_task_ids
      then job.last_failed_task_ids
      else result.failed_task_ids in
    let failed_count = clamp_failed_count job.failed_count (max_failed_count settings.policy) in
    record {
      connector_id = job.id;
      connector_name = job.connector_name;
      event_type = EventType.task_restart;
      attempt_no = some (job.task_restart_count + 1);
      healing_step = some (step_value HealingStep.restart);
      severity = Severity.warning;
      message = failure_message result;
      scn = none;
      commit_scn = none;
      details = failure_details result (
          field "action" (str (text "Restarted failed connector tasks")) (
            field "task_ids" (numbers task_ids) (
              field "failed_count" (num failed_count) (
                field "post_restart_wait_seconds" (num settings.post_restart_wait_seconds) (
                  field "kafka_connect_endpoint"
                    (str (
                      text "/connectors/"
                      ++ (job.connector_name ++ text "/restart?includeTasks=true&onlyFailed=true")))
                    end)))));
    }

abbrev connector_restart_entry : Settings → ConnectorJob → HealthResult → Entry
connector_restart_entry settings job result =
    let failed_count =
      if job.failed_task
      then max_failed_count settings.policy
      else clamp_failed_count job.failed_count (max_failed_count settings.policy) in
    record {
      connector_id = job.id;
      connector_name = job.connector_name;
      event_type = EventType.connector_restart;
      attempt_no = some (job.connector_restart_count + 1);
      healing_step = some (step_value HealingStep.restart);
      severity = Severity.warning;
      message = failure_message result;
      scn = none;
      commit_scn = none;
      details = failure_details result (
          field "action" (str (text "Restarted full connector")) (
            field "failed_count" (num failed_count)
              (field "post_restart_wait_seconds" (num settings.post_restart_wait_seconds) end)));
    }

module _ (env : Env) (settings : Settings) where
  unfoldable pub restart_failed_tasks : ConnectorJob → HealthResult → M (Unit {0})
  restart_failed_tasks job result = do
    Rest.restart_connector env job.connector_name true
    record_connector_log env (task_restart_entry settings job result)

  unfoldable pub restart_connector : ConnectorJob → HealthResult → M (Unit {0})
  restart_connector job result = do
    Rest.restart_connector env job.connector_name false
    record_connector_log env (connector_restart_entry settings job result)
