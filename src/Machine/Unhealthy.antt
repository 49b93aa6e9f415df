-- ===== src/Machine/Unhealthy.antt =====
-- `_handle_unhealthy`.
use self_healing_kafka_syste.Base.{
  ℕ, ◌+◌, Bool, true, false, ◌&&◌, ◌||◌, not, none, some, ◌++◌, leb, if◌then◌else◌, is_empty,
}
use self_healing_kafka_syste.Domain.{
  EventType, HealingStep, RecoveryAction, ConnectorJob, HealthResult, Settings, max_failed_count,
  step_value,
}
use self_healing_kafka_syste.Domain.Json.{end, field, num}
use self_healing_kafka_syste.Effect.Exn.{text}
use self_healing_kafka_syste.Effect.World.{Env, Severity, FinalOutcome}
use self_healing_kafka_syste.Effect.Monad.{M, pure, skip, ◌>>=◌, ◌>>◌}
use self_healing_kafka_syste.Policy.{decide_unhealthy}
use self_healing_kafka_syste.Store.Queue.{complete}
use self_healing_kafka_syste.Store.Logs.{Entry, record_connector_log}
use self_healing_kafka_syste.Healing.Helpers.{
  clamp_failed_count, failure_message, failure_details, numbers,
}
use self_healing_kafka_syste.Machine.Memory.{forget_healthy}
use self_healing_kafka_syste.Machine.Dispatch.{execute_decision}

abbrev pub observed_entry : ConnectorJob → HealthResult → ℕ → Entry
observed_entry job result failed_count = record {
  connector_id = job.id;
  connector_name = job.connector_name;
  event_type = EventType.health_failure_observed;
  attempt_no = some failed_count;
  healing_step = some (step_value HealingStep.detect);
  severity = Severity.warning;
  message = failure_message result;
  scn = none;
  commit_scn = none;
  details = failure_details result (
      field "task_ids" (numbers result.failed_task_ids)
        (field "failed_count" (num failed_count) end));
}

abbrev pub confirmed_entry : ConnectorJob → HealthResult → ℕ → Entry
confirmed_entry job result failed_count = record {
  connector_id = job.id;
  connector_name = job.connector_name;
  event_type = EventType.health_failed_confirmed;
  attempt_no = none;
  healing_step = some (step_value HealingStep.detect);
  severity = Severity.warning;
  message = text "Connector failure confirmed; starting healing: " ++ failure_message result;
  scn = none;
  commit_scn = none;
  details = failure_details result (
      field "failed_task_ids" (numbers result.failed_task_ids)
        (field "failed_count" (num failed_count) end));
}

-- `bool(result.failed_task_ids or job.failed_task)`.
abbrev pub has_failed_tasks : ConnectorJob → HealthResult → Bool
has_failed_tasks job result = not (is_empty result.failed_task_ids) || job.failed_task

-- The job after the observation is logged.
abbrev pub observed_job : Settings → ConnectorJob → HealthResult → ConnectorJob
observed_job settings job result = record job {
  failed_count = clamp_failed_count (job.failed_count + 1) (max_failed_count settings.policy);
  failed_task = not (is_empty result.failed_task_ids);
  failed_connector = is_empty result.failed_task_ids;
}

abbrev pub is_stop : RecoveryAction → Bool
is_stop RecoveryAction.stop = true
is_stop _ = false

abbrev pub is_debounce : RecoveryAction → Bool
is_debounce RecoveryAction.debounce = true
is_debounce _ = false

module _ (env : Env) (settings : Settings) where
  -- The confirmation is due once, after enough observations or on an alert.
  unfoldable pub confirm_if_due : ConnectorJob → HealthResult → Bool → M ConnectorJob
  confirm_if_due job result failure_confirmed =
      if not job.failure_confirmed
        && (failure_confirmed || leb settings.policy.failure_confirm_checks job.failed_count)
      then (do
        record_connector_log env (confirmed_entry job result job.failed_count)
        pure (record job { failure_confirmed = true }))
      else pure job

  -- The last part: the decision, and its execution unless it is to wait.
  unfoldable pub act : ConnectorJob → HealthResult → M (Unit {0})
  act job result =
      let decision = decide_unhealthy settings.policy job (has_failed_tasks job result) in
      if is_debounce decision.action
      then skip
      else execute_decision env settings job result decision

  unfoldable pub observe_and_act : ConnectorJob → HealthResult → Bool → M (Unit {0})
  observe_and_act job result failure_confirmed = do
    let observed = observed_job settings job result
    record_connector_log env (observed_entry job result observed.failed_count)
    confirmed ← confirm_if_due observed result failure_confirmed
    act confirmed result

  unfoldable pub handle_unhealthy : ConnectorJob → HealthResult → Bool → M (Unit {0})
  handle_unhealthy job result failure_confirmed = do
    forget_healthy job.id
    let current = decide_unhealthy settings.policy job (has_failed_tasks job result)
    if is_stop current.action
        then complete env job.id FinalOutcome.escalated
        else observe_and_act job result failure_confirmed
