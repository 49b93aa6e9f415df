-- ===== src/Machine/Process.antt =====
-- `_process_job` and `_process_job_safely`.
use self_healing_kafka_syste.Base.{
  Bool, true, false, Option, none, some, ltb, if◌then◌else◌, is_empty,
}
use self_healing_kafka_syste.Base.Text.{Text}
use self_healing_kafka_syste.Domain.{
  Time, EventType, HealthStatus, ConnectorJob, HealthResult, Settings,
}
use self_healing_kafka_syste.Domain.Json.{end, field, str}
use self_healing_kafka_syste.Effect.Exn.{Exn, ok, raised, text}
use self_healing_kafka_syste.Effect.World.{Env, Severity, FinalOutcome}
use self_healing_kafka_syste.Effect.Monad.{M, attempt, finally, utc_now, pure, skip, ◌>>=◌, ◌>>◌}
use self_healing_kafka_syste.Health.{check}
use self_healing_kafka_syste.Policy.{terminal_events, recreate_with_offset_retry_events}
use self_healing_kafka_syste.Store.Queue.{start_processing, wait_for_next_attempt, complete}
use self_healing_kafka_syste.Store.Logs.{Entry, record_connector_log}
use self_healing_kafka_syste.Store.Job.{get_connector_by_id}
use self_healing_kafka_syste.Healing.Escalation.{phase_name}
use self_healing_kafka_syste.Machine.Memory.{
  forget_healthy, is_uncertain, acquire, release, action_wait_until, is_healing_managed_stopped,
}
use self_healing_kafka_syste.Machine.Healthy.{handle_healthy}
use self_healing_kafka_syste.Machine.Dispatch.{
  quarantine_uncertain_action, run_recreate_with_offset_retry_or_escalate,
}
use self_healing_kafka_syste.Machine.Unhealthy.{handle_unhealthy}

pub record ConnectorProcessingOutcome : Type 0 where
  pub processed : Bool
  pub requires_followup : Bool

-- What the `try` of `_process_job_safely` leaves: an early return, or what `_process_job` returned.
pub data Stage : Type 0 where
  returned : ConnectorProcessingOutcome → Stage
  finished : Bool → Stage

abbrev pub error_entry : ConnectorJob → Text → Exn → Entry
error_entry job name x = record {
  connector_id = job.id;
  connector_name = name;
  event_type = EventType.state_machine_error;
  attempt_no = none;
  healing_step = none;
  severity = Severity.error;
  message = x.message;
  scn = none;
  commit_scn = none;
  details = field "phase" (str (text (phase_name job.current_phase))) end;
}

-- `job.connector_name or "unknown"`.
abbrev pub lock_name : ConnectorJob → Text
lock_name job = if is_empty job.connector_name then text "unknown" else job.connector_name

module _ (env : Env) (settings : Settings) where
  abbrev pub has_failures : ConnectorJob → Bool
  has_failures job = ltb 0 job.failed_count

  abbrev pub handle_stopped : ConnectorJob → HealthResult → M Bool
  handle_stopped job result =
      if is_healing_managed_stopped job
      then (do handle_unhealthy env settings job result false; pure true)
      else pure false

  -- By the status of the check.
  unfoldable pub handle_result : ConnectorJob → Bool → HealthResult → HealthStatus → M Bool
  handle_result job failure_confirmed result HealthStatus.not_created =
      if recreate_with_offset_retry_events job.latest_event_type
      then (do run_recreate_with_offset_retry_or_escalate env settings job result; pure true)
      else do forget_healthy job.id; pure (has_failures job)
  handle_result job failure_confirmed result HealthStatus.stopped = handle_stopped job result
  handle_result job failure_confirmed result HealthStatus.healthy = do
    handle_healthy env settings job result
    pure (has_failures job)
  handle_result job failure_confirmed result HealthStatus.unhealthy = do
    handle_unhealthy env settings job result failure_confirmed
    pure true

  abbrev pub by_result : ConnectorJob → Bool → Option HealthResult → M Bool
  by_result job failure_confirmed none = do forget_healthy job.id; pure (has_failures job)
  by_result job failure_confirmed (some result) =
      handle_result job failure_confirmed result result.status

  unfoldable pub check_and_handle : ConnectorJob → Bool → M Bool
  check_and_handle job failure_confirmed = do
    checked ← check env settings.circuit_cooldown job.connector_name
    by_result job failure_confirmed checked

  abbrev pub by_wait : ConnectorJob → Bool → Option Time → M Bool
  by_wait job failure_confirmed none = check_and_handle job failure_confirmed
  by_wait job failure_confirmed (some until) = do
    now ← utc_now env
    if ltb now until then pure (has_failures job) else check_and_handle job failure_confirmed

  -- The wait that the latest action asks for.
  unfoldable pub wait_or_check : ConnectorJob → Bool → M Bool
  wait_or_check job failure_confirmed =
      by_wait job failure_confirmed (action_wait_until settings job)

  unfoldable pub process_job : ConnectorJob → Bool → M Bool
  process_job job failure_confirmed = do
    quarantined ← is_uncertain job.id
    if quarantined
        then (do quarantine_uncertain_action env settings job; pure false)
        else if terminal_events job.latest_event_type
        then (do complete env job.id FinalOutcome.escalated; pure false)
        else wait_or_check job failure_confirmed

  -- The `except` of `_process_job_safely`.
  unfoldable pub on_process_error : ConnectorJob → Exn → M Stage
  on_process_error job x = do
    quarantined ← is_uncertain job.id
    if quarantined
        then pure (Stage.returned (record { processed = true; requires_followup = false }))
        else do
          record_connector_log env (error_entry job (lock_name job) x)
          pure (Stage.returned (record { processed = true; requires_followup = has_failures job }))

  -- The `try` and its `except`.
  unfoldable pub guarded : ConnectorJob → Bool → M Stage
  guarded job failure_confirmed = do
    tried ← attempt (do start_processing env job.id; process_job job failure_confirmed)
    elim tried [ ok followup ↦ pure (Stage.finished followup) | raised x ↦ on_process_error job x ]

  abbrev pub reschedule_at : ConnectorJob → Option Time → M (Unit {0})
  reschedule_at job (some until) = wait_for_next_attempt env job.id until
  reschedule_at job none = do now ← utc_now env; wait_for_next_attempt env job.id now

  abbrev pub reschedule_row : ConnectorJob → Option ConnectorJob → M (Unit {0})
  reschedule_row job none = skip
  reschedule_row job (some again) = reschedule_at job (action_wait_until settings again)

  -- The time at which the row is due again.
  unfoldable pub reschedule : ConnectorJob → M (Unit {0})
  reschedule job = do refreshed ← get_connector_by_id env job.id; reschedule_row job refreshed

  unfoldable pub finish_stage : ConnectorJob → Stage → M ConnectorProcessingOutcome
  finish_stage job (Stage.returned outcome) = pure outcome
  finish_stage job (Stage.finished false) =
      pure (record { processed = true; requires_followup = false })
  finish_stage job (Stage.finished true) = do
    reschedule job
    pure (record { processed = true; requires_followup = true })

  unfoldable pub process_job_safely : ConnectorJob → Bool → M ConnectorProcessingOutcome
  process_job_safely job failure_confirmed = do
    acquired ← acquire (lock_name job)
    if acquired
        then (do
          stage ← finally (guarded job failure_confirmed) (release (lock_name job))
          finish_stage job stage)
        else pure (record { processed = false; requires_followup = false })
