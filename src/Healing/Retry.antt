-- ===== src/Healing/Retry.antt =====
-- `retry_timed_out_recreate_with_offset` of src/self_healthy_kafka/healing/actions.py.
use self_healing_kafka_syste.Base.{
  ℕ, ◌+◌, Bool, true, false, Option, some, none, ◌++◌, if◌then◌else◌, or_else, String,
}
use self_healing_kafka_syste.Base.Text.{Text}
use self_healing_kafka_syste.Domain.{HealingStep, EventType, ConnectorJob, HealthResult, Settings}
use self_healing_kafka_syste.Domain.Json.{
  Value, Fields, end, field, str, num, obj, get, keep_truthy,
}
use self_healing_kafka_syste.Effect.Exn.{Exn, ok, raised, text, is_timeout}
use self_healing_kafka_syste.Effect.World.{Env, Severity}
use self_healing_kafka_syste.Effect.Monad.{M, attempt, raise, pure, ◌>>=◌, ◌>>◌}
use self_healing_kafka_syste.Client.Rest.{
  connector_exists, stop_connector, create_connector, patch_offsets, resume_connector,
}
use self_healing_kafka_syste.Store.Logs.{Entry, record_connector_log}
use self_healing_kafka_syste.Healing.Helpers.{failure_message, failure_details, value_or_null}
use self_healing_kafka_syste.Healing.Failure.{
  original_connector_name, recreate_entry, log_recreate_with_offset_failure,
}

-- `details.get("config") or job.get("active_config") or {}`; a configuration that is no object
-- cannot be sent.
abbrev config_of : Option Value → Option Fields → Fields
config_of none active = or_else active end
config_of (some (obj fs)) active = fs
config_of (some _) active = end

unfoldable pub retry_config : ConnectorJob → Fields
retry_config job = config_of (keep_truthy (get "config" job.latest_event_details)) job.active_config

-- How the `try` around the creation ended: `exists_unstopped` is the return in its middle.
pub data Prepared : Type 0 where
  ready exists_unstopped : Prepared

module _ (env : Env) (settings : Settings) where
  abbrev old_name : ConnectorJob → Value
  old_name job = value_or_null (get "old_connector_name" job.latest_event_details)

  abbrev retry_names : ConnectorJob → Fields → Fields
  retry_names job more =
      field "original_connector_name" (str (original_connector_name env.repr job)) (
        field "old_connector_name" (old_name job)
          (field "new_connector_name" (str job.connector_name) more))

  abbrev pub retry_entry : ConnectorJob → EventType → ℕ → Severity → Text → Fields → Entry
  retry_entry job event number severity message details =
      recreate_entry job job.connector_name event number HealingStep.recreate_with_offset severity
        message details

  abbrev retry_attempt : ConnectorJob → ℕ
  retry_attempt job = job.recreate_with_offset_timeout_count + 1

  -- The body of the `try`.
  unfoldable pub prepare_retry : ConnectorJob → M Prepared
  prepare_retry job = do
    present ← connector_exists env settings.circuit_cooldown job.connector_name
    if present
        then (do
          stopped ← stop_connector env job.connector_name
          if stopped then pure Prepared.ready else do
            log_recreate_with_offset_failure env job
                (text "Existing replacement connector could not be stopped before offset patch")
                (some job.connector_name)
                (field "old_connector_name" (old_name job)
                  (field "new_connector_name" (str job.connector_name) end))
            pure Prepared.exists_unstopped)
        else do
          create_connector env job.connector_name (retry_config job) (some (text "STOPPED"))
          pure Prepared.ready

  unfoldable pub retry_failed : ConnectorJob → Exn → M Bool
  retry_failed job x =
      if is_timeout x
      then (do
        record_connector_log env (
            retry_entry job EventType.connector_recreate_with_offset_timeout (retry_attempt job)
              Severity.error (text "Timed out again while retrying replacement connector creation")
              (retry_names job (field "error" (str x.message) end)))
        pure false)
      else raise x

  unfoldable pub record_retried : ConnectorJob → HealthResult → M Bool
  record_retried job result = do
    record_connector_log env (
        retry_entry job EventType.connector_recreate_with_offset
          (job.recreate_with_offset_count + 1) Severity.info (failure_message result)
          (failure_details result (
            field "action"
              (str (
                text "Retried replacement connector "
                ++ (job.connector_name ++ text " with offset restore")))
              (field "old_connector_name" (old_name job) (
                field "new_connector_name" (str job.connector_name) (
                  field "original_connector_name" (str (original_connector_name env.repr job)) (
                    field "recreate_verify_wait_seconds" (num settings.recreate_verify_wait_seconds)
                      end)))))))
    pure true

  unfoldable pub retry_refused : ConnectorJob → EventType → String → M Bool
  retry_refused job event message = do
    record_connector_log env (
        retry_entry job event (retry_attempt job) Severity.error (text message)
          (retry_names job end))
    pure false

  unfoldable pub patch_and_resume : ConnectorJob → HealthResult → Fields → M Bool
  patch_and_resume job result offsets = do
    patched ← patch_offsets env job.connector_name offsets
    if patched
        then (do
          resumed ← resume_connector env job.connector_name
          if resumed
              then record_retried job result
              else retry_refused job EventType.connector_resume_failed
                  "Failed to resume replacement connector after retry")
        else retry_refused job EventType.offset_patch_failed
            "Failed to patch offsets after retrying replacement connector create"

  unfoldable pub retry_with : ConnectorJob → HealthResult → Fields → M Bool
  retry_with job result offsets = do
    prepared ← attempt (prepare_retry job)
    elim prepared [
      | raised x ↦ retry_failed job x
      | ok p ↦ elim p [
        | Prepared.ready ↦ patch_and_resume job result offsets
        | Prepared.exists_unstopped ↦ pure false
      ]
    ]

  unfoldable pub retry_offsets : ConnectorJob → HealthResult → Option Value → M Bool
  retry_offsets job result (some (obj offsets)) = retry_with job result offsets
  retry_offsets job result _ = do
    log_recreate_with_offset_failure env job
        (text "Saved offsets are missing from recreate retry state") (some job.connector_name) end
    pure false

  unfoldable pub retry_timed_out_recreate_with_offset : ConnectorJob → HealthResult → M Bool
  retry_timed_out_recreate_with_offset job result =
      retry_offsets job result (get "offsets" job.latest_event_details)
