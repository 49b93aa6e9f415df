-- ===== src/Healing/Fresh.antt =====
-- `recreate_without_offset` of src/self_healthy_kafka/healing/actions.py.
use self_healing_kafka_syste.Base.{ℕ, ◌+◌, Bool, true, false, none, if◌then◌else◌}
use self_healing_kafka_syste.Base.Text.{Text}
use self_healing_kafka_syste.Domain.{HealingStep, EventType, ConnectorJob, HealthResult, Settings}
use self_healing_kafka_syste.Domain.Json.{Fields, end, field, str, num, bool, get, pop}
use self_healing_kafka_syste.Effect.Exn.{ok, raised, text}
use self_healing_kafka_syste.Effect.World.{Env, Severity}
use self_healing_kafka_syste.Effect.Monad.{M, attempt, lift, pure, ◌>>=◌, ◌>>◌}
use self_healing_kafka_syste.Client.Rest.{stop_connector, create_connector}
use self_healing_kafka_syste.Naming.Replacement.{build_replacement_connector, recreate_action}
use self_healing_kafka_syste.Store.Queue.{set_current_name}
use self_healing_kafka_syste.Store.Logs.{Entry, record_connector_log}
use self_healing_kafka_syste.Healing.Helpers.{failure_message, failure_details, value_or_null}
use self_healing_kafka_syste.Healing.Failure.{
  original_connector_name, recreate_entry, delete_failed_versioned_connector,
}

module _ (env : Env) (settings : Settings) where
  abbrev fresh_attempt : ConnectorJob → ℕ
  fresh_attempt job = job.recreate_without_offset_count + 1

  unfoldable pub log_fresh_failure : ConnectorJob → Text → Text → M Bool
  log_fresh_failure job connector_name message = do
    record_connector_log env (
        recreate_entry job job.connector_name EventType.connector_recreate_without_offset_failed
          (fresh_attempt job) HealingStep.recreate_without_offset Severity.error message
          (field "original_connector_name" (str (original_connector_name env.repr job)) (
            field "old_connector_name" (str job.connector_name)
              (field "new_connector_name" (str connector_name) end))))
    pure false

  abbrev pub fresh_entry : ConnectorJob → HealthResult → Text → Fields → Entry
  fresh_entry job result connector_name config =
      recreate_entry job connector_name EventType.connector_recreate_without_offset
        (fresh_attempt job) HealingStep.recreate_without_offset Severity.warning
        (failure_message result)
        (failure_details result (
          field "action"
            (str
              (recreate_action job.connector_name connector_name (text "without offset restore")))
            (field "old_connector_name" (str job.connector_name) (
              field "new_connector_name" (str connector_name) (
                field "original_connector_name" (str (original_connector_name env.repr job)) (
                  field "schema_history_topic"
                    (value_or_null (get "schema.history.internal.kafka.topic" config))
                    (field "data_loss_possible" (bool true) (
                      field "recreate_verify_wait_seconds"
                        (num settings.recreate_verify_wait_seconds) end))))))))

  -- The end, after the creation.
  unfoldable pub record_fresh : ConnectorJob → HealthResult → Text → Fields → M Bool
  record_fresh job result connector_name config = do
    record_connector_log env (fresh_entry job result connector_name config)
    set_current_name env job.id connector_name
    delete_failed_versioned_connector env settings job job.connector_name connector_name
    pure true

  unfoldable pub create_fresh : ConnectorJob → HealthResult → Text → Fields → M Bool
  create_fresh job result connector_name config = do
    created ← attempt (create_connector env connector_name config none)
    elim created [
      | ok v ↦ record_fresh job result connector_name config
      | raised x ↦ log_fresh_failure job connector_name x.message
    ]

  unfoldable pub recreate_without_offset : ConnectorJob → HealthResult → M Bool
  recreate_without_offset job result = do
    replacement ← lift (build_replacement_connector env.repr job none false)
    let connector_name = replacement.0
    let config = pop "snapshot.scn" replacement.1
    stopped ← stop_connector env job.connector_name
    if stopped
        then create_fresh job result connector_name config
        else log_fresh_failure job connector_name
            (text "Failed to stop old connector before creating replacement")
