-- ===== src/Healing/Recreate.antt =====
-- `recreate_with_offset` of src/self_healthy_kafka/healing/actions.py, stage by stage from its end.
use self_healing_kafka_syste.Base.{
  ℕ, ◌+◌, Bool, true, false, Option, some, none, if◌then◌else◌, String,
}
use self_healing_kafka_syste.Base.Text.{Text}
use self_healing_kafka_syste.Domain.{HealingStep, EventType, ConnectorJob, HealthResult, Settings}
use self_healing_kafka_syste.Domain.Json.{Value, Fields, end, field, str, num, bool, obj, get}
use self_healing_kafka_syste.Effect.Exn.{Exn, ok, raised, text, is_timeout}
use self_healing_kafka_syste.Effect.World.{Env, Severity}
use self_healing_kafka_syste.Effect.Monad.{M, attempt, lift, pure, ◌>>=◌, ◌>>◌}
use self_healing_kafka_syste.Client.Rest.{
  get_offsets, stop_connector, create_connector, patch_offsets, resume_connector,
}
use self_healing_kafka_syste.Naming.Scn.{extract_last_scn, has_offsets}
use self_healing_kafka_syste.Naming.Replacement.{build_replacement_connector, recreate_action}
use self_healing_kafka_syste.Store.Queue.{set_current_name}
use self_healing_kafka_syste.Store.Logs.{Entry, record_connector_log}
use self_healing_kafka_syste.Healing.Helpers.{failure_message, failure_details, value_or_null}
use self_healing_kafka_syste.Healing.Failure.{
  original_connector_name, recreate_entry, log_recreate_with_offset_failure,
  delete_failed_versioned_connector,
}

-- What the stages share: the job, the observation, the captured offsets and the replacement.
pub record Plan : Type 0 where
  pub job : ConnectorJob
  pub result : HealthResult
  pub offsets : Fields
  pub scn : Option Text
  pub commit_scn : Option Text
  pub connector_name : Text
  pub config : Fields

abbrev pub next_attempt : ConnectorJob → ℕ
next_attempt job = job.recreate_with_offset_count + 1

-- The old and the new name, as the failure logs carry them.
abbrev both_names : Plan → Fields
both_names p =
    field "old_connector_name" (str p.job.connector_name)
      (field "new_connector_name" (str p.connector_name) end)

module _ (env : Env) (settings : Settings) where
  abbrev original : Plan → Text
  original p = original_connector_name env.repr p.job

  abbrev all_names : Plan → Fields
  all_names p = field "original_connector_name" (str (original p)) (both_names p)

  -- `_mark_recreate_with_offset_created_connector`.
  unfoldable pub mark_created_connector : Plan → M (Unit {0})
  mark_created_connector p = set_current_name env p.job.id p.connector_name

  abbrev pub captured_entry : ConnectorJob → Option Value → Option Text → Option Text → Entry
  captured_entry job offsets scn commit_scn =
      record (recreate_entry job job.connector_name EventType.offset_captured (next_attempt job)
        HealingStep.recreate_with_offset Severity.warning
        (text "Captured connector offsets before recreate")
        (field "offsets" (value_or_null offsets) end)) { scn = scn; commit_scn = commit_scn }

  abbrev pub recreated_entry : Plan → Entry
  recreated_entry p =
      record (recreate_entry p.job p.connector_name EventType.connector_recreate_with_offset
        (next_attempt p.job) HealingStep.recreate_with_offset Severity.warning
        (failure_message p.result)
        (failure_details p.result (
          field "action"
            (str
              (recreate_action p.job.connector_name p.connector_name (text "with offset restore")))
            (field "old_connector_name" (str p.job.connector_name) (
              field "new_connector_name" (str p.connector_name) (
                field "original_connector_name" (str (original p)) (
                  field "schema_history_topic"
                    (value_or_null (get "schema.history.internal.kafka.topic" p.config))
                    (field "preserve_schema_history" (bool true) (
                      field "recreate_verify_wait_seconds"
                        (num settings.recreate_verify_wait_seconds) end))))))))) {
                          scn = p.scn;
                          commit_scn = p.commit_scn;
                        }

  abbrev pub timeout_entry : Plan → Exn → Entry
  timeout_entry p x =
      recreate_entry p.job p.connector_name EventType.connector_recreate_with_offset_timeout
        (p.job.recreate_with_offset_timeout_count + 1) HealingStep.recreate_with_offset
        Severity.warning
        (text
          "Timed out while creating replacement connector; will wait and retry recreate with offset once")
        (field "original_connector_name" (str (original p)) (
          field "old_connector_name" (str p.job.connector_name) (
            field "new_connector_name" (str p.connector_name) (
              field "retry_after_seconds" (num settings.recreate_verify_wait_seconds)
                (field "error" (str x.message) (field "offsets" (obj p.offsets) end))))))

  -- The last stage, after the resume: the log, the row's name, and the old connector.
  unfoldable pub record_recreated : Plan → M Bool
  record_recreated p = do
    record_connector_log env (recreated_entry p)
    set_current_name env p.job.id p.connector_name
    delete_failed_versioned_connector env settings p.job p.job.connector_name p.connector_name
    pure true

  -- The common end of a patch and of a resume that failed.
  unfoldable pub created_but_failed : Plan → EventType → String → M Bool
  created_but_failed p event message = do
    mark_created_connector p
    record_connector_log env (
        recreate_entry p.job p.connector_name event (next_attempt p.job)
          HealingStep.recreate_with_offset Severity.error (text message) (all_names p))
    log_recreate_with_offset_failure env p.job (text message) (some p.connector_name) (both_names p)
    pure false

  unfoldable pub resume_replacement : Plan → M Bool
  resume_replacement p = do
    resumed ← resume_connector env p.connector_name
    if resumed
        then record_recreated p
        else created_but_failed p EventType.connector_resume_failed
            "Failed to resume replacement connector after offset patch"

  unfoldable pub patch_replacement : Plan → M Bool
  patch_replacement p = do
    patched ← patch_offsets env p.connector_name p.offsets
    if patched
        then resume_replacement p
        else created_but_failed p EventType.offset_patch_failed
            "Failed to patch offsets onto stopped replacement connector"

  -- The handler of the creation's exception.
  unfoldable pub creation_failed : Plan → Exn → M Bool
  creation_failed p x =
      if is_timeout x
      then (do mark_created_connector p; record_connector_log env (timeout_entry p x); pure false)
      else do log_recreate_with_offset_failure env p.job x.message none (both_names p); pure false

  unfoldable pub create_replacement : Plan → M Bool
  create_replacement p = do
    created ← attempt (create_connector env p.connector_name p.config (some (text "STOPPED")))
    elim created [ ok v ↦ patch_replacement p | raised x ↦ creation_failed p x ]

  unfoldable pub stop_and_replace : Plan → M Bool
  stop_and_replace p = do
    stopped ← stop_connector env p.job.connector_name
    if stopped then create_replacement p else do
      log_recreate_with_offset_failure env p.job
          (text "Failed to stop old connector before creating replacement") none (both_names p)
      pure false

  -- The stages after the capture, with offsets at hand.
  unfoldable pub replace_with_offsets :
      ConnectorJob → HealthResult → Fields → Option Text → Option Text → M Bool
  replace_with_offsets job result offsets scn commit_scn =
      elim (build_replacement_connector env.repr job scn true) [
        | raised x ↦ do
          log_recreate_with_offset_failure env job x.message none
              (field "old_connector_name" (str job.connector_name) end)
          pure false
        | ok (connector_name, config) ↦ stop_and_replace (record {
          job = job;
          result = result;
          offsets = offsets;
          scn = scn;
          commit_scn = commit_scn;
          connector_name = connector_name;
          config = config;
        })
      ]

  unfoldable pub recreate_with_offset : ConnectorJob → HealthResult → M Bool
  recreate_with_offset job result = do
    offsets ← get_offsets env job.connector_name
    scns ← lift (extract_last_scn env.repr offsets)
    record_connector_log env (captured_entry job offsets scns.0 scns.1)
    captured ← lift (has_offsets offsets)
    elim captured [
      | some fs ↦ replace_with_offsets job result fs scns.0 scns.1
      | none ↦ do
        log_recreate_with_offset_failure env job
            (text "No connector offsets captured; cannot safely recreate with offset") none
            (field "offsets" (value_or_null offsets) end)
        pure false
    ]
