-- ===== src/Healing/Failure.antt =====
-- The helpers of `HealingActions` in src/self_healthy_kafka/healing/actions.py that the recreations
-- share.
use self_healing_kafka_syste.Base.{ℕ, ◌+◌, ◌&&◌, not, Option, some, none, if◌then◌else◌}
use self_healing_kafka_syste.Base.Text.{Text, text_eq}
use self_healing_kafka_syste.Domain.{HealingStep, EventType, ConnectorJob, Settings, step_value}
use self_healing_kafka_syste.Domain.Json.{Value, Fields, str, set_default}
use self_healing_kafka_syste.Effect.World.{Env, Severity}
use self_healing_kafka_syste.Effect.Monad.{M, catch, skip}
use self_healing_kafka_syste.Client.Rest.{delete_connector}
use self_healing_kafka_syste.Naming.Version.{is_versioned_connector_name}
use self_healing_kafka_syste.Naming.Scn.{text_of}
use self_healing_kafka_syste.Store.Logs.{Entry, record_connector_log}
use self_healing_kafka_syste.Healing.Helpers.{original_name, non_empty_or}

module _ (repr : Value → Text) where
  -- `_original_connector_name`.
  unfoldable pub original_connector_name : ConnectorJob → Text
  unfolding original_name
  original_connector_name job = text_of repr (original_name job)

-- A log of a recreation: the fields that differ are the arguments.
abbrev pub recreate_entry :
    ConnectorJob → Text → EventType → ℕ → HealingStep → Severity → Text → Fields → Entry
recreate_entry job name event attempt step severity message details = record {
  connector_id = job.id;
  connector_name = name;
  event_type = event;
  attempt_no = some attempt;
  healing_step = some (step_value step);
  severity = severity;
  message = message;
  scn = none;
  commit_scn = none;
  details = details;
}

module _ (env : Env) where
  -- `_log_recreate_with_offset_failure`; `name` is the argument `connector_name`.
  unfoldable pub log_recreate_with_offset_failure :
      ConnectorJob → Text → Option Text → Fields → M (Unit {0})
  log_recreate_with_offset_failure job message name details = record_connector_log env (
      recreate_entry job (non_empty_or name job.connector_name)
        EventType.connector_recreate_with_offset_failed (job.recreate_with_offset_count + 1)
        HealingStep.recreate_with_offset Severity.error message
        (set_default "original_connector_name" (str (original_connector_name env.repr job))
          details))

  -- `_delete_failed_versioned_connector`.
  unfoldable pub delete_failed_versioned_connector :
      Settings → ConnectorJob → Text → Text → M (Unit {0})
  delete_failed_versioned_connector settings job old_name new_name =
      if text_eq old_name new_name
      then skip
      else if not (is_versioned_connector_name old_name)
      then skip
      else if settings.recreate_keep_base_connector
          && text_eq old_name (original_connector_name env.repr job)
      then skip
      else catch (delete_connector env old_name) (λ x. skip)
