-- ===== src/Machine/Dispatch.antt =====
-- `_execute_decision`, `_quarantine_uncertain_action`, `_dispatch_decision`, `_load_runtime_config`,
-- `_run_recreate_with_offset_retry_or_escalate` and `_level_allows`.
use self_healing_kafka_syste.Base.{
  Bool, true, false, Option, none, some, ◌++◌, ltb, leb, if◌then◌else◌,
}
use self_healing_kafka_syste.Domain.{
  EventType, HealingStep, RecoveryAction, RecoveryDecision, ConnectorJob, HealthResult, Settings,
  step_value,
}
use self_healing_kafka_syste.Domain.Json.{Fields, end, field, bool}
use self_healing_kafka_syste.Effect.Exn.{Exn, ExnKind, text}
use self_healing_kafka_syste.Effect.World.{Env, Severity, FinalOutcome}
use self_healing_kafka_syste.Effect.Monad.{M, catch, raise, pure, skip, ◌>>=◌, ◌>>◌}
use self_healing_kafka_syste.Client.Rest.{get_config}
use self_healing_kafka_syste.Policy.{plain, retry_decision}
use self_healing_kafka_syste.Store.Queue.{complete}
use self_healing_kafka_syste.Store.Logs.{Entry, record_connector_log}
use self_healing_kafka_syste.Healing.Helpers.{level}
use self_healing_kafka_syste.Healing.Restart.{restart_failed_tasks, restart_connector}
use self_healing_kafka_syste.Healing.Escalation.{escalate, level_limit_reached}
use self_healing_kafka_syste.Healing.Recreate.{recreate_with_offset}
use self_healing_kafka_syste.Healing.Retry.{retry_timed_out_recreate_with_offset}
use self_healing_kafka_syste.Healing.Fresh.{recreate_without_offset}
use self_healing_kafka_syste.Machine.Memory.{mark_uncertain, discard_uncertain}

abbrev pub quarantine_entry : ConnectorJob → Entry
quarantine_entry job = record {
  connector_id = job.id;
  connector_name = job.connector_name;
  event_type = EventType.healing_escalated;
  attempt_no = none;
  healing_step = none;
  severity = Severity.critical;
  message =
      text "Action outcome or audit persistence is uncertain; manual reconciliation required.";
  scn = none;
  commit_scn = none;
  details = field "outcome_uncertain" (bool true) (field "automatic_replay" (bool false) end);
}

abbrev pub no_runtime_config : ConnectorJob → Exn
no_runtime_config job = record {
  kind = ExnKind.runtime_error;
  message = text "Connector " ++ (job.connector_name ++ text " has no readable runtime config");
}

module _ (env : Env) (settings : Settings) where
  unfoldable pub quarantine_uncertain_action : ConnectorJob → M (Unit {0})
  quarantine_uncertain_action job = do
    record_connector_log env (quarantine_entry job)
    complete env job.id FinalOutcome.escalated
    discard_uncertain job.id

  abbrev pub load_by : ConnectorJob → Option Fields → M ConnectorJob
  load_by job (some config) = pure job
  load_by job none = do
    config ← get_config env job.connector_name
    elim config [
      | some fs ↦ pure (record job { active_config = some fs })
      | none ↦ raise (no_runtime_config job)
    ]

  unfoldable pub load_runtime_config : ConnectorJob → M ConnectorJob
  load_runtime_config job = load_by job job.active_config

  -- `_level_allows` with its two metadata arguments.
  unfoldable pub level_allows :
      ConnectorJob → HealthResult → HealingStep → Option EventType → M Bool
  level_allows job result required none = raise (record {
    kind = ExnKind.value_error;
    message = text "Recovery decision is missing level or event metadata";
  })
  level_allows job result required (some attempted) =
      if leb (step_value required) (level job)
      then pure true
      else do level_limit_reached env job result required attempted; pure false

  abbrev pub unless_done : ConnectorJob → HealthResult → Bool → M (Unit {0})
  unless_done job result true = skip
  unless_done job result false = escalate env job result

  -- The action itself, past the safety gate.
  unfoldable pub run_action : RecoveryAction → ConnectorJob → HealthResult → M (Unit {0})
  run_action RecoveryAction.restart_tasks job result = restart_failed_tasks env settings job result
  run_action RecoveryAction.restart_connector job result = restart_connector env settings job result
  run_action RecoveryAction.recreate_with_offset job result = do
    loaded ← load_runtime_config job
    recreate_with_offset env settings loaded result
    skip
  run_action RecoveryAction.retry_recreate_with_offset job result = do
    loaded ← load_runtime_config job
    finished ← retry_timed_out_recreate_with_offset env settings loaded result
    unless_done loaded result finished
  run_action RecoveryAction.recreate_without_offset job result = do
    loaded ← load_runtime_config job
    finished ← recreate_without_offset env settings loaded result
    unless_done loaded result finished
  run_action _ job result = escalate env job result

  unfoldable pub dispatch_decision : ConnectorJob → HealthResult → RecoveryDecision → M (Unit {0})
  dispatch_decision job result decision = elim decision.required_level [
    | none ↦ run_action decision.action job result
    | some required ↦ do
      allowed ← level_allows job result required decision.attempted_event
      if allowed then run_action decision.action job result else skip
  ]

  unfoldable pub execute_decision : ConnectorJob → HealthResult → RecoveryDecision → M (Unit {0})
  execute_decision job result decision =
      catch (dispatch_decision job result decision)
        (λ x. do mark_uncertain job.id; quarantine_uncertain_action job)

  unfoldable pub run_recreate_with_offset_retry_or_escalate :
      ConnectorJob → HealthResult → M (Unit {0})
  run_recreate_with_offset_retry_or_escalate job result = execute_decision job result (
      if ltb job.recreate_with_offset_timeout_count
        settings.policy.recreate_with_offset_timeout_max_attempts
      then retry_decision
      else plain RecoveryAction.escalate)
