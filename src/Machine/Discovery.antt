-- ===== src/Machine/Discovery.antt =====
-- `tick`, `process_connector`, `_discover_failed_connectors` and `_enqueue_failed_connector`.
use self_healing_kafka_syste.Base.{
  Bool, true, false, ◌&&◌, not, Option, none, some, List, [], ◌∷◌, ltb, if◌then◌else◌, is_some,
  or_else,
}
use self_healing_kafka_syste.Base.Text.{Text, starts_with}
use self_healing_kafka_syste.Domain.{
  HealingMode, HealthStatus, ConnectorJob, HealthResult, Settings,
}
use self_healing_kafka_syste.Domain.Json.{Value, Fields, end, null, get}
use self_healing_kafka_syste.Effect.Exn.{Result, ok, raised, text}
use self_healing_kafka_syste.Effect.World.{Env}
use self_healing_kafka_syste.Effect.Monad.{M, attempt, pure, skip, ◌>>=◌, ◌>>◌}
use self_healing_kafka_syste.Client.Circuit.{status_circuit_open}
use self_healing_kafka_syste.Client.Rest
use self_healing_kafka_syste.Health.{check}
use self_healing_kafka_syste.Naming.Scn.{text_of}
use self_healing_kafka_syste.Store.Job
use self_healing_kafka_syste.Machine.Process.{ConnectorProcessingOutcome, process_job_safely}

-- Not healthy, and not stopped by hand.
unfoldable pub is_failure : HealthStatus → Bool
is_failure HealthStatus.healthy = false
is_failure HealthStatus.stopped = false
is_failure _ = true

module _ (env : Env) (settings : Settings) where
  abbrev pub circuit_open : M Bool
  circuit_open = status_circuit_open env settings.circuit_cooldown

  -- The class of the connector and the mode that it is healed in.
  unfoldable pub mode_of : Option Fields → Option Value × HealingMode
  mode_of config =
      let connector_class = get "connector.class" (or_else config end) in
      (
        connector_class,
        if starts_with (text "io.debezium.connector.oracle.")
              (text_of env.repr (or_else connector_class null))
            then HealingMode.recovery
            else HealingMode.restart_only,
      )

  abbrev pub mode_found : Result (Option Fields) → M (Option Value × HealingMode)
  mode_found (ok config) = pure (mode_of config)
  mode_found (raised x) = pure (none, HealingMode.restart_only)

  -- The `try` around the configuration.
  unfoldable pub discover_mode : Text → M (Option Value × HealingMode)
  discover_mode name = do config ← attempt (Rest.get_config env name); mode_found config

  abbrev pub enqueue_checked : Text → Option HealthResult → M (Option ConnectorJob)
  enqueue_checked name none = pure none
  enqueue_checked name (some result) =
      if is_failure result.status
      then (do
        mode ← discover_mode name
        job ← Job.enqueue_connector env name name mode.0 mode.1
        pure (some job))
      else pure none

  unfoldable pub enqueue_failed_connector : Text → M (Option ConnectorJob)
  enqueue_failed_connector name = do
    checked ← check env settings.circuit_cooldown name
    enqueue_checked name checked

  unfoldable pub discover_each : List Text → M (Unit {0})
  discover_each [] = skip
  discover_each (name ∷ names) = do
    stop ← circuit_open
    if stop then skip else do
      queued ← Job.get_connector env name
      (if is_some queued then skip else do enqueue_failed_connector name; skip)
      discover_each names

  abbrev pub discover_found : Result (List Text) → M (Unit {0})
  discover_found (ok names) = discover_each names
  discover_found (raised x) = skip

  unfoldable pub discover_failed_connectors : M (Unit {0})
  discover_failed_connectors = do names ← attempt (Rest.list_connectors env); discover_found names

  -- The follow-up of a row that is still in recovery.
  abbrev followup_of : Option ConnectorJob → List Text
  followup_of none = []
  followup_of (some job) =
      if is_some job.active_incident_id && ltb 0 job.failed_count
      then job.connector_name ∷ []
      else []

  abbrev prepend : List Text → List Text → List Text
  prepend [] names = names
  prepend (n ∷ ns) names = n ∷ names

  -- The loop of `tick`.
  unfoldable pub tick_each : List ConnectorJob → M (List Text)
  tick_each [] = pure []
  tick_each (job ∷ jobs) = do
    stop ← circuit_open
    if stop then pure [] else do
      outcome ← process_job_safely env settings job false
      if outcome.requires_followup
          then (do
            refreshed ← Job.get_connector_by_id env job.id
            opened ← circuit_open
            if opened
                then pure (followup_of refreshed)
                else do names ← tick_each jobs; pure (prepend (followup_of refreshed) names))
          else tick_each jobs

  unfoldable pub tick : M (List Text)
  tick = do discover_failed_connectors; jobs ← Job.list_connectors env; tick_each jobs

  abbrev pub followup_row : Option ConnectorJob → Option Text
  followup_row none = none
  followup_row (some again) = if ltb 0 again.failed_count then some again.connector_name else none

  -- The last part of `process_connector`.
  unfoldable pub followup_name : Text → ConnectorJob → ConnectorProcessingOutcome → M (Option Text)
  followup_name name job outcome =
      if not outcome.processed
      then pure (some name)
      else if not outcome.requires_followup
      then pure none
      else do refreshed ← Job.get_connector_by_id env job.id; pure (followup_row refreshed)

  unfoldable pub process_found : Text → Bool → Option ConnectorJob → M (Option Text)
  process_found name failure_confirmed none = pure none
  process_found name failure_confirmed (some job) = do
    outcome ← process_job_safely env settings job failure_confirmed
    followup_name name job outcome

  abbrev pub process_queued : Text → Bool → Option ConnectorJob → M (Option Text)
  process_queued name failure_confirmed (some job) = process_found name failure_confirmed (some job)
  process_queued name failure_confirmed none = do
    job ← enqueue_failed_connector name
    process_found name failure_confirmed job

  unfoldable pub process_connector : Text → Bool → M (Option Text)
  process_connector name failure_confirmed = do
    queued ← Job.get_connector env name
    process_queued name failure_confirmed queued
