-- ===== src/Machine/DiscoveryDoes.antt =====
-- The rules of Effect/Does for `tick` and `process_connector` of db_state_machine.py.
use self_healing_kafka_syste.Base.{Bool, false, Option, none, some, List, [], ◌∷◌, is_some, not}
use self_healing_kafka_syste.Base.Text.{Text}
use self_healing_kafka_syste.Domain.{ConnectorJob, HealthResult, Settings}
use self_healing_kafka_syste.Domain.Json.{Fields}
use self_healing_kafka_syste.Effect.Exn.{Result, ok, raised}
use self_healing_kafka_syste.Effect.World.{Env, Request}
use self_healing_kafka_syste.Effect.Does.{Does, Does-pure, Does-if, Does-bind, Does-attempt}
use self_healing_kafka_syste.Client.RestDoes.{
  Does-get_config, Does-status_circuit_open, Does-list_connectors,
}
use self_healing_kafka_syste.Store.StoreDoes.{
  Does-get_connector_by_id, Does-get_connector, Does-enqueue_connector,
}
use self_healing_kafka_syste.Store.StoreDoes
use self_healing_kafka_syste.Machine.Process.{ConnectorProcessingOutcome}
use self_healing_kafka_syste.Machine.ProcessDoes.{Does-check, Does-process_job_safely}
use self_healing_kafka_syste.Machine.Discovery.{
  discover_mode, mode_found, enqueue_checked, enqueue_failed_connector, discover_each,
  discover_found, discover_failed_connectors, tick_each, tick, followup_name, process_found,
  followup_row, process_queued, process_connector,
}

module _ {P : Request → Type 0} (all : (r : Request) → P r) (env : Env) (settings : Settings) where
  Does-mode_found : (r : Result (Option Fields)) → Does P (mode_found env settings r)
  Does-mode_found (ok config) = Does-pure _
  Does-mode_found (raised x) = Does-pure _

  Does-enqueue_checked :
      (name : Text) (r : Option HealthResult) → Does P (enqueue_checked env settings name r)
  unfolding discover_mode
  Does-enqueue_checked name none = Does-pure none
  Does-enqueue_checked name (some r) =
      Does-if _
        (Does-bind (Does-bind (Does-attempt (Does-get_config env name (all _))) Does-mode_found)
          λ mode. Does-bind (Does-enqueue_connector env _ _ _ _) λ job. Does-pure _)
        (Does-pure none)

  Does-enqueue_failed_connector :
      (name : Text) → Does P (enqueue_failed_connector env settings name)
  unfolding enqueue_failed_connector
  Does-enqueue_failed_connector name =
      Does-bind (Does-check all env settings name) (Does-enqueue_checked name)

  Does-discover_each : (names : List Text) → Does P (discover_each env settings names)
  unfolding discover_each
  Does-discover_each [] = Does-pure tt
  Does-discover_each (name ∷ names) =
      Does-bind (Does-status_circuit_open env settings.circuit_cooldown) λ stop.
        Does-if stop (Does-pure tt) (
          Does-bind (Does-get_connector env name) λ queued.
            Does-bind
              (Does-if (is_some queued) (Does-pure tt)
                (Does-bind (Does-enqueue_failed_connector name) λ _. Does-pure tt))
              λ _. Does-discover_each names)

  Does-discover_found : (r : Result (List Text)) → Does P (discover_found env settings r)
  Does-discover_found (ok names) = Does-discover_each names
  Does-discover_found (raised x) = Does-pure tt

  Does-tick_each : (jobs : List ConnectorJob) → Does P (tick_each env settings jobs)
  unfolding tick_each
  Does-tick_each [] = Does-pure []
  Does-tick_each (job ∷ jobs) =
      Does-bind (Does-status_circuit_open env settings.circuit_cooldown) λ stop.
        Does-if stop (Does-pure []) (
          Does-bind (Does-process_job_safely all env settings job false) λ outcome.
            Does-if outcome.requires_followup
              (Does-bind (Does-get_connector_by_id env job.id) λ refreshed.
                Does-bind (Does-status_circuit_open env settings.circuit_cooldown) λ opened.
                  Does-if opened (Does-pure _)
                    (Does-bind (Does-tick_each jobs) λ names. Does-pure _))
              (Does-tick_each jobs))

  Does-followup_name :
      (name : Text) (job : ConnectorJob) (outcome : ConnectorProcessingOutcome)
      → Does P (followup_name env settings name job outcome)
  unfolding followup_name
  Does-followup_name name job outcome = Does-if (not outcome.processed) (Does-pure (some name)) (
      Does-if (not outcome.requires_followup) (Does-pure none) (
        Does-bind (Does-get_connector_by_id env job.id)
          λ refreshed. Does-pure (followup_row env settings refreshed)))

  Does-process_found :
      (name : Text) (b : Bool) (job : Option ConnectorJob)
      → Does P (process_found env settings name b job)
  unfolding process_found
  Does-process_found name b none = Does-pure none
  Does-process_found name b (some job) =
      Does-bind (Does-process_job_safely all env settings job b) (Does-followup_name name job)

  Does-process_queued :
      (name : Text) (b : Bool) (job : Option ConnectorJob)
      → Does P (process_queued env settings name b job)
  Does-process_queued name b (some job) = Does-process_found name b (some job)
  Does-process_queued name b none =
      Does-bind (Does-enqueue_failed_connector name) (Does-process_found name b)

  pub Does-tick : Does P (tick env settings)
  unfolding tick discover_failed_connectors
  Does-tick =
      Does-bind (Does-bind (Does-attempt (Does-list_connectors env (all _))) Does-discover_found)
        λ _. Does-bind (StoreDoes.Does-list_connectors env) Does-tick_each

  pub Does-process_connector :
      (name : Text) (b : Bool) → Does P (process_connector env settings name b)
  unfolding process_connector
  Does-process_connector name b =
      Does-bind (Does-get_connector env name) (Does-process_queued name b)
