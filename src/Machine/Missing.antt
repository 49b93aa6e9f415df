-- ===== src/Machine/Missing.antt =====
-- The retry of a recreation whose replacement does not exist, in db_state_machine.py.
use self_healing_kafka_syste.Base.{suc, [], ◌∷◌, true, Option, none, some, leb, ◌==◌, ◌≡◌, refl}
use self_healing_kafka_syste.Domain.{ConnectorJob, HealthResult, Settings}
use self_healing_kafka_syste.Domain.Json.{Fields}
use self_healing_kafka_syste.Effect.Exn.{ok, raised}
use self_healing_kafka_syste.Effect.World.{Env, World, Request, Response, response}
use self_healing_kafka_syste.Effect.Monad.{pure, raise, ◌>>=◌, ◌>>◌, catch, send}
use self_healing_kafka_syste.Effect.Does.{Does, Extends, Extends-trans, Does-bind}
use self_healing_kafka_syste.Client.Rest.{get_config}
use self_healing_kafka_syste.Policy.{retry_decision}
use self_healing_kafka_syste.Healing.Helpers.{level}
use self_healing_kafka_syste.Machine.Memory.{mark_uncertain}
use self_healing_kafka_syste.Machine.Dispatch.{
  no_runtime_config, load_by, load_runtime_config, level_allows, run_action, dispatch_decision,
  execute_decision, quarantine_uncertain_action,
}
use self_healing_kafka_syste.Machine.MachineDoes.{Does-quarantine, Does-mark_uncertain}

module _ (env : Env) (settings : Settings) (job : ConnectorJob) (result : HealthResult) (w : World)
    (resp : Response) (unloaded : job.active_config ≡ none)
    (reply : env.http w.steps (Request.config job.connector_name) ≡ response resp)
    (missing : (resp.status == 404) ≡ true) (allowed : leb 3 (level job) ≡ true) where
  abbrev asked : World
  asked = record w {
    steps = suc w.steps;
    trace = record { request = Request.config job.connector_name; reply = response resp } ∷ w.trace;
  }

  sent : send env (Request.config job.connector_name) w ≡ (ok resp, asked)
  unfolding send
  sent = rw (reply, send) (rw (reply))

  no_config : get_config env job.connector_name w ≡ (ok none, asked)
  unfolding get_config ◌>>=◌ pure
  no_config = rw (sent) (rw (missing))

  by_config :
      (c : Option Fields)
      → c ≡ none
      → load_by env settings job c w ≡ (raised (no_runtime_config job), asked)
  unfolding ◌>>=◌ raise
  by_config none h = rw (no_config)
  by_config (some fs) h = cc

  no_load : load_runtime_config env settings job w ≡ (raised (no_runtime_config job), asked)
  unfolding load_runtime_config
  no_load = by_config job.active_config unloaded

  no_dispatch :
      dispatch_decision env settings job result retry_decision w
      ≡ (raised (no_runtime_config job), asked)
  unfolding dispatch_decision level_allows run_action ◌>>=◌ pure
  no_dispatch = rw (allowed) (rw (no_load))

  quarantined :
      {P : Request → Type 0}
      → Does P (do mark_uncertain job.id; quarantine_uncertain_action env settings job)
  quarantined = Does-bind (Does-mark_uncertain job.id) λ _. Does-quarantine env settings job

  asks : Extends (λ r. r ≡ Request.config job.connector_name) w asked
  asks = record { locks = refl; trace = (_ ∷ [], refl, (refl, tt)); logs = ([], refl) }

  -- When the retry of a timed out recreation is allowed, and Kafka Connect does not know the connector, the
  -- retry asks for the connector's configuration and for nothing else: it does not create the
  -- connector, but ends in the quarantine.
  pub execute_decision-retry :
      Extends
        (λ r. r ≡ Request.config job.connector_name)
        w
        (execute_decision env settings job result retry_decision w).1
  unfolding execute_decision catch
  execute_decision-retry = rw (no_dispatch) (Extends-trans asks (quarantined.at asked))
