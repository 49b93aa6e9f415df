-- ===== src/Machine/MachineDoes.antt =====
-- The rules of Effect/Does for the handlers of db_state_machine.py.
use self_healing_kafka_syste.Base.{
  Bool, true, false, Option, none, some, List, [], ◌∷◌, refl, is_empty,
}
use self_healing_kafka_syste.Base.Text.{Text}
use self_healing_kafka_syste.Domain.{
  Time, QueueId, EventType, HealingStep, RecoveryAction, RecoveryDecision, ConnectorJob,
  HealthResult, Settings,
}
use self_healing_kafka_syste.Domain.Json.{Fields}
use self_healing_kafka_syste.Effect.World.{Env, Request}
use self_healing_kafka_syste.Effect.Does.{
  Does, Does-pure, Does-raise, Does-gets, Does-if, Does-bind, Does-catch, Does-modify, Does-utc_now,
}
use self_healing_kafka_syste.Client.RestDoes.{Does-get_config, Does-delete_connector}
use self_healing_kafka_syste.Store.StoreDoes.{Does-record_connector_log, Does-complete}
use self_healing_kafka_syste.Healing.HealingDoes.{
  Does-escalate, Does-level_limit_reached, Does-restart_failed_tasks, Does-restart_connector_action,
  Does-recreate_with_offset, Does-retry, Does-recreate_without_offset,
}
use self_healing_kafka_syste.Machine.Memory.{
  forget_healthy, set_healthy_since, healthy_since, is_uncertain, mark_uncertain, discard_uncertain,
}
use self_healing_kafka_syste.Machine.Healthy.{
  delete_all, delete_superseded_connector_if_needed, record_recovered, handle_post_action_healthy,
  handle_healthy, stable_since, after_stable,
}
use self_healing_kafka_syste.Machine.Dispatch.{
  quarantine_uncertain_action, load_runtime_config, level_allows, run_action, dispatch_decision,
  execute_decision, load_by, unless_done,
}
use self_healing_kafka_syste.Machine.Unhealthy.{
  confirm_if_due, act, observe_and_act, handle_unhealthy,
}

module _ {P : Request → Type 0} where
  pub Does-forget_healthy : (id : QueueId) → Does P (forget_healthy id)
  unfolding forget_healthy
  Does-forget_healthy id =
      Does-modify _ λ w. record { locks = refl; trace = ([], refl, tt); logs = ([], refl) }

  Does-set_healthy_since : (id : QueueId) (t : Time) → Does P (set_healthy_since id t)
  unfolding set_healthy_since
  Does-set_healthy_since id t =
      Does-modify _ λ w. record { locks = refl; trace = ([], refl, tt); logs = ([], refl) }

  pub Does-mark_uncertain : (id : QueueId) → Does P (mark_uncertain id)
  unfolding mark_uncertain
  Does-mark_uncertain id =
      Does-modify _ λ w. record { locks = refl; trace = ([], refl, tt); logs = ([], refl) }

  Does-discard_uncertain : (id : QueueId) → Does P (discard_uncertain id)
  unfolding discard_uncertain
  Does-discard_uncertain id =
      Does-modify _ λ w. record { locks = refl; trace = ([], refl, tt); logs = ([], refl) }

  pub Does-is_uncertain : (id : QueueId) → Does P (is_uncertain id)
  unfolding is_uncertain
  Does-is_uncertain id = Does-gets _

  Does-healthy_since : (id : QueueId) → Does P (healthy_since id)
  unfolding healthy_since
  Does-healthy_since id = Does-gets _

module _ {P : Request → Type 0} (env : Env) (settings : Settings) where
  pub Does-quarantine : (job : ConnectorJob) → Does P (quarantine_uncertain_action env settings job)
  unfolding quarantine_uncertain_action
  Does-quarantine job =
      Does-bind (Does-record_connector_log env _)
        λ _. Does-bind (Does-complete env _ _) λ _. Does-discard_uncertain _

  Does-level_allows :
      (job : ConnectorJob) (result : HealthResult) (s : HealingStep) (e : Option EventType)
      → Does P (level_allows env settings job result s e)
  unfolding level_allows
  Does-level_allows job result s none = Does-raise _
  Does-level_allows job result s (some e) =
      Does-if _ (Does-pure true)
        (Does-bind (Does-level_limit_reached env job result s e) λ _. Does-pure false)

  -- The gate in front of an action, when the action itself does what it may.
  pub Does-dispatch_decision :
      (job : ConnectorJob) (result : HealthResult) (a : RecoveryAction) (s : Option HealingStep)
      (e : Option EventType)
      → Does P (run_action env settings a job result)
      → Does P (
          dispatch_decision env settings job result
            (record { action = a; required_level = s; attempted_event = e }))
  unfolding dispatch_decision
  Does-dispatch_decision job result a none e h = h
  Does-dispatch_decision job result a (some s) e h =
      Does-bind (Does-level_allows job result s e) λ b. Does-if b h (Does-pure tt)

  -- The handler of `_execute_decision` asks for nothing.
  pub Does-execute_decision :
      (job : ConnectorJob) (result : HealthResult) (a : RecoveryAction) (s : Option HealingStep)
      (e : Option EventType)
      → Does P (run_action env settings a job result)
      → Does P (
          execute_decision env settings job result
            (record { action = a; required_level = s; attempted_event = e }))
  unfolding execute_decision
  Does-execute_decision job result a s e h =
      Does-catch (Does-dispatch_decision job result a s e h)
        λ x. Does-bind (Does-mark_uncertain job.id) λ _. Does-quarantine job

  -- `_execute_decision` with a dispatch that is known to do what it may.
  pub Does-execute :
      (job : ConnectorJob) (result : HealthResult) (d : RecoveryDecision)
      → Does P (dispatch_decision env settings job result d)
      → Does P (execute_decision env settings job result d)
  unfolding execute_decision
  Does-execute job result d h =
      Does-catch h λ x. Does-bind (Does-mark_uncertain job.id) λ _. Does-quarantine job

  pub Does-confirm_if_due :
      (job : ConnectorJob) (result : HealthResult) (b : Bool)
      → Does P (confirm_if_due env settings job result b)
  unfolding confirm_if_due
  Does-confirm_if_due job result b =
      Does-if _ (Does-bind (Does-record_connector_log env _) λ _. Does-pure _) (Does-pure job)

-- The handlers that may make any request.
module _ {P : Request → Type 0} (all : (r : Request) → P r) (env : Env) (settings : Settings) where
  Does-load_runtime_config : (job : ConnectorJob) → Does P (load_runtime_config env settings job)
  unfolding load_runtime_config
  Does-load_runtime_config job = by_config job.active_config
    where
      by_config : (c : Option Fields) → Does P (load_by env settings job c)
      by_config (some fs) = Does-pure _
      by_config none =
          Does-bind (Does-get_config env _ (all _))
            (elim [ some fs ↦ Does-pure _ | none ↦ Does-raise _ ])

  Does-unless_done :
      (job : ConnectorJob) (result : HealthResult) (b : Bool)
      → Does P (unless_done env settings job result b)
  Does-unless_done job result true = Does-pure tt
  Does-unless_done job result false = Does-escalate env job result

  Does-run_action :
      (a : RecoveryAction) (job : ConnectorJob) (result : HealthResult)
      → Does P (run_action env settings a job result)
  unfolding run_action
  Does-run_action RecoveryAction.restart_tasks job result =
      Does-restart_failed_tasks env settings job result (all _)
  Does-run_action RecoveryAction.restart_connector job result =
      Does-restart_connector_action env settings job result (all _)
  Does-run_action RecoveryAction.recreate_with_offset job result =
      Does-bind (Does-load_runtime_config job) λ loaded.
        Does-bind (Does-recreate_with_offset all env settings loaded result) λ _. Does-pure tt
  Does-run_action RecoveryAction.retry_recreate_with_offset job result =
      Does-bind (Does-load_runtime_config job) λ loaded.
        Does-bind (Does-retry all env settings loaded result) λ b. Does-unless_done loaded result b
  Does-run_action RecoveryAction.recreate_without_offset job result =
      Does-bind (Does-load_runtime_config job) λ loaded.
        Does-bind (Does-recreate_without_offset all env settings loaded result)
          λ b. Does-unless_done loaded result b
  Does-run_action RecoveryAction.debounce job result = Does-escalate env job result
  Does-run_action RecoveryAction.stop job result = Does-escalate env job result
  Does-run_action RecoveryAction.escalate job result = Does-escalate env job result
  Does-run_action RecoveryAction.wait job result = Does-escalate env job result
  Does-run_action RecoveryAction.mark_unreachable job result = Does-escalate env job result
  Does-run_action RecoveryAction.mark_not_created job result = Does-escalate env job result
  Does-run_action RecoveryAction.handle_healthy job result = Does-escalate env job result

  pub Does-execute_any :
      (job : ConnectorJob) (result : HealthResult) (d : RecoveryDecision)
      → Does P (execute_decision env settings job result d)
  Does-execute_any job result d =
      Does-execute_decision env settings job result d.action d.required_level d.attempted_event
        (Does-run_action d.action job result)

  Does-act : (job : ConnectorJob) (result : HealthResult) → Does P (act env settings job result)
  unfolding act
  Does-act job result = Does-if _ (Does-pure tt) (Does-execute_any job result _)

  pub Does-handle_unhealthy :
      (job : ConnectorJob) (result : HealthResult) (b : Bool)
      → Does P (handle_unhealthy env settings job result b)
  unfolding handle_unhealthy observe_and_act
  Does-handle_unhealthy job result b = Does-bind (Does-forget_healthy _) λ _.
      Does-if _ (Does-complete env _ _) (
        Does-bind (Does-record_connector_log env _) λ _.
          Does-bind (Does-confirm_if_due env settings _ result b)
            λ confirmed. Does-act confirmed result)

  Does-delete_all : (names : List Text) → Does P (delete_all env settings names)
  unfolding delete_all
  Does-delete_all [] = Does-pure tt
  Does-delete_all (n ∷ ns) =
      Does-bind (Does-catch (Does-delete_connector env n (all _)) λ x. Does-pure tt)
        λ _. Does-delete_all ns

  Does-record_recovered :
      (job : ConnectorJob) (result : HealthResult)
      → Does P (record_recovered env settings job result)
  unfolding record_recovered delete_superseded_connector_if_needed
  Does-record_recovered job result =
      Does-if _ (Does-bind (Does-complete env _ _) λ _. Does-forget_healthy _) (
        Does-bind (Does-if (is_empty job.connector_name) (Does-pure tt) (Does-delete_all _)) λ _.
          Does-bind (Does-record_connector_log env _)
            λ _. Does-bind (Does-complete env _ _) λ _. Does-forget_healthy _)

  pub Does-handle_healthy :
      (job : ConnectorJob) (result : HealthResult) → Does P (handle_healthy env settings job result)
  unfolding handle_healthy handle_post_action_healthy
  Does-handle_healthy job result =
      Does-if _
        (Does-bind (Does-healthy_since _)
          λ started. by_since (stable_since env settings job.latest_event_at started))
        (Does-record_recovered job result)
    where
      by_since : (since : Option Time) → Does P (after_stable env settings job result since)
      by_since none = Does-set_healthy_since _ _
      by_since (some since) =
          Does-bind (Does-utc_now env)
            λ now. Does-if _ (Does-pure tt) (Does-record_recovered job result)
