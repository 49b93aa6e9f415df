-- ===== src/Machine/Gate.antt =====
-- The safety gate `_level_allows` of db_state_machine.py, and the decisions behind it.
use self_healing_kafka_syste.Base.{
  Bool, true, false, Option, none, some, leb, ◌≡◌, refl, arith, if◌then◌else◌, not, ◌&&◌, ◌||◌,
  ◌==◌, min,
}
use self_healing_kafka_syste.Base.Text.{Text}
use self_healing_kafka_syste.Domain.{
  EventType, HealingStep, RecoveryAction, ConnectorJob, HealthResult, Settings, step_value,
  HealingMode,
}
use self_healing_kafka_syste.Effect.World.{Env, Request, QueueRow}
use self_healing_kafka_syste.Store.Job.{job_of_new_row}
use self_healing_kafka_syste.Healing.Escalation.{escalate}
use self_healing_kafka_syste.Effect.Monad.{M, pure, ◌>>=◌, ◌>>◌}
use self_healing_kafka_syste.Store.Logs.{record_connector_log}
use self_healing_kafka_syste.Effect.Does.{
  Does, Does-pure, Does-if, Does-bind, Does-bind-pure, Does-pure-bind, Does-raise-bind,
}
use self_healing_kafka_syste.Store.StoreDoes.{Does-record_connector_log, Does-complete}
use self_healing_kafka_syste.Policy.{decide_unhealthy}
use self_healing_kafka_syste.Policy.Budget.{Warrant, decide_unhealthy-Warranted}
use self_healing_kafka_syste.Healing.Helpers.{level}
use self_healing_kafka_syste.Healing.HealingDoes.{
  Does-escalate, Does-level_limit_reached, Does-restart_failed_tasks, Does-restart_connector_action,
}
use self_healing_kafka_syste.Machine.Dispatch.{
  level_allows, run_action, dispatch_decision, execute_decision,
}
use self_healing_kafka_syste.Machine.Unhealthy.{
  has_failed_tasks, observed_job, confirm_if_due, confirmed_entry, is_debounce, act,
  observe_and_act, handle_unhealthy,
}
use self_healing_kafka_syste.Machine.MachineDoes.{
  Does-forget_healthy, Does-dispatch_decision, Does-execute,
}

module _ {P : Request → Type 0} (env : Env) (settings : Settings) where
  -- A decision above the job's level does nothing that its action does.
  Does-refused :
      (job : ConnectorJob) (result : HealthResult) (a : RecoveryAction) (s : HealingStep)
      (e : Option EventType)
      → leb (step_value s) (level job) ≡ false
      → Does P (
          dispatch_decision env settings job result
            (record { action = a; required_level = some s; attempted_event = e }))
  unfolding dispatch_decision level_allows
  Does-refused job result a s none above = Does-raise-bind _ _
  Does-refused job result a s (some e) above =
      rw (above)
        (Does-bind-pure false _ (Does-level_limit_reached env job result s e) (Does-pure tt))

  confirm_then :
      {A : Type 0} (job : ConnectorJob) (result : HealthResult) (b : Bool) (f : ConnectorJob → M A)
      → Does P (f (record job { failure_confirmed = true }))
      → Does P (f job)
      → Does P (confirm_if_due env settings job result b >>= f)
  unfolding confirm_if_due
  confirm_then job result b f h k = by_due (
      not job.failure_confirmed
      && (b || leb settings.policy.failure_confirm_checks job.failed_count))
    where
      by_due :
          (due : Bool)
          → Does P (
              (if due
                then (do
                  record_connector_log env (confirmed_entry job result job.failed_count)
                  pure (record job { failure_confirmed = true }))
                else pure job)
              >>= f)
      by_due true = Does-bind-pure _ f (Does-record_connector_log env _) h
      by_due false = Does-pure-bind job f k

-- The requests that restart a connector or its tasks.
abbrev pub IsRestartOf : Text → Request → Type 0
IsRestartOf name r = (only_failed : Bool) × (r ≡ Request.restart name only_failed)

module _ (env : Env) (settings : Settings) where
  -- A decision that needs a higher level than the job has asks Kafka Connect for nothing, whatever its
  -- action is.
  pub execute_decision-Refused :
      (job : ConnectorJob) (result : HealthResult) (a : RecoveryAction) (s : HealingStep)
      (e : Option EventType)
      → leb (step_value s) (level job) ≡ false
      → Does
          (λ r. ⊥)
          (execute_decision env settings job result
            (record { action = a; required_level = some s; attempted_event = e }))
  execute_decision-Refused job result a s e above =
      Does-execute env settings job result _ (Does-refused env settings job result a s e above)

  refused_by :
      {P : Request → Type 0} (job : ConnectorJob) (result : HealthResult) (a : RecoveryAction)
      (s : Option HealingStep) (required : HealingStep) (e : Option EventType)
      → s ≡ some required
      → leb (step_value required) (level job) ≡ false
      → Does P (
          dispatch_decision env settings job result
            (record { action = a; required_level = s; attempted_event = e }))
  refused_by job result a s required e h above =
      rw (h) (Does-refused env settings job result a required e above)

  -- An action without a request.
  escalates :
      {P : Request → Type 0} (job : ConnectorJob) (result : HealthResult) (a : RecoveryAction)
      (s : Option HealingStep) (e : Option EventType)
      → run_action env settings a job result ≡ escalate env job result
      → Does P (
          dispatch_decision env settings job result
            (record { action = a; required_level = s; attempted_event = e }))
  escalates job result a s e h =
      Does-dispatch_decision env settings job result a s e (rw (h) (Does-escalate env job result))

  restart_only_level :
      (job : ConnectorJob)
      → job.healing_mode ≡ some HealingMode.restart_only
      → leb 3 (level job) ≡ false
  unfolding level
  restart_only_level job h = rw (h) (ground arith)

  module _ (job : ConnectorJob) (result : HealthResult) (failed : Bool) where
    -- The decisions of a job that may restart.
    restarts :
        (a : RecoveryAction) (s : Option HealingStep) (e : Option EventType)
        → leb 3 (level job) ≡ false
        → Warrant settings.policy job failed s a
        → Does (IsRestartOf job.connector_name) (
            dispatch_decision env settings job result
              (record { action = a; required_level = s; attempted_event = e }))
    unfolding run_action
    restarts RecoveryAction.restart_tasks s e low h =
        Does-dispatch_decision env settings job result _ s e
          (Does-restart_failed_tasks env settings job result (true, refl))
    restarts RecoveryAction.restart_connector s e low h =
        Does-dispatch_decision env settings job result _ s e
          (Does-restart_connector_action env settings job result (false, refl))
    restarts RecoveryAction.recreate_with_offset s e low h = refused_by job result _ s _ e h.0 low
    restarts RecoveryAction.retry_recreate_with_offset s e low h =
        refused_by job result _ s _ e h.0 low
    restarts RecoveryAction.recreate_without_offset s e low h =
        refused_by job result _ s _ e h.0 (ground (arith, low))
    restarts RecoveryAction.escalate s e low h = escalates job result _ s e refl
    restarts RecoveryAction.stop s e low h = escalates job result _ s e refl
    restarts RecoveryAction.debounce s e low h = escalates job result _ s e refl
    restarts RecoveryAction.wait s e low h = elim h [ ]
    restarts RecoveryAction.mark_unreachable s e low h = elim h [ ]
    restarts RecoveryAction.mark_not_created s e low h = elim h [ ]
    restarts RecoveryAction.handle_healthy s e low h = elim h [ ]

    -- The decisions of a job that may not even restart.
    nothing :
        (a : RecoveryAction) (s : Option HealingStep) (e : Option EventType)
        → leb 2 (level job) ≡ false
        → Warrant settings.policy job failed s a
        → Does
            (λ r. ⊥)
            (dispatch_decision env settings job result
              (record { action = a; required_level = s; attempted_event = e }))
    unfolding run_action
    nothing RecoveryAction.restart_tasks s e low h = refused_by job result _ s _ e h.0 low
    nothing RecoveryAction.restart_connector s e low h = refused_by job result _ s _ e h.0 low
    nothing RecoveryAction.recreate_with_offset s e low h =
        refused_by job result _ s _ e h.0 (ground (arith, low))
    nothing RecoveryAction.retry_recreate_with_offset s e low h =
        refused_by job result _ s _ e h.0 (ground (arith, low))
    nothing RecoveryAction.recreate_without_offset s e low h =
        refused_by job result _ s _ e h.0 (ground (arith, low))
    nothing RecoveryAction.escalate s e low h = escalates job result _ s e refl
    nothing RecoveryAction.stop s e low h = escalates job result _ s e refl
    nothing RecoveryAction.debounce s e low h = escalates job result _ s e refl
    nothing RecoveryAction.wait s e low h = elim h [ ]
    nothing RecoveryAction.mark_unreachable s e low h = elim h [ ]
    nothing RecoveryAction.mark_not_created s e low h = elim h [ ]
    nothing RecoveryAction.handle_healthy s e low h = elim h [ ]

  act_by :
      {P : Request → Type 0} (job : ConnectorJob) (result : HealthResult)
      → ((a : RecoveryAction) (s : Option HealingStep) (e : Option EventType)
          → Warrant settings.policy job (has_failed_tasks job result) s a
          → Does P (
              dispatch_decision env settings job result
                (record { action = a; required_level = s; attempted_event = e })))
      → Does P (act env settings job result)
  unfolding act
  act_by job result h =
      let failed = has_failed_tasks job result in
      let d = decide_unhealthy settings.policy job failed in
      Does-if (is_debounce d.action) (Does-pure tt) (
        Does-execute env settings job result d (
          h d.action d.required_level d.attempted_event
            (decide_unhealthy-Warranted settings.policy job failed).warrant))

  handle_by :
      {P : Request → Type 0} (job : ConnectorJob) (result : HealthResult) (b : Bool)
      → Does P (
          act env settings
            (record (observed_job settings job result) { failure_confirmed = true })
            result)
      → Does P (act env settings (observed_job settings job result) result)
      → Does P (handle_unhealthy env settings job result b)
  unfolding handle_unhealthy observe_and_act
  handle_by job result b h k = Does-bind (Does-forget_healthy _) λ _.
      Does-if _ (Does-complete env _ _) (
        Does-bind (Does-record_connector_log env _)
          λ _. confirm_then env settings (observed_job settings job result) result b _ h k)

  -- An unhealthy connector in the mode `RESTART_ONLY` is never stopped, deleted, created or patched:
  -- all that is asked of Kafka Connect is to restart it or its failed tasks.
  pub handle_unhealthy-Restarts :
      (job : ConnectorJob) (result : HealthResult) (failure_confirmed : Bool)
      → job.healing_mode ≡ some HealingMode.restart_only
      → Does
          (IsRestartOf job.connector_name)
          (handle_unhealthy env settings job result failure_confirmed)
  handle_unhealthy-Restarts job result b mode =
      handle_by job result b
        (act_by _ result λ a s e. restarts _ result _ a s e (restart_only_level _ mode))
        (act_by _ result λ a s e. restarts _ result _ a s e (restart_only_level _ mode))

  new_row_level : (r : QueueRow) (job : ConnectorJob) → job.level ≡ 1 → leb 2 (level job) ≡ false
  unfolding level
  new_row_level r job h = by_mode job.healing_mode
    where
      by_mode :
          (m : Option HealingMode)
          → leb 2 (elim m [
            | none ↦ if job.level == 0 then 1 else job.level
            | some mode ↦ elim mode [
              | HealingMode.restart_only ↦ min (if job.level == 0 then 1 else job.level) 2
              | HealingMode.recovery ↦ if job.level == 0 then 1 else job.level
            ]
          ])
            ≡ false
      by_mode none = rw (h) refl
      by_mode (some HealingMode.restart_only) = rw (h) refl
      by_mode (some HealingMode.recovery) = rw (h) refl

  -- The job that `enqueue_connector` builds from the row of `spEnqueueConnectorHealing` has the default
  -- level, since the procedure returns none: while it is handled as unhealthy, confirmed or not, and
  -- whatever the mode of the row, Kafka Connect is asked for nothing, not even a restart.
  pub handle_unhealthy-job_of_new_row :
      (r : QueueRow) (result : HealthResult) (failure_confirmed : Bool)
      → Does (λ q. ⊥) (handle_unhealthy env settings (job_of_new_row r) result failure_confirmed)
  unfolding job_of_new_row
  handle_unhealthy-job_of_new_row r result b =
      handle_by (job_of_new_row r) result b
        (act_by _ result λ a s e. nothing _ result _ a s e (new_row_level r _ refl))
        (act_by _ result λ a s e. nothing _ result _ a s e (new_row_level r _ refl))
