-- ===== src/Healing/HealingDoes.antt =====
-- What the recovery actions ask of Kafka Connect.
use self_healing_kafka_syste.Base.{true, false, Option, none, some, String, ◌≡◌, refl, not, ◌&&◌}
use self_healing_kafka_syste.Base.Text.{Text, text_eq}
use self_healing_kafka_syste.Domain.{HealingStep, EventType, ConnectorJob, HealthResult, Settings}
use self_healing_kafka_syste.Domain.Json.{Value, Fields, obj}
use self_healing_kafka_syste.Effect.Exn.{Exn, Result, ok, raised}
use self_healing_kafka_syste.Effect.World.{Env, Request}
use self_healing_kafka_syste.Effect.Does.{
  Does, Does-pure, Does-raise, Does-lift, Does-if, Does-bind, Does-catch, Does-attempt,
}
use self_healing_kafka_syste.Client.RestDoes.{
  Does-restart_connector, Does-delete_connector, Does-get_offsets, Does-stop_connector,
  Does-create_connector, Does-patch_offsets, Does-resume_connector, Does-connector_exists,
}
use self_healing_kafka_syste.Store.StoreDoes.{
  Does-record_connector_log, Does-set_current_name, Does-complete,
}
use self_healing_kafka_syste.Naming.Replacement.{build_replacement_connector}
use self_healing_kafka_syste.Healing.Restart.{restart_failed_tasks, restart_connector}
use self_healing_kafka_syste.Healing.Escalation.{escalate, level_limit_reached}
use self_healing_kafka_syste.Naming.Version.{is_versioned_connector_name}
use self_healing_kafka_syste.Healing.Failure.{
  original_connector_name, log_recreate_with_offset_failure, delete_failed_versioned_connector,
}
use self_healing_kafka_syste.Healing.Recreate.{
  Plan, mark_created_connector, record_recreated, created_but_failed, resume_replacement,
  patch_replacement, creation_failed, create_replacement, stop_and_replace, replace_with_offsets,
  recreate_with_offset,
}
use self_healing_kafka_syste.Healing.Retry.{
  Prepared, prepare_retry, retry_failed, record_retried, retry_refused, patch_and_resume,
  retry_with, retry_offsets, retry_timed_out_recreate_with_offset,
}
use self_healing_kafka_syste.Healing.Fresh.{
  log_fresh_failure, record_fresh, create_fresh, recreate_without_offset,
}

module _ {P : Request → Type 0} (env : Env) where
  pub Does-escalate :
      (job : ConnectorJob) (result : HealthResult) → Does P (escalate env job result)
  unfolding escalate
  Does-escalate job result = Does-bind (Does-record_connector_log env _) λ _. Does-complete env _ _

  pub Does-level_limit_reached :
      (job : ConnectorJob) (result : HealthResult) (s : HealingStep) (e : EventType)
      → Does P (level_limit_reached env job result s e)
  unfolding level_limit_reached
  Does-level_limit_reached job result s e =
      Does-bind (Does-record_connector_log env _) λ _. Does-complete env _ _

  pub Does-log_recreate_with_offset_failure :
      (job : ConnectorJob) (message : Text) (name : Option Text) (details : Fields)
      → Does P (log_recreate_with_offset_failure env job message name details)
  unfolding log_recreate_with_offset_failure
  Does-log_recreate_with_offset_failure job message name details = Does-record_connector_log env _

  pub Does-delete_failed_versioned_connector :
      (settings : Settings) (job : ConnectorJob) (old new : Text)
      → P (Request.delete old)
      → Does P (delete_failed_versioned_connector env settings job old new)
  unfolding delete_failed_versioned_connector
  Does-delete_failed_versioned_connector settings job old new p =
      Does-if (text_eq old new) (Does-pure tt) (
        Does-if (not (is_versioned_connector_name old)) (Does-pure tt) (
          Does-if
            (settings.recreate_keep_base_connector
              && text_eq old (original_connector_name env.repr job))
            (Does-pure tt) (Does-catch (Does-delete_connector env old p) λ x. Does-pure tt)))

module _ {P : Request → Type 0} (env : Env) (settings : Settings) where
  pub Does-restart_failed_tasks :
      (job : ConnectorJob) (result : HealthResult)
      → P (Request.restart job.connector_name true)
      → Does P (restart_failed_tasks env settings job result)
  unfolding restart_failed_tasks
  Does-restart_failed_tasks job result p =
      Does-bind (Does-restart_connector env _ _ p) λ _. Does-record_connector_log env _

  pub Does-restart_connector_action :
      (job : ConnectorJob) (result : HealthResult)
      → P (Request.restart job.connector_name false)
      → Does P (restart_connector env settings job result)
  unfolding restart_connector
  Does-restart_connector_action job result p =
      Does-bind (Does-restart_connector env _ _ p) λ _. Does-record_connector_log env _

  pub Does-created_but_failed :
      (p : Plan) (e : EventType) (s : String) → Does P (created_but_failed env settings p e s)
  unfolding created_but_failed mark_created_connector
  Does-created_but_failed p e s = Does-bind (Does-set_current_name env _ _) λ _.
      Does-bind (Does-record_connector_log env _)
        λ _. Does-bind (Does-log_recreate_with_offset_failure env _ _ _ _) λ _. Does-pure false

  pub Does-creation_failed : (p : Plan) (x : Exn) → Does P (creation_failed env settings p x)
  unfolding creation_failed mark_created_connector
  Does-creation_failed p x =
      Does-if _
        (Does-bind (Does-set_current_name env _ _)
          λ _. Does-bind (Does-record_connector_log env _) λ _. Does-pure false)
        (Does-bind (Does-log_recreate_with_offset_failure env _ _ _ _) λ _. Does-pure false)

  pub Does-log_fresh_failure :
      (job : ConnectorJob) (name message : Text)
      → Does P (log_fresh_failure env settings job name message)
  unfolding log_fresh_failure
  Does-log_fresh_failure job name message =
      Does-bind (Does-record_connector_log env _) λ _. Does-pure false

-- The recreations may make any request.
module _ {P : Request → Type 0} (all : (r : Request) → P r) (env : Env) (settings : Settings) where
  Does-record_recreated : (p : Plan) → Does P (record_recreated env settings p)
  unfolding record_recreated
  Does-record_recreated p = Does-bind (Does-record_connector_log env _) λ _.
      Does-bind (Does-set_current_name env _ _) λ _.
        Does-bind (Does-delete_failed_versioned_connector env settings _ _ _ (all _))
          λ _. Does-pure true

  Does-resume_replacement : (p : Plan) → Does P (resume_replacement env settings p)
  unfolding resume_replacement
  Does-resume_replacement p =
      Does-bind (Does-resume_connector env _ (all _))
        λ b. Does-if b (Does-record_recreated p) (Does-created_but_failed env settings p _ _)

  Does-patch_replacement : (p : Plan) → Does P (patch_replacement env settings p)
  unfolding patch_replacement
  Does-patch_replacement p =
      Does-bind (Does-patch_offsets env _ _ (all _))
        λ b. Does-if b (Does-resume_replacement p) (Does-created_but_failed env settings p _ _)

  Does-create_replacement : (p : Plan) → Does P (create_replacement env settings p)
  unfolding create_replacement
  Does-create_replacement p =
      Does-bind (Does-attempt (Does-create_connector env _ _ _ (all _))) (elim [
        | ok v ↦ Does-patch_replacement p
        | raised x ↦ Does-creation_failed env settings p x
      ])

  Does-stop_and_replace : (p : Plan) → Does P (stop_and_replace env settings p)
  unfolding stop_and_replace
  Does-stop_and_replace p = Does-bind (Does-stop_connector env _ (all _)) λ b.
      Does-if b (Does-create_replacement p)
        (Does-bind (Does-log_recreate_with_offset_failure env _ _ _ _) λ _. Does-pure false)

  Does-replace_with_offsets :
      (job : ConnectorJob) (result : HealthResult) (offsets : Fields) (scn commit : Option Text)
      → Does P (replace_with_offsets env settings job result offsets scn commit)
  unfolding replace_with_offsets
  Does-replace_with_offsets job result offsets scn commit =
      by_build (build_replacement_connector env.repr job scn true) refl
    where
      by_build :
          (r : Result (Text × Fields))
          → build_replacement_connector env.repr job scn true ≡ r
          → Does P (replace_with_offsets env settings job result offsets scn commit)
      by_build (raised x) e =
          rw (e, replace_with_offsets)
            (Does-bind (Does-log_recreate_with_offset_failure env _ _ _ _) λ _. Does-pure false)
      by_build (ok (name, config)) e = rw (e, replace_with_offsets) (Does-stop_and_replace _)

  pub Does-recreate_with_offset :
      (job : ConnectorJob) (result : HealthResult)
      → Does P (recreate_with_offset env settings job result)
  unfolding recreate_with_offset
  Does-recreate_with_offset job result = Does-bind (Does-get_offsets env _ (all _)) λ offsets.
      Does-bind (Does-lift _) λ scns. Does-bind (Does-record_connector_log env _) λ _.
        Does-bind (Does-lift _) (elim [
          | some fs ↦ Does-replace_with_offsets job result fs _ _
          | none ↦
              Does-bind (Does-log_recreate_with_offset_failure env _ _ _ _) λ _. Does-pure false
        ])

  Does-prepare_retry : (job : ConnectorJob) → Does P (prepare_retry env settings job)
  unfolding prepare_retry
  Does-prepare_retry job = Does-bind (Does-connector_exists env _ _ (all _)) λ b.
      Does-if b
        (Does-bind (Does-stop_connector env _ (all _)) λ c.
          Does-if c (Does-pure _)
            (Does-bind (Does-log_recreate_with_offset_failure env _ _ _ _) λ _. Does-pure _))
        (Does-bind (Does-create_connector env _ _ _ (all _)) λ _. Does-pure _)

  Does-retry_failed : (job : ConnectorJob) (x : Exn) → Does P (retry_failed env settings job x)
  unfolding retry_failed
  Does-retry_failed job x =
      Does-if _ (Does-bind (Does-record_connector_log env _) λ _. Does-pure false) (Does-raise x)

  Does-retry_refused :
      (job : ConnectorJob) (e : EventType) (s : String)
      → Does P (retry_refused env settings job e s)
  unfolding retry_refused
  Does-retry_refused job e s = Does-bind (Does-record_connector_log env _) λ _. Does-pure false

  Does-patch_and_resume :
      (job : ConnectorJob) (result : HealthResult) (offsets : Fields)
      → Does P (patch_and_resume env settings job result offsets)
  unfolding patch_and_resume record_retried
  Does-patch_and_resume job result offsets = Does-bind (Does-patch_offsets env _ _ (all _)) λ b.
      Does-if b
        (Does-bind (Does-resume_connector env _ (all _)) λ c.
          Does-if c (Does-bind (Does-record_connector_log env _) λ _. Does-pure true)
            (Does-retry_refused job _ _))
        (Does-retry_refused job _ _)

  Does-retry_offsets :
      (job : ConnectorJob) (result : HealthResult) (v : Option Value)
      → Does P (retry_offsets env settings job result v)
  unfolding retry_offsets retry_with
  Does-retry_offsets job result (some (obj offsets)) =
      Does-bind (Does-attempt (Does-prepare_retry job)) (elim [
        | raised x ↦ Does-retry_failed job x
        | ok Prepared.ready ↦ Does-patch_and_resume job result offsets
        | ok Prepared.exists_unstopped ↦ Does-pure false
      ])
  Does-retry_offsets job result _ =
      Does-bind (Does-log_recreate_with_offset_failure env _ _ _ _) λ _. Does-pure false

  pub Does-retry :
      (job : ConnectorJob) (result : HealthResult)
      → Does P (retry_timed_out_recreate_with_offset env settings job result)
  unfolding retry_timed_out_recreate_with_offset
  Does-retry job result = Does-retry_offsets job result _

  Does-create_fresh :
      (job : ConnectorJob) (result : HealthResult) (name : Text) (config : Fields)
      → Does P (create_fresh env settings job result name config)
  unfolding create_fresh record_fresh
  Does-create_fresh job result name config =
      Does-bind (Does-attempt (Does-create_connector env _ _ _ (all _))) (elim [
        | ok v ↦ Does-bind (Does-record_connector_log env _) λ _.
            Does-bind (Does-set_current_name env _ _) λ _.
              Does-bind (Does-delete_failed_versioned_connector env settings _ _ _ (all _))
                λ _. Does-pure true
        | raised x ↦ Does-log_fresh_failure env settings job name _
      ])

  pub Does-recreate_without_offset :
      (job : ConnectorJob) (result : HealthResult)
      → Does P (recreate_without_offset env settings job result)
  unfolding recreate_without_offset
  Does-recreate_without_offset job result = Does-bind (Does-lift _) λ r.
      Does-bind (Does-stop_connector env _ (all _)) λ b.
        Does-if b (Does-create_fresh job result _ _) (Does-log_fresh_failure env settings job _ _)
