-- ===== src/Machine/ProcessDoes.antt =====
-- The rules of Effect/Does for `_process_job_safely` of db_state_machine.py and what it calls.
use self_healing_kafka_syste.Base.{
  Bool, true, false, not, Option, none, some, List, [], ◌∷◌, ◌≡◌, refl, ◌∙◌, ap, keep_if, any,
  Bool-cases, inl, inr,
}
use self_healing_kafka_syste.Base.Text.{Text, text_eq, text_eq_refl}
use self_healing_kafka_syste.Domain.{
  Time, HealthStatus, ConnectorJob, HealthResult, Settings, ConnectorStatus,
}
use self_healing_kafka_syste.Effect.Exn.{Exn, ok, raised}
use self_healing_kafka_syste.Effect.World.{Env, Request, World}
use self_healing_kafka_syste.Effect.Monad.{M, finally, ◌>>=◌, pure}
use self_healing_kafka_syste.Effect.Does.{
  Does, Extends, Extends-refl, Does-pure, Does-if, Does-bind, Does-catch, Does-attempt,
  Does-utc_now, after_result,
}
use self_healing_kafka_syste.Client.RestDoes.{Does-get_status}
use self_healing_kafka_syste.Health.{check, check_result}
use self_healing_kafka_syste.Store.StoreDoes.{
  Does-record_connector_log, Does-complete, Does-start_processing, Does-wait_for_next_attempt,
  Does-get_connector_by_id,
}
use self_healing_kafka_syste.Machine.Memory.{acquire, release, holds}
use self_healing_kafka_syste.Machine.MachineDoes.{
  Does-forget_healthy, Does-is_uncertain, Does-quarantine, Does-execute_any, Does-handle_unhealthy,
  Does-handle_healthy,
}
use self_healing_kafka_syste.Machine.Dispatch.{run_recreate_with_offset_retry_or_escalate}
use self_healing_kafka_syste.Machine.Process.{
  Stage, handle_result, check_and_handle, wait_or_check, process_job, on_process_error, guarded,
  reschedule, finish_stage, process_job_safely, lock_name, by_result, by_wait, reschedule_row,
  reschedule_at,
}

-- A lock that nobody holds is the only one of its name once it is taken.
keep_others :
    (p : Text → Bool) (names : List Text)
    → any p names ≡ false
    → keep_if (λ n. not (p n)) names ≡ names
keep_others p [] h = refl
keep_others p (n ∷ ns) h = elim (Bool-cases (p n)) [
  | inl e ↦ elim (apart h e) [ ]
  | inr e ↦ rw (e) (ap (λ t. n ∷ t) (keep_others p ns (other h e)))
]
  where
    apart : any p (n ∷ ns) ≡ false → p n ≡ true → ⊥
    apart h e = cc

    other : any p (n ∷ ns) ≡ false → p n ≡ false → any p ns ≡ false
    other h e = cc

module _ {P : Request → Type 0} {A : Type 0} where
  -- A critical section: the lock is given back, and all else goes on.
  Extends-locked :
      (name : Text) (m : M A) (w : World)
      → holds name w.locks ≡ false
      → Does P m
      → Extends P w (finally m (release name) (record w { locks = name ∷ w.locks })).1
  unfolding finally release holds
  Extends-locked name m w free h =
      let e = h.at (record w { locks = name ∷ w.locks }) in
      record {
        locks = ap (keep_if λ n. not (text_eq n name)) e.locks ∙ released;
        trace = e.trace;
        logs = e.logs;
      }
    where
      released : keep_if (λ n. not (text_eq n name)) (name ∷ w.locks) ≡ w.locks
      released = rw (text_eq_refl) (keep_others (λ n. text_eq n name) w.locks free)

-- `_process_job_safely`, where every request is allowed.
module _ {P : Request → Type 0} (all : (r : Request) → P r) (env : Env) (settings : Settings) where
  Does-check_result :
      (name : Text) (status : Option ConnectorStatus)
      → Does P (check_result env settings.circuit_cooldown name status)
  unfolding check_result
  Does-check_result name none = Does-bind (Does-utc_now env) λ now. Does-pure _
  Does-check_result name (some status) = Does-bind (Does-utc_now env) λ now. Does-pure _

  pub Does-check : (name : Text) → Does P (check env settings.circuit_cooldown name)
  unfolding check
  Does-check name =
      Does-bind
        (Does-catch
          (Does-bind (Does-get_status env settings.circuit_cooldown name (all _)) λ s. Does-pure _)
          λ x. Does-pure none)
        (elim [ none ↦ Does-pure none | some s ↦ Does-check_result name s ])

  Does-handle_result :
      (job : ConnectorJob) (b : Bool) (result : HealthResult) (status : HealthStatus)
      → Does P (handle_result env settings job b result status)
  unfolding handle_result run_recreate_with_offset_retry_or_escalate
  Does-handle_result job b result HealthStatus.not_created =
      Does-if _ (Does-bind (Does-execute_any all env settings job result _) λ _. Does-pure true)
        (Does-bind (Does-forget_healthy job.id) λ _. Does-pure _)
  Does-handle_result job b result HealthStatus.stopped =
      Does-if _
        (Does-bind (Does-handle_unhealthy all env settings job result false) λ _. Does-pure true)
        (Does-pure false)
  Does-handle_result job b result HealthStatus.healthy =
      Does-bind (Does-handle_healthy all env settings job result) λ _. Does-pure _
  Does-handle_result job b result HealthStatus.unhealthy =
      Does-bind (Does-handle_unhealthy all env settings job result b) λ _. Does-pure true

  Does-by_result :
      (job : ConnectorJob) (b : Bool) (r : Option HealthResult)
      → Does P (by_result env settings job b r)
  Does-by_result job b none = Does-bind (Does-forget_healthy job.id) λ _. Does-pure _
  Does-by_result job b (some r) = Does-handle_result job b r r.status

  Does-check_and_handle :
      (job : ConnectorJob) (b : Bool) → Does P (check_and_handle env settings job b)
  unfolding check_and_handle
  Does-check_and_handle job b = Does-bind (Does-check job.connector_name) (Does-by_result job b)

  Does-by_wait :
      (job : ConnectorJob) (b : Bool) (t : Option Time) → Does P (by_wait env settings job b t)
  Does-by_wait job b none = Does-check_and_handle job b
  Does-by_wait job b (some t) =
      Does-bind (Does-utc_now env) λ now. Does-if _ (Does-pure _) (Does-check_and_handle job b)

  Does-process_job : (job : ConnectorJob) (b : Bool) → Does P (process_job env settings job b)
  unfolding process_job wait_or_check
  Does-process_job job b = Does-bind (Does-is_uncertain job.id) λ q.
      Does-if q (Does-bind (Does-quarantine env settings job) λ _. Does-pure false)
        (Does-if _ (Does-bind (Does-complete env _ _) λ _. Does-pure false) (Does-by_wait job b _))

  Does-on_process_error :
      (job : ConnectorJob) (x : Exn) → Does P (on_process_error env settings job x)
  unfolding on_process_error
  Does-on_process_error job x =
      Does-bind (Does-is_uncertain job.id)
        λ q. Does-if q (Does-pure _) (Does-bind (Does-record_connector_log env _) λ _. Does-pure _)

  Does-guarded : (job : ConnectorJob) (b : Bool) → Does P (guarded env settings job b)
  unfolding guarded
  Does-guarded job b =
      Does-bind
        (Does-attempt (Does-bind (Does-start_processing env job.id) λ _. Does-process_job job b))
        (elim [ ok followup ↦ Does-pure _ | raised x ↦ Does-on_process_error job x ])

  Does-reschedule_at :
      (job : ConnectorJob) (t : Option Time) → Does P (reschedule_at env settings job t)
  Does-reschedule_at job (some t) = Does-wait_for_next_attempt env job.id t
  Does-reschedule_at job none =
      Does-bind (Does-utc_now env) λ now. Does-wait_for_next_attempt env job.id now

  Does-reschedule_row :
      (job : ConnectorJob) (again : Option ConnectorJob)
      → Does P (reschedule_row env settings job again)
  Does-reschedule_row job none = Does-pure tt
  Does-reschedule_row job (some again) = Does-reschedule_at job _

  Does-finish_stage : (job : ConnectorJob) (s : Stage) → Does P (finish_stage env settings job s)
  unfolding finish_stage reschedule
  Does-finish_stage job (Stage.returned outcome) = Does-pure outcome
  Does-finish_stage job (Stage.finished false) = Does-pure _
  Does-finish_stage job (Stage.finished true) =
      Does-bind (Does-bind (Does-get_connector_by_id env job.id) (Does-reschedule_row job))
        λ _. Does-pure _

  pub Does-process_job_safely :
      (job : ConnectorJob) (b : Bool) → Does P (process_job_safely env settings job b)
  unfolding process_job_safely ◌>>=◌ acquire pure
  Does-process_job_safely job b = record {
    at = λ w. by_held w (holds (lock_name job) w.locks) refl;
  }
    where
      by_held :
          (w : World) (h : Bool)
          → holds (lock_name job) w.locks ≡ h
          → Extends P w (process_job_safely env settings job b w).1
      by_held w true e = rw (e, process_job_safely, acquire) (Extends-refl w)
      by_held w false e =
          rw (e, process_job_safely, acquire)
            (after_result _ (Extends-locked (lock_name job) _ w e (Does-guarded job b))
              (Does-finish_stage job))
