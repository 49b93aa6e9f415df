-- ===== src/Policy/Budget.antt =====
-- The budgets and levels of src/self_healthy_kafka/healing/policy.py.
use self_healing_kafka_syste.Base.{
  Bool, true, false, ◌&&◌, not, Option, none, some, ltb, ◌==◌, if◌then◌else◌, ◌≡◌, refl, ◌⊎◌, inl,
  inr, arith,
}
use self_healing_kafka_syste.Domain.{
  RecoveryAction, RecoveryDecision, RecoveryPolicy, HealingStep, ConnectorJob,
}
use self_healing_kafka_syste.Policy.{
  is_recreate_with_offset, recreate_with_offset_retry_events, recreate_with_offset_failure_events,
  recreate_without_offset_events, terminal_events, is_false, recreate_without_offset_or_escalate,
  should_restart_connector, decide_by_counts, decide_unhealthy,
}

-- What a decision promises about the job, by its action; `⊥` for what is never decided.
abbrev pub Warrant :
    RecoveryPolicy → ConnectorJob → Bool → Option HealingStep → RecoveryAction → Type 0
Warrant p job failed s RecoveryAction.debounce =
    (s ≡ none)
    × (job.failure_confirmed ≡ false)
    × (ltb job.failed_count p.failure_confirm_checks ≡ true)
Warrant p job failed s RecoveryAction.restart_tasks =
    (s ≡ some HealingStep.restart)
    × (failed ≡ true)
    × (ltb job.task_restart_count p.task_restart_max_attempts ≡ true)
Warrant p job failed s RecoveryAction.restart_connector =
    (s ≡ some HealingStep.restart)
    × (ltb job.connector_restart_count p.connector_restart_max_attempts ≡ true)
Warrant p job failed s RecoveryAction.recreate_with_offset =
    (s ≡ some HealingStep.recreate_with_offset) × (job.recreate_with_offset_count ≡ 0)
Warrant p job failed s RecoveryAction.retry_recreate_with_offset =
    (s ≡ some HealingStep.recreate_with_offset)
    × (recreate_with_offset_retry_events job.latest_event_type ≡ true)
    × (ltb job.recreate_with_offset_timeout_count p.recreate_with_offset_timeout_max_attempts
        ≡ true)
Warrant p job failed s RecoveryAction.recreate_without_offset =
    (s ≡ some HealingStep.recreate_without_offset)
    × (ltb job.recreate_without_offset_count p.recreate_without_offset_max_attempts ≡ true)
Warrant p job failed s RecoveryAction.escalate =
    (s ≡ none)
    × ((recreate_without_offset_events job.latest_event_type ≡ true)
        ⊎ (ltb job.recreate_without_offset_count p.recreate_without_offset_max_attempts ≡ false))
Warrant p job failed s RecoveryAction.stop =
    (s ≡ none)
    × (terminal_events job.latest_event_type ≡ true)
    × (is_false job.latest_has_next_step ≡ true)
Warrant p job failed s _ = ⊥

pub record Warranted (p : RecoveryPolicy) (job : ConnectorJob) (failed : Bool)
    (d : RecoveryDecision) : Type 0 where
  pub warrant : Warrant p job failed d.required_level d.action

module _ (p : RecoveryPolicy) (job : ConnectorJob) (failed : Bool) where
  by_test :
      (b : Bool) {x y : RecoveryDecision}
      → (b ≡ true → Warranted p job failed x)
      → (b ≡ false → Warranted p job failed y)
      → Warranted p job failed (if b then x else y)
  by_test true h k = h refl
  by_test false h k = k refl

  last_resort : Warranted p job failed (recreate_without_offset_or_escalate p job)
  unfolding recreate_without_offset_or_escalate
  last_resort =
      by_test (ltb job.recreate_without_offset_count p.recreate_without_offset_max_attempts)
        (λ e. record { warrant = (refl, e) }) λ e. record { warrant = (refl, inr e) }

  -- The restart of the connector is within its budget whenever it is due.
  restart_due :
      should_restart_connector p job ≡ true
      → ltb job.connector_restart_count p.connector_restart_max_attempts ≡ true
  unfolding should_restart_connector
  restart_due h = ground arith

  ladder : Warranted p job failed (decide_by_counts p job failed)
  unfolding decide_by_counts
  ladder =
      by_test (not job.failure_confirmed && ltb job.failed_count p.failure_confirm_checks)
        (λ e. record { warrant = (refl, ground arith, ground arith) })
        λ _.
          by_test (failed && ltb job.task_restart_count p.task_restart_max_attempts)
            (λ e. record { warrant = (refl, ground arith, ground arith) })
            λ _.
              by_test (should_restart_connector p job)
                (λ e. record { warrant = (refl, restart_due e) })
                λ _.
                  by_test (job.recreate_with_offset_count == 0)
                    (λ e. record { warrant = (refl, ground arith) }) λ _. last_resort

  -- Every decision for an unhealthy connector is warranted: a debounce only before the confirmation;
  -- each restart, recreation and retry only while its own count is below its budget, with the
  -- level of its step; an escalation only after a recreation without offset or with none left; a
  -- stop only on a terminal event without a next step. No other action is ever decided.
  pub decide_unhealthy-Warranted : Warranted p job failed (decide_unhealthy p job failed)
  unfolding decide_unhealthy
  decide_unhealthy-Warranted =
      let event = job.latest_event_type in
      by_test (is_recreate_with_offset event) (λ _. last_resort)
        λ _.
          by_test (recreate_with_offset_retry_events event)
            (λ e.
              by_test
                (ltb job.recreate_with_offset_timeout_count
                  p.recreate_with_offset_timeout_max_attempts)
                (λ k. record { warrant = (refl, e, k) }) λ _. last_resort)
            λ _.
              by_test (recreate_with_offset_failure_events event) (λ _. last_resort)
                λ _.
                  by_test (recreate_without_offset_events event)
                    (λ e. record { warrant = (refl, inl e) })
                    λ _.
                      by_test (terminal_events event && is_false job.latest_has_next_step)
                        (λ e. record { warrant = (refl, ground arith, ground arith) }) λ _. ladder
