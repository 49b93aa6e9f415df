-- ===== src/Policy.antt =====
-- src/self_healthy_kafka/healing/policy.py: the decision table for unhealthy connectors.
pub mod Budget
use self_healing_kafka_syste.Base.{
  Bool, true, false, ◌&&◌, ◌||◌, not, Option, none, some, ◌+◌, ltb, leb, ◌==◌, if◌then◌else◌,
}
use self_healing_kafka_syste.Domain.{
  EventType, RecoveryAction, RecoveryDecision, RecoveryPolicy, HealingStep, ConnectorJob,
}

-- The sets of event types; `none` is a job without a log.
unfoldable pub wait_after_restart_events : Option EventType → Bool
wait_after_restart_events (some EventType.task_restart) = true
wait_after_restart_events (some EventType.connector_restart) = true
wait_after_restart_events _ = false

unfoldable pub wait_after_recreate_events : Option EventType → Bool
wait_after_recreate_events (some EventType.connector_recreate_with_offset) = true
wait_after_recreate_events (some EventType.connector_recreate_without_offset) = true
wait_after_recreate_events _ = false

unfoldable pub recreate_with_offset_failure_events : Option EventType → Bool
recreate_with_offset_failure_events (some EventType.connector_recreate_with_offset_failed) = true
recreate_with_offset_failure_events (some EventType.offset_capture_failed) = true
recreate_with_offset_failure_events (some EventType.offset_patch_failed) = true
recreate_with_offset_failure_events (some EventType.connector_resume_failed) = true
recreate_with_offset_failure_events _ = false

unfoldable pub recreate_with_offset_retry_events : Option EventType → Bool
recreate_with_offset_retry_events (some EventType.connector_recreate_with_offset_timeout) = true
recreate_with_offset_retry_events _ = false

unfoldable pub terminal_events : Option EventType → Bool
terminal_events (some EventType.healing_escalated) = true
terminal_events (some EventType.healing_level_limit_reached) = true
terminal_events _ = false

-- `event == EventType.CONNECTOR_RECREATE_WITH_OFFSET`.
unfoldable pub is_recreate_with_offset : Option EventType → Bool
is_recreate_with_offset (some EventType.connector_recreate_with_offset) = true
is_recreate_with_offset _ = false

-- The set of the two events of a recreation without offset.
unfoldable pub recreate_without_offset_events : Option EventType → Bool
recreate_without_offset_events (some EventType.connector_recreate_without_offset) = true
recreate_without_offset_events (some EventType.connector_recreate_without_offset_failed) = true
recreate_without_offset_events _ = false

abbrev pub plain : RecoveryAction → RecoveryDecision
plain a = record { action = a; required_level = none; attempted_event = none }

abbrev pub leveled : RecoveryAction → HealingStep → EventType → RecoveryDecision
leveled a s e = record { action = a; required_level = some s; attempted_event = some e }

abbrev pub retry_decision : RecoveryDecision
retry_decision =
    leveled RecoveryAction.retry_recreate_with_offset HealingStep.recreate_with_offset
      EventType.connector_recreate_with_offset

unfoldable pub recreate_without_offset_or_escalate :
    RecoveryPolicy → ConnectorJob → RecoveryDecision
recreate_without_offset_or_escalate policy job =
    if ltb job.recreate_without_offset_count policy.recreate_without_offset_max_attempts
    then leveled RecoveryAction.recreate_without_offset HealingStep.recreate_without_offset
        EventType.connector_recreate_without_offset
    else plain RecoveryAction.escalate

unfoldable pub should_restart_connector : RecoveryPolicy → ConnectorJob → Bool
should_restart_connector policy job =
    if leb policy.connector_restart_max_attempts job.connector_restart_count
    then false
    else if job.failed_task
    then leb policy.task_restart_max_attempts job.task_restart_count
      && (job.failure_confirmed
          || leb (policy.failure_confirm_checks + policy.task_restart_max_attempts)
              job.failed_count)
    else true

abbrev pub is_false : Option Bool → Bool
is_false (some false) = true
is_false _ = false

-- The part of the table after the tests on the latest event: a ladder of restarts, then the two
-- kinds of recreation.
unfoldable pub decide_by_counts : RecoveryPolicy → ConnectorJob → Bool → RecoveryDecision
unfolding should_restart_connector recreate_without_offset_or_escalate
decide_by_counts policy job has_failed_tasks =
    if not job.failure_confirmed && ltb job.failed_count policy.failure_confirm_checks
    then plain RecoveryAction.debounce
    else if has_failed_tasks && ltb job.task_restart_count policy.task_restart_max_attempts
    then leveled RecoveryAction.restart_tasks HealingStep.restart EventType.task_restart
    else if should_restart_connector policy job
    then leveled RecoveryAction.restart_connector HealingStep.restart EventType.connector_restart
    else if job.recreate_with_offset_count == 0
    then leveled RecoveryAction.recreate_with_offset HealingStep.recreate_with_offset
        EventType.connector_recreate_with_offset
    else recreate_without_offset_or_escalate policy job

unfoldable pub decide_unhealthy : RecoveryPolicy → ConnectorJob → Bool → RecoveryDecision
unfolding decide_by_counts
decide_unhealthy policy job has_failed_tasks =
    let event = job.latest_event_type in
    if is_recreate_with_offset event
    then recreate_without_offset_or_escalate policy job
    else if recreate_with_offset_retry_events event
    then (if ltb job.recreate_with_offset_timeout_count
          policy.recreate_with_offset_timeout_max_attempts
        then retry_decision
        else recreate_without_offset_or_escalate policy job)
    else if recreate_with_offset_failure_events event
    then recreate_without_offset_or_escalate policy job
    else if recreate_without_offset_events event
    then plain RecoveryAction.escalate
    else if terminal_events event && is_false job.latest_has_next_step
    then plain RecoveryAction.stop
    else decide_by_counts policy job has_failed_tasks
