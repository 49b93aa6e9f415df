-- ===== src/Domain.antt =====
-- src/self_healthy_kafka/domain/healing.py, domain/models.py and the constants of
-- healing/phases.py: the vocabulary of the healing engine.
pub mod Json
use self_healing_kafka_syste.Base.{
  String, ℕ, ◌+◌, Bool, true, false, Option, none, some, List, ltb, if◌then◌else◌, any, [], ◌∷◌,
}
use self_healing_kafka_syste.Base.Text.{Text}
use Json.{Fields}

-- Instants in microseconds, and the opaque key of a queue row (a `uniqueidentifier`).
abbrev pub Time : Type 0
Time = ℕ

abbrev pub QueueId : Type 0
QueueId = ℕ

pub data HealingStep : Type 0 where
  detect restart recreate_with_offset recreate_without_offset : HealingStep

-- The value of the `IntEnum` member.
abbrev pub step_value : HealingStep → ℕ
step_value HealingStep.detect = 1
step_value HealingStep.restart = 2
step_value HealingStep.recreate_with_offset = 3
step_value HealingStep.recreate_without_offset = 4

pub data RecoveryAction : Type 0 where
  wait mark_unreachable mark_not_created handle_healthy debounce restart_tasks restart_connector
        recreate_with_offset retry_recreate_with_offset recreate_without_offset escalate stop :
      RecoveryAction

pub data EventType : Type 0 where
  health_failed_confirmed task_restart connector_restart offset_captured offset_capture_failed
        offset_patch_failed connector_resume_failed connector_recreate_with_offset
        connector_recreate_with_offset_timeout connector_recreate_with_offset_failed
        connector_recreate_without_offset connector_recreate_without_offset_failed healing_escalated
        healing_level_limit_reached healing_recovered state_machine_error health_failure_observed :
      EventType

-- The text of the constant.
unfoldable pub event_name : EventType → String
event_name EventType.health_failed_confirmed = "HEALTH_FAILED_CONFIRMED"
event_name EventType.task_restart = "TASK_RESTART"
event_name EventType.connector_restart = "CONNECTOR_RESTART"
event_name EventType.offset_captured = "OFFSET_CAPTURED"
event_name EventType.offset_capture_failed = "OFFSET_CAPTURE_FAILED"
event_name EventType.offset_patch_failed = "OFFSET_PATCH_FAILED"
event_name EventType.connector_resume_failed = "CONNECTOR_RESUME_FAILED"
event_name EventType.connector_recreate_with_offset = "CONNECTOR_RECREATE_WITH_OFFSET"
event_name EventType.connector_recreate_with_offset_timeout =
    "CONNECTOR_RECREATE_WITH_OFFSET_TIMEOUT"
event_name EventType.connector_recreate_with_offset_failed = "CONNECTOR_RECREATE_WITH_OFFSET_FAILED"
event_name EventType.connector_recreate_without_offset = "CONNECTOR_RECREATE_WITHOUT_OFFSET"
event_name EventType.connector_recreate_without_offset_failed =
    "CONNECTOR_RECREATE_WITHOUT_OFFSET_FAILED"
event_name EventType.healing_escalated = "HEALING_ESCALATED"
event_name EventType.healing_level_limit_reached = "HEALING_LEVEL_LIMIT_REACHED"
event_name EventType.healing_recovered = "HEALING_RECOVERED"
event_name EventType.state_machine_error = "STATE_MACHINE_ERROR"
event_name EventType.health_failure_observed = "HEALTH_FAILURE_OBSERVED"

pub data Phase : Type 0 where
  healthy initial_waiting kc_unreachable failed_debounce task_restarting connector_restarting
        recreate_with_offset_verifying recreate_with_offset_failed recreate_without_offset_verifying
        recreate_without_offset_failed escalated :
      Phase

pub data HealthStatus : Type 0 where
  healthy unhealthy not_created stopped : HealthStatus

pub data ConnectorState : Type 0 where
  running failed paused stopped unassigned : ConnectorState

pub data HealingMode : Type 0 where
  restart_only recovery : HealingMode

pub record RecoveryDecision : Type 0 where
  pub action : RecoveryAction
  pub required_level : Option HealingStep
  pub attempted_event : Option EventType

pub record RecoveryPolicy : Type 0 where
  pub failure_confirm_checks : ℕ
  pub task_restart_max_attempts : ℕ
  pub connector_restart_max_attempts : ℕ
  pub recreate_with_offset_timeout_max_attempts : ℕ
  pub recreate_without_offset_max_attempts : ℕ

-- `__post_init__`: `none` is the `ValueError` about values below one.
unfoldable pub checked_policy : RecoveryPolicy → Option RecoveryPolicy
checked_policy p =
    if any (λ v. ltb v 1)
      (p.failure_confirm_checks ∷ p.task_restart_max_attempts ∷ p.connector_restart_max_attempts
        ∷ p.recreate_with_offset_timeout_max_attempts ∷ p.recreate_without_offset_max_attempts ∷ [])
    then none
    else some p

abbrev pub max_failed_count : RecoveryPolicy → ℕ
max_failed_count p =
    p.failure_confirm_checks + p.task_restart_max_attempts + p.connector_restart_max_attempts

-- A connector's work item, with the extra keys of the row that the engine reads.
pub record ConnectorJob : Type 0 where
  pub id : QueueId
  pub connector_name : Text
  pub healing_mode : Option HealingMode
  pub level : ℕ
  pub active_config : Option Fields
  pub failed_count : ℕ
  pub failure_confirmed : Bool
  pub failed_connector : Bool
  pub failed_task : Bool
  pub active_incident_id : Option QueueId
  pub latest_event_type : Option EventType
  pub latest_event_at : Option Time
  pub latest_event_details : Fields
  pub latest_has_next_step : Option Bool
  pub current_phase : Phase
  pub task_restart_count : ℕ
  pub connector_restart_count : ℕ
  pub recreate_with_offset_count : ℕ
  pub recreate_with_offset_timeout_count : ℕ
  pub recreate_without_offset_count : ℕ
  pub last_failed_task_ids : List ℕ

pub record TaskStatus : Type 0 where
  pub id : ℕ
  pub state : Text
  pub trace : Option Text

pub record ConnectorStatus : Type 0 where
  pub name : Text
  pub state : ConnectorState
  pub tasks : List TaskStatus
  pub trace : Option Text

pub record HealthResult : Type 0 where
  pub connector_name : Text
  pub status : HealthStatus
  pub reason : Text
  pub failed_task_ids : List ℕ
  pub trace : Option Text
  pub checked_at : Time

unfoldable pub is_healthy : HealthResult → Bool
is_healthy r = elim r.status [ HealthStatus.healthy ↦ true | _ ↦ false ]

-- The settings of `ConnectorStateMachine` and its client; times are in seconds.
pub record Settings : Type 0 where
  pub policy : RecoveryPolicy
  pub post_restart_wait_seconds : ℕ
  pub recovery_healthy_confirm_seconds : ℕ
  pub recreate_verify_wait_seconds : ℕ
  pub recreate_keep_base_connector : Bool
  pub circuit_cooldown : ℕ
