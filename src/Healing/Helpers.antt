-- ===== src/Healing/Helpers.antt =====
-- src/self_healthy_kafka/healing/helpers.py, and `clamp_failed_count` of healing/actions.py.
use self_healing_kafka_syste.Base.{
  ℕ, Option, none, some, List, [], ◌∷◌, ◌++◌, ◌==◌, if◌then◌else◌, min, is_empty,
}
use self_healing_kafka_syste.Base.Text.{Text}
use self_healing_kafka_syste.Domain.{
  QueueId, HealingMode, ConnectorJob, HealthResult, Time, EventType, event_name,
}
use self_healing_kafka_syste.Domain.Json.{
  Value, Items, Fields, nil, cons, end, field, str, num, null, stamp, arr, obj, put, update, get,
  keep_truthy,
}
use self_healing_kafka_syste.Effect.Exn.{text}
use self_healing_kafka_syste.Naming.Scn.{text_of}
use self_healing_kafka_syste.Healing.Summary.{StepCounts, format_healing_steps}

-- `max(0, min(int(value or 0), maximum))`; counts are never negative.
unfoldable pub clamp_failed_count : ℕ → ℕ → ℕ
clamp_failed_count value maximum = min value maximum

unfoldable pub incident_id : ConnectorJob → Option QueueId
incident_id job = job.active_incident_id

-- `a or b` where `a` may be absent or empty.
abbrev pub non_empty_or : Option Text → Text → Text
non_empty_or none d = d
non_empty_or (some s) d = if is_empty s then d else s

unfoldable pub failure_message : HealthResult → Text
failure_message result = non_empty_or result.trace result.reason

abbrev trace_onto : Option Text → Fields → Fields
trace_onto none details = details
trace_onto (some s) details = if is_empty s then details else put "trace" (str s) details

unfoldable pub failure_details : HealthResult → Fields → Fields
failure_details result extra =
    update
      (trace_onto result.trace
        (field "reason" (str result.reason) (field "checked_at" (stamp result.checked_at) end)))
      extra

-- `level(job)`.
unfoldable pub level : ConnectorJob → ℕ
level job =
    let configured = if job.level == 0 then 1 else job.level in
    elim job.healing_mode [
      | none ↦ configured
      | some mode ↦ elim mode [
        | HealingMode.restart_only ↦ min configured 2
        | HealingMode.recovery ↦ configured
      ]
    ]

abbrev pub number_items : List ℕ → Items
number_items [] = nil
number_items (i ∷ is) = cons (num i) (number_items is)

abbrev pub numbers : List ℕ → Value
numbers is = arr (number_items is)

abbrev pub step_counts : ConnectorJob → StepCounts
step_counts job = record {
  task_restarts = job.task_restart_count;
  connector_restarts = job.connector_restart_count;
  recreate_timeouts = job.recreate_with_offset_timeout_count;
  recreate_with_offset = job.recreate_with_offset_count;
  recreate_without_offset = job.recreate_without_offset_count;
}

-- The dictionary that `recovery_details` returns.
pub record RecoveryDetails : Type 0 where
  pub previous_event : Option EventType
  pub checked_at : Time
  pub original_connector_name : Value
  pub old_connector_name : Option Value
  pub final_connector_name : Text
  pub healing_steps : Text
  pub healing_step_counts : StepCounts

unfoldable pub original_name : ConnectorJob → Value
original_name job = elim (keep_truthy (get "original_connector_name" job.latest_event_details)) [
  | some v ↦ v
  | none ↦ elim (keep_truthy (get "old_connector_name" job.latest_event_details)) [
    | some v ↦ v
    | none ↦ str job.connector_name
  ]
]

unfoldable pub recovery_details : ConnectorJob → HealthResult → RecoveryDetails
recovery_details job result = record {
  previous_event = job.latest_event_type;
  checked_at = result.checked_at;
  original_connector_name = original_name job;
  old_connector_name = get "old_connector_name" job.latest_event_details;
  final_connector_name = job.connector_name;
  healing_steps = format_healing_steps (step_counts job) job.connector_name;
  healing_step_counts = step_counts job;
}

abbrev pub value_or_null : Option Value → Value
value_or_null none = null
value_or_null (some v) = v

abbrev event_value : Option EventType → Value
event_value none = null
event_value (some e) = str (text (event_name e))

abbrev counts_value : StepCounts → Value
counts_value c = obj (
    field "TASK_RESTART" (num c.task_restarts) (
      field "CONNECTOR_RESTART" (num c.connector_restarts) (
        field "CONNECTOR_RECREATE_WITH_OFFSET_TIMEOUT" (num c.recreate_timeouts) (
          field "CONNECTOR_RECREATE_WITH_OFFSET" (num c.recreate_with_offset)
            (field "CONNECTOR_RECREATE_WITHOUT_OFFSET" (num c.recreate_without_offset) end)))))

-- The dictionary as it is logged.
unfoldable pub recovery_fields : RecoveryDetails → Fields
recovery_fields d = field "previous_event" (event_value d.previous_event) (
    field "checked_at" (stamp d.checked_at) (
      field "original_connector_name" d.original_connector_name (
        field "old_connector_name" (value_or_null d.old_connector_name) (
          field "final_connector_name" (str d.final_connector_name) (
            field "healing_steps" (str d.healing_steps)
              (field "healing_step_counts" (counts_value d.healing_step_counts) end))))))

module _ (repr : Value → Text) where
  unfoldable pub recovery_message : RecoveryDetails → Text
  recovery_message d =
      text "Connector recovered. Original connector: "
      ++ (text_of repr d.original_connector_name
          ++ (text "; current connector: "
              ++ (d.final_connector_name ++ (text "; healing steps: " ++ d.healing_steps))))
