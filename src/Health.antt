-- ===== src/Health.antt =====
-- src/self_healthy_kafka/health/checker.py: the classification of a connector.
pub mod Verdict
use self_healing_kafka_syste.Base.{
  ℕ, Bool, not, Option, none, some, List, [], ◌∷◌, ◌++◌, map, if◌then◌else◌, keep_if, is_empty,
}
use self_healing_kafka_syste.Base.Text.{Text, text_eq}
use self_healing_kafka_syste.Base.Decimal.{print_decimal}
use self_healing_kafka_syste.Domain.{
  Time, ConnectorState, ConnectorStatus, TaskStatus, HealthStatus, HealthResult,
}
use self_healing_kafka_syste.Effect.Exn.{text}
use self_healing_kafka_syste.Effect.World.{Env}
use self_healing_kafka_syste.Effect.Monad.{M, utc_now, pure, catch, ◌>>=◌}
use self_healing_kafka_syste.Client.Rest.{get_status}

abbrev join_ids : List ℕ → Text
join_ids [] = []
join_ids (i ∷ []) = print_decimal i
join_ids (i ∷ is) = print_decimal i ++ (text ", " ++ join_ids is)

-- `str(ids)` of a list of numbers.
abbrev print_ids : List ℕ → Text
print_ids is = text "[" ++ (join_ids is ++ text "]")

-- `t.state != "RUNNING"`.
unfoldable pub is_failed_task : TaskStatus → Bool
is_failed_task t = not (text_eq t.state (text "RUNNING"))

-- `next((t.trace for t in failed_tasks if t.trace), None)`.
unfoldable pub first_trace : List TaskStatus → Option Text
first_trace [] = none
first_trace (t ∷ ts) =
    let rest = first_trace ts in
    elim t.trace [ none ↦ rest | some s ↦ if is_empty s then rest else some s ]

abbrev pub verdict : ConnectorStatus → Time → HealthStatus → Text → HealthResult
verdict status now s why = record {
  connector_name = status.name;
  status = s;
  reason = why;
  failed_task_ids = [];
  trace = none;
  checked_at = now;
}

-- The `RUNNING` branch of `_evaluate` and the return below it.
unfoldable pub evaluate_running : ConnectorStatus → Time → HealthResult
unfolding first_trace
evaluate_running status now =
    let failed_tasks = keep_if is_failed_task status.tasks in
    let failed_ids = map (λ (t : TaskStatus). t.id) failed_tasks in
    if is_empty failed_tasks
    then verdict status now HealthStatus.healthy (text "All tasks RUNNING")
    else record (verdict status now HealthStatus.unhealthy
        (text "tasks " ++ (print_ids failed_ids ++ text " FAILED while connector RUNNING"))) {
          failed_task_ids = failed_ids;
          trace = first_trace failed_tasks;
        }

unfoldable pub evaluate_state : ConnectorState → ConnectorStatus → Time → HealthResult
evaluate_state ConnectorState.failed status now =
    record (verdict status now HealthStatus.unhealthy (text "connector.state == FAILED")) {
      trace = status.trace;
    }
evaluate_state ConnectorState.paused status now =
    verdict status now HealthStatus.healthy (text "connector.state == PAUSED (alert only)")
evaluate_state ConnectorState.unassigned status now =
    verdict status now HealthStatus.healthy (text "connector.state == UNASSIGNED (alert only)")
evaluate_state ConnectorState.stopped status now =
    verdict status now HealthStatus.stopped (text "connector.state == STOPPED")
evaluate_state ConnectorState.running status now = evaluate_running status now

-- `_evaluate`; `now` is the default of `checked_at`.
unfoldable pub evaluate : ConnectorStatus → Time → HealthResult
unfolding evaluate_state
evaluate status now = evaluate_state status.state status now

module _ (env : Env) (circuit_cooldown : ℕ) where
  -- What `check` does with the status.
  unfoldable pub check_result : Text → Option ConnectorStatus → M (Option HealthResult)
  check_result name none = do
    now ← utc_now env
    pure (
        some (record {
          connector_name = name;
          status = HealthStatus.not_created;
          reason = text "Connector not found (404) - waiting for initial creation";
          failed_task_ids = [];
          trace = none;
          checked_at = now;
        }))
  check_result name (some status) = do now ← utc_now env; pure (some (evaluate status now))

  -- `none` is Kafka Connect out of reach. Only the status request is inside the `try`.
  unfoldable pub check : Text → M (Option HealthResult)
  check name = do
    status ← catch (do s ← get_status env circuit_cooldown name; pure (some s)) (λ x. pure none)
    elim status [ none ↦ pure none | some s ↦ check_result name s ]
