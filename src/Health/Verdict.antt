-- ===== src/Health/Verdict.antt =====
-- When the checker calls a connector unhealthy.
use self_healing_kafka_syste.Base.{
  ℕ, Bool, true, false, List, [], ◌∷◌, ◌≡◌, refl, inl, inr, ap, sym, ◌∙◌, if◌then◌else◌, keep_if,
  is_empty, not, map, Bool-cases,
}
use self_healing_kafka_syste.Domain.{
  Time, ConnectorState, ConnectorStatus, TaskStatus, HealthStatus,
}
use self_healing_kafka_syste.Base.Text.{text_eq}
use self_healing_kafka_syste.Effect.Exn.{text}
use self_healing_kafka_syste.Health.{is_failed_task, evaluate, evaluate_state, evaluate_running}

unfoldable pub is_unhealthy : HealthStatus → Bool
is_unhealthy HealthStatus.unhealthy = true
is_unhealthy _ = false

-- The one state of a task that is no failure.
abbrev pub task_runs : TaskStatus → Bool
task_runs t = text_eq t.state (text "RUNNING")

-- Some task does not run.
abbrev pub some_task_down : List TaskStatus → Bool
some_task_down [] = false
some_task_down (t ∷ ts) = if task_runs t then some_task_down ts else true

-- The ids of the tasks that do not run, in their order.
abbrev pub ids_of_tasks_down : List TaskStatus → List ℕ
ids_of_tasks_down [] = []
ids_of_tasks_down (t ∷ ts) =
    let rest = ids_of_tasks_down ts in if task_runs t then rest else t.id ∷ rest

some_task_down-keep_if :
    (ts : List TaskStatus) → some_task_down ts ≡ not (is_empty (keep_if is_failed_task ts))
unfolding is_failed_task
some_task_down-keep_if [] = refl
some_task_down-keep_if (t ∷ ts) = elim (Bool-cases (task_runs t)) [
  | inl e ↦ rw (e) (some_task_down-keep_if ts)
  | inr e ↦ rw (e)
]

ids_of_tasks_down-keep_if :
    (ts : List TaskStatus)
    → ids_of_tasks_down ts ≡ map (λ (t : TaskStatus). t.id) (keep_if is_failed_task ts)
unfolding is_failed_task
ids_of_tasks_down-keep_if [] = refl
ids_of_tasks_down-keep_if (t ∷ ts) = elim (Bool-cases (task_runs t)) [
  | inl e ↦ rw (e) (ids_of_tasks_down-keep_if ts)
  | inr e ↦ rw (e) (ap (λ is. t.id ∷ is) (ids_of_tasks_down-keep_if ts))
]

running_unhealthy :
    (s : ConnectorStatus) (now : Time)
    → is_unhealthy (evaluate_running s now).status ≡ some_task_down s.tasks
unfolding evaluate_running is_unhealthy
running_unhealthy s now = elim (Bool-cases (is_empty (keep_if is_failed_task s.tasks))) [
  | inl e ↦ rw (some_task_down-keep_if s.tasks, e)
  | inr e ↦ rw (some_task_down-keep_if s.tasks, e)
]

running_failed_task_ids :
    (s : ConnectorStatus) (now : Time)
    → (evaluate_running s now).failed_task_ids ≡ ids_of_tasks_down s.tasks
unfolding evaluate_running
running_failed_task_ids s now =
    by_empty (keep_if is_failed_task s.tasks) refl ∙ sym (ids_of_tasks_down-keep_if s.tasks)
  where
    by_empty :
        (ts : List TaskStatus)
        → keep_if is_failed_task s.tasks ≡ ts
        → (evaluate_running s now).failed_task_ids
          ≡ map (λ (t : TaskStatus). t.id) (keep_if is_failed_task s.tasks)
    by_empty [] e = rw (e)
    by_empty (t ∷ ts) e = rw (e)

-- The rule, next to the code: the connector itself has failed, or it runs with a task that does not.
abbrev pub is_broken : ConnectorState → List TaskStatus → Bool
is_broken ConnectorState.failed tasks = true
is_broken ConnectorState.running tasks = some_task_down tasks
is_broken _ tasks = false

abbrev pub failed_ids : ConnectorState → List TaskStatus → List ℕ
failed_ids ConnectorState.running tasks = ids_of_tasks_down tasks
failed_ids _ tasks = []

-- A connector is unhealthy exactly when its state is `FAILED`, or when it is `RUNNING` and some task is
-- not; a connector that is paused, unassigned or stopped never is.
pub evaluate-is_broken :
    (s : ConnectorStatus) (now : Time)
    → is_unhealthy (evaluate s now).status ≡ is_broken s.state s.tasks
unfolding evaluate is_unhealthy
evaluate-is_broken s now = by_state s.state
  where
    by_state :
        (t : ConnectorState) → is_unhealthy (evaluate_state t s now).status ≡ is_broken t s.tasks
    by_state ConnectorState.running = running_unhealthy s now
    by_state ConnectorState.failed = refl
    by_state ConnectorState.paused = refl
    by_state ConnectorState.stopped = refl
    by_state ConnectorState.unassigned = refl

-- The failed tasks of the verdict are those that do not run, in the order of the status, when the
-- connector itself runs, and none otherwise.
pub evaluate-failed_task_ids :
    (s : ConnectorStatus) (now : Time)
    → (evaluate s now).failed_task_ids ≡ failed_ids s.state s.tasks
unfolding evaluate evaluate_running
evaluate-failed_task_ids s now = by_state s.state
  where
    by_state :
        (t : ConnectorState) → (evaluate_state t s now).failed_task_ids ≡ failed_ids t s.tasks
    by_state ConnectorState.running = running_failed_task_ids s now
    by_state ConnectorState.failed = refl
    by_state ConnectorState.paused = refl
    by_state ConnectorState.stopped = refl
    by_state ConnectorState.unassigned = refl
