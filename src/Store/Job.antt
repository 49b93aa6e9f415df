-- ===== src/Store/Job.antt =====
-- Reading jobs: `spGetConnectorHealingQueue`, `spEnqueueConnectorHealing` and `_hydrate_queue_row`.
use self_healing_kafka_syste.Base.{
  ℕ, Bool, true, false, ◌&&◌, ◌||◌, not, Option, none, some, List, [], ◌∷◌, ◌++◌, ltb, leb, ◌==◌,
  if◌then◌else◌, all, is_empty, keep_if,
}
use self_healing_kafka_syste.Base.Text.{Text}
use self_healing_kafka_syste.Base.Decimal.{is_digit, read_decimal}
use self_healing_kafka_syste.Domain.{Time, QueueId, EventType, Phase, HealingMode, ConnectorJob}
use self_healing_kafka_syste.Domain.Json.{
  Value, Items, Fields, nil, cons, null, bool, num, str, arr, end, truthy, get, keep_truthy,
}
use self_healing_kafka_syste.Effect.Exn.{ExnKind, Result, ok, raised, text}
use self_healing_kafka_syste.Effect.World.{Env, World, LogRow, QueueRow, QueueStatus}
use self_healing_kafka_syste.Effect.Monad.{M, execute, query, lift, gets, pure, ◌>>=◌, ◌>>◌}
use self_healing_kafka_syste.Store.Queue.{is_open}
use self_healing_kafka_syste.Store.Logs.{
  is_confirmation, is_observation, is_task_restart, is_connector_restart, is_with_offset,
  is_with_offset_timeout, is_without_offset, logs_of, count_events, latest,
}

-- `_derive_phase` with `PHASE_BY_EVENT`.
unfoldable pub derive_phase : Option EventType → Phase
derive_phase (some EventType.task_restart) = Phase.task_restarting
derive_phase (some EventType.connector_restart) = Phase.connector_restarting
derive_phase (some EventType.connector_recreate_with_offset) = Phase.recreate_with_offset_verifying
derive_phase (some EventType.connector_recreate_with_offset_timeout) =
    Phase.recreate_with_offset_failed
derive_phase (some EventType.connector_recreate_with_offset_failed) =
    Phase.recreate_with_offset_failed
derive_phase (some EventType.connector_recreate_without_offset) =
    Phase.recreate_without_offset_verifying
derive_phase (some EventType.connector_recreate_without_offset_failed) =
    Phase.recreate_without_offset_failed
derive_phase (some EventType.healing_escalated) = Phase.escalated
derive_phase (some EventType.healing_level_limit_reached) = Phase.escalated
derive_phase _ = Phase.failed_debounce

abbrev value_error : {A : Type 0} → Result A
value_error =
    raised (record { kind = ExnKind.value_error; message = text "invalid literal for int()" })

-- `int(task_id)`.
abbrev as_int : Value → Result ℕ
as_int (num n) = ok n
as_int (bool b) = ok (if b then 1 else 0)
as_int (str s) = if all is_digit s && not (is_empty s) then ok (read_decimal s) else value_error
as_int _ = value_error

abbrev join_int : Result ℕ → Result (List ℕ) → Result (List ℕ)
join_int (ok n) (ok ns) = ok (n ∷ ns)
join_int (raised x) _ = raised x
join_int (ok n) (raised x) = raised x

unfoldable pub ints_of : Items → Result (List ℕ)
ints_of nil = ok []
ints_of (cons null vs) = ints_of vs
ints_of (cons v vs) = let rest = ints_of vs in join_int (as_int v) rest

-- `_latest_task_ids`.
unfoldable pub latest_task_ids : Fields → Result (List ℕ)
latest_task_ids details = elim (keep_truthy (get "task_ids" details)) [
  | none ↦ ok []
  | some v ↦ elim v [ arr vs ↦ ints_of vs | _ ↦ value_error ]
]

abbrev truthy_at : Option Value → Bool
truthy_at none = false
truthy_at (some v) = truthy v

abbrev pub recovery_level : HealingMode → ℕ
recovery_level HealingMode.recovery = 4
recovery_level HealingMode.restart_only = 2

abbrev event_of : Option LogRow → Option EventType
event_of none = none
event_of (some l) = some l.event_type

abbrev time_of : Option LogRow → Option Time
time_of none = none
time_of (some l) = some l.created_at

abbrev details_of : Option LogRow → Fields
details_of none = end
details_of (some l) = l.details

-- A row of the result of `spGetConnectorHealingQueue`, hydrated, but for the task ids.
unfoldable pub job_of_row : List LogRow → QueueRow → List ℕ → ConnectorJob
job_of_row logs r task_ids =
    let last = latest (logs_of r.queue_id logs) in
    record {
      id = r.queue_id;
      connector_name = r.current_connector_name;
      healing_mode = some r.healing_mode;
      level = recovery_level r.healing_mode;
      active_config = none;
      failed_count = count_events is_observation r.queue_id logs;
      failure_confirmed = ltb 0 (count_events is_confirmation r.queue_id logs);
      failed_connector = false;
      failed_task = truthy_at (get "task_ids" (details_of last));
      active_incident_id = some r.queue_id;
      latest_event_type = event_of last;
      latest_event_at = time_of last;
      latest_event_details = details_of last;
      latest_has_next_step = some (is_open r.queue_status);
      current_phase = derive_phase (event_of last);
      task_restart_count = count_events is_task_restart r.queue_id logs;
      connector_restart_count = count_events is_connector_restart r.queue_id logs;
      recreate_with_offset_count = count_events is_with_offset r.queue_id logs;
      recreate_with_offset_timeout_count = count_events is_with_offset_timeout r.queue_id logs;
      recreate_without_offset_count = count_events is_without_offset r.queue_id logs;
      last_failed_task_ids = task_ids;
    }

unfoldable pub hydrate : List LogRow → QueueRow → Result ConnectorJob
hydrate logs r = elim (latest_task_ids (details_of (latest (logs_of r.queue_id logs)))) [
  | ok task_ids ↦ ok (job_of_row logs r task_ids)
  | raised x ↦ raised x
]

abbrev join_job : Result ConnectorJob → Result (List ConnectorJob) → Result (List ConnectorJob)
join_job (ok j) (ok js) = ok (j ∷ js)
join_job (raised x) _ = raised x
join_job (ok j) (raised x) = raised x

unfoldable pub hydrate_all : List LogRow → List QueueRow → Result (List ConnectorJob)
unfolding hydrate
hydrate_all logs [] = ok []
hydrate_all logs (r ∷ rs) = let rest = hydrate_all logs rs in join_job (hydrate logs r) rest

-- `order by q.[ReceivedAt]`, stable.
unfoldable pub insert_by_received : QueueRow → List QueueRow → List QueueRow
insert_by_received r [] = r ∷ []
insert_by_received r (s ∷ rs) =
    if leb r.received_at s.received_at then r ∷ s ∷ rs else s ∷ insert_by_received r rs

unfoldable pub sort_by_received : List QueueRow → List QueueRow
unfolding insert_by_received
sort_by_received [] = []
sort_by_received (r ∷ rs) = insert_by_received r (sort_by_received rs)

-- `[NextAttemptAt] is null or [NextAttemptAt] <= sysdatetimeoffset()`.
abbrev is_due : Time → Option Time → Bool
is_due now none = true
is_due now (some t) = leb t now

-- The job of the row that `spEnqueueConnectorHealing` returns: its result set has no level, no
-- log columns and no counts, so the fields of `ConnectorJob` keep their defaults.
unfoldable pub job_of_new_row : QueueRow → ConnectorJob
job_of_new_row r = record {
  id = r.queue_id;
  connector_name = r.current_connector_name;
  healing_mode = some r.healing_mode;
  level = 1;
  active_config = none;
  failed_count = 0;
  failure_confirmed = false;
  failed_connector = false;
  failed_task = false;
  active_incident_id = some r.queue_id;
  latest_event_type = none;
  latest_event_at = none;
  latest_event_details = end;
  latest_has_next_step = none;
  current_phase = Phase.failed_debounce;
  task_restart_count = 0;
  connector_restart_count = 0;
  recreate_with_offset_count = 0;
  recreate_with_offset_timeout_count = 0;
  recreate_without_offset_count = 0;
  last_failed_task_ids = [];
}

module _ (env : Env) where
  abbrev selects_id : Option QueueId → QueueRow → Bool
  selects_id none r = true
  selects_id (some id) r = r.queue_id == id

  abbrev selects_name : Option Text → QueueRow → Bool
  selects_name none r = true
  selects_name (some name) r =
      env.same_name r.current_connector_name name || env.same_name r.root_connector_name name

  -- `spGetConnectorHealingQueue`.
  unfoldable pub select_rows : Option QueueId → Option Text → Bool → Bool → World → List QueueRow
  select_rows id name open_only due_only w = sort_by_received (
      keep_if
        (λ (r : QueueRow).
          selects_id id r
          && selects_name name r
          && (not open_only || is_open r.queue_status)
          && (not due_only || is_due (env.database_clock w.steps) r.next_attempt_at))
        w.queue)

  unfoldable pub get_queue_items :
      Option QueueId → Option Text → Bool → Bool → M (List ConnectorJob)
  get_queue_items id name due_only open_only = do
    found ← query env (λ w. hydrate_all w.logs (select_rows id name open_only due_only w))
    lift found

  abbrev head : List ConnectorJob → Option ConnectorJob
  head [] = none
  head (j ∷ js) = some j

  unfoldable pub list_connectors : M (List ConnectorJob)
  list_connectors = get_queue_items none none true true

  unfoldable pub get_connector : Text → M (Option ConnectorJob)
  get_connector name = do jobs ← get_queue_items none (some name) false true; pure (head jobs)

  unfoldable pub get_connector_by_id : QueueId → M (Option ConnectorJob)
  get_connector_by_id id = do jobs ← get_queue_items (some id) none false true; pure (head jobs)

  -- The open row of a root name.
  unfoldable pub find_open : Text → List QueueRow → Option QueueRow
  find_open root [] = none
  find_open root (r ∷ rs) =
      if env.same_name r.root_connector_name root && is_open r.queue_status
      then some r
      else find_open root rs

  unfoldable pub new_row : Text → Text → Option Value → HealingMode → ℕ → QueueRow
  new_row root current connector_class mode step = record {
    queue_id = env.new_id step;
    root_connector_name = root;
    current_connector_name = current;
    connector_class = connector_class;
    healing_mode = mode;
    queue_status = QueueStatus.pending;
    final_outcome = none;
    received_at = env.database_clock step;
    started_at = none;
    completed_at = none;
    next_attempt_at = none;
  }

  -- `spEnqueueConnectorHealing`, with the row that it returns.
  unfoldable pub enqueue_row : Text → Text → Option Value → HealingMode → World → QueueRow × World
  enqueue_row root current connector_class mode w = elim (find_open root w.queue) [
    | some r ↦ (r, w)
    | none ↦
        let r = new_row root current connector_class mode w.steps in
        (r, record w { queue = w.queue ++ (r ∷ []) })
  ]

  unfoldable pub enqueue_connector : Text → Text → Option Value → HealingMode → M ConnectorJob
  enqueue_connector root current connector_class mode = do
    row ← gets (λ w.
        (enqueue_row root current connector_class mode (record w { steps = ℕ.suc w.steps })).0)
    execute env (λ w. (enqueue_row root current connector_class mode w).1)
    pure (job_of_new_row row)
