-- ===== src/Client/Payload.antt =====
-- `ConnectorStatus.from_api_response` of src/self_healthy_kafka/domain/models.py. A payload of
-- another shape than the REST API documents raises.
use self_healing_kafka_syste.Base.{ℕ, Option, none, some, List, [], ◌∷◌, if◌then◌else◌}
use self_healing_kafka_syste.Base.Text.{Text, text_eq}
use self_healing_kafka_syste.Domain.{ConnectorState, ConnectorStatus, TaskStatus}
use self_healing_kafka_syste.Domain.Json.{
  Value, Items, Fields, nil, cons, null, num, str, arr, obj, get,
}
use self_healing_kafka_syste.Effect.Exn.{ExnKind, Result, ok, raised, text}

abbrev pub bad_payload : {A : Type 0} → Result A
bad_payload = raised (record { kind = ExnKind.bad_payload; message = text "bad payload" })

infixl 10 ◌>>=◌
abbrev ◌>>=◌ : {A B : Type 0} → Result A → (A → Result B) → Result B
ok a >>= f = f a
raised x >>= f = raised x

abbrev as_number : Option Value → Result ℕ
as_number (some (num n)) = ok n
as_number _ = bad_payload

abbrev as_text : Option Value → Result Text
as_text (some (str s)) = ok s
as_text _ = bad_payload

abbrev as_object : Option Value → Result Fields
as_object (some (obj fs)) = ok fs
as_object _ = bad_payload

-- `data.get("trace")`.
abbrev as_optional_text : Option Value → Result (Option Text)
as_optional_text none = ok none
as_optional_text (some null) = ok none
as_optional_text (some (str s)) = ok (some s)
as_optional_text _ = bad_payload

-- `data.get("tasks", [])`.
abbrev as_items : Option Value → Result Items
as_items none = ok nil
as_items (some (arr vs)) = ok vs
as_items _ = bad_payload

-- `ConnectorState(value)`, which raises on another text.
unfoldable pub connector_state : Text → Result ConnectorState
connector_state s =
    if text_eq s (text "RUNNING")
    then ok ConnectorState.running
    else if text_eq s (text "FAILED")
    then ok ConnectorState.failed
    else if text_eq s (text "PAUSED")
    then ok ConnectorState.paused
    else if text_eq s (text "STOPPED")
    then ok ConnectorState.stopped
    else if text_eq s (text "UNASSIGNED")
    then ok ConnectorState.unassigned
    else raised (record { kind = ExnKind.value_error; message = s })

unfoldable pub task_status : Value → Result TaskStatus
unfolding get
task_status t = do
  fs ← as_object (some t)
  id ← as_number (get "id" fs)
  state ← as_text (get "state" fs)
  trace ← as_optional_text (get "trace" fs)
  ok (record { id = id; state = state; trace = trace })

unfoldable pub task_statuses : Items → Result (List TaskStatus)
unfolding task_status
task_statuses nil = ok []
task_statuses (cons t ts) = do task ← task_status t; tasks ← task_statuses ts; ok (task ∷ tasks)

unfoldable pub from_api_response : Value → Result ConnectorStatus
unfolding task_statuses connector_state get
from_api_response payload = do
  fs ← as_object (some payload)
  items ← as_items (get "tasks" fs)
  tasks ← task_statuses items
  name ← as_text (get "name" fs)
  connector ← as_object (get "connector" fs)
  state_text ← as_text (get "state" connector)
  state ← connector_state state_text
  trace ← as_optional_text (get "trace" connector)
  ok (record { name = name; state = state; tasks = tasks; trace = trace })
