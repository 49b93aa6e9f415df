-- ===== src/Effect/World.antt =====
-- The state that the engine changes, and the environment that it consults. Every question to the
-- environment has a number of its own, so that its answers may change freely over time.
use self_healing_kafka_syste.Base.{ℕ, Bool, Option, List}
use self_healing_kafka_syste.Base.Text.{Text}
use self_healing_kafka_syste.Domain.{Time, QueueId, HealingMode, EventType}
use self_healing_kafka_syste.Domain.Json.{Value, Fields}
use self_healing_kafka_syste.Effect.Exn.{Exn}

-- One call of the Kafka Connect REST API: a method and a path, with what goes along.
pub data Request : Type 0 where
  list_connectors : Request
  status config offsets stop resume delete : Text → Request
  restart : Text → Bool → Request
  create : Text → Fields → Option Text → Request
  patch_offsets : Text → Fields → Request

-- `body` is `none` where the body is no JSON.
pub record Response : Type 0 where
  pub status : ℕ
  pub body : Option Value

pub data Reply : Type 0 where
  response : Response → Reply
  failed : Exn → Reply

-- A request with what came back.
pub record Exchange : Type 0 where
  pub request : Request
  pub reply : Reply

-- How a call of the database ends: done, or with an exception, before or after the commit.
pub data Outcome : Type 0 where
  done : Outcome
  lost : Exn → Outcome
  uncertain : Exn → Outcome

pub record Env : Type 0 where
  pub http : ℕ → Request → Reply
  pub database : ℕ → Outcome
  pub wall_clock : ℕ → Time
  pub monotonic : ℕ → Time
  pub database_clock : ℕ → Time
  pub new_id : ℕ → QueueId
  pub same_name : Text → Text → Bool  -- the database's collation
  pub repr : Value → Text  -- `str()` of a list or a dict
  pub redact_text : Text → Text  -- `redact_text` of redaction.py
  pub redact : Fields → Fields  -- `redact` of redaction.py

pub data QueueStatus : Type 0 where
  pending processing waiting completed escalated : QueueStatus

pub data FinalOutcome : Type 0 where
  recovered failed escalated : FinalOutcome

-- A row of `ConnectorHealingQueue`.
pub record QueueRow : Type 0 where
  pub queue_id : QueueId
  pub root_connector_name : Text
  pub current_connector_name : Text
  pub connector_class : Option Value
  pub healing_mode : HealingMode
  pub queue_status : QueueStatus
  pub final_outcome : Option FinalOutcome
  pub received_at : Time
  pub started_at : Option Time
  pub completed_at : Option Time
  pub next_attempt_at : Option Time

pub data Severity : Type 0 where
  info warning error critical : Severity

-- A row of `ConnectorHealingLogs`.
pub record LogRow : Type 0 where
  pub queue_id : QueueId
  pub connector_name : Text
  pub event_type : EventType
  pub attempt_no : Option ℕ
  pub healing_step : Option ℕ
  pub severity : Severity
  pub message : Text
  pub details : Fields
  pub created_at : Time

-- `_circuit_open_until` (zero is closed) and `_circuit_half_open` of the client.
pub record Circuit : Type 0 where
  pub open_until : Time
  pub half_open : Bool

-- `trace` has the HTTP exchanges and `logs` the log rows, the newest first; `queue`
-- is in the order of insertion. The rest is the memory of the process.
pub record World : Type 0 where
  pub steps : ℕ
  pub trace : List Exchange
  pub queue : List QueueRow
  pub logs : List LogRow
  pub circuit : Circuit
  pub healthy_since : List (QueueId × Time)
  pub uncertain_actions : List QueueId
  pub locks : List Text
