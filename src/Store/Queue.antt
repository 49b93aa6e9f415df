-- ===== src/Store/Queue.antt =====
-- `MssqlConnectorRepository`: the changes of queue rows.
use self_healing_kafka_syste.Base.{
  Bool, true, false, none, some, List, [], ◌∷◌, ◌==◌, if◌then◌else◌, or_else,
}
use self_healing_kafka_syste.Base.Text.{Text}
use self_healing_kafka_syste.Domain.{Time, QueueId}
use self_healing_kafka_syste.Effect.World.{Env, World, QueueRow, QueueStatus, FinalOutcome}
use self_healing_kafka_syste.Effect.Monad.{M, execute, utc_now, ◌>>=◌}

-- `[QueueStatus] in ('PENDING', 'PROCESSING', 'WAITING')`.
unfoldable pub is_open : QueueStatus → Bool
is_open QueueStatus.completed = false
is_open QueueStatus.escalated = false
is_open _ = true

-- `set … where [QueueId] = @queueid`.
unfoldable pub update_rows : QueueId → (QueueRow → QueueRow) → List QueueRow → List QueueRow
update_rows id f [] = []
update_rows id f (r ∷ rs) = (if r.queue_id == id then f r else r) ∷ update_rows id f rs

abbrev pub update_queue : QueueId → (QueueRow → QueueRow) → World → World
update_queue id f w = record w { queue = update_rows id f w.queue }

module _ (env : Env) where
  -- `update_queue_fields(queue_id, current_connector_name=…)`.
  unfoldable pub set_current_name : QueueId → Text → M (Unit {0})
  set_current_name id name =
      execute env (update_queue id (λ r. record r { current_connector_name = name }))

  -- The procedure keeps an earlier `StartedAt`.
  unfoldable pub start_processing : QueueId → M (Unit {0})
  start_processing id = do
    now ← utc_now env
    execute env (
        update_queue id (λ r. record r {
          queue_status = QueueStatus.processing;
          started_at = some (or_else r.started_at now);
        }))

  unfoldable pub wait_for_next_attempt : QueueId → Time → M (Unit {0})
  wait_for_next_attempt id next_attempt_at = execute env (
      update_queue id (λ r. record r {
        queue_status = QueueStatus.waiting;
        next_attempt_at = some next_attempt_at;
      }))

  abbrev pub closing_status : FinalOutcome → QueueStatus
  closing_status FinalOutcome.escalated = QueueStatus.escalated
  closing_status _ = QueueStatus.completed

  unfoldable pub complete : QueueId → FinalOutcome → M (Unit {0})
  complete id outcome = do
    now ← utc_now env
    execute env (
        update_queue id (λ r. record r {
          queue_status = closing_status outcome;
          final_outcome = some outcome;
          completed_at = some now;
          next_attempt_at = none;
        }))
