-- ===== src/Store/Closing.antt =====
-- What `complete` of storage/connector_repository.py leaves in the queue.
use self_healing_kafka_syste.Base.{
  suc, Bool, false, ◌&&◌, List, [], ◌∷◌, ◌≡◌, refl, ◌==◌, any, Bool-cases, inl, inr, arith,
}
use self_healing_kafka_syste.Domain.{QueueId}
use self_healing_kafka_syste.Effect.World.{Env, World, QueueRow, FinalOutcome, done}
use self_healing_kafka_syste.Effect.Monad.{◌>>=◌, utc_now, execute}
use self_healing_kafka_syste.Store.Queue.{is_open, update_rows, closing_status, complete}

-- A row of that id is open.
abbrev pub has_open : QueueId → List QueueRow → Bool
has_open id rows = any (λ (r : QueueRow). r.queue_id == id && is_open r.queue_status) rows

closing_status-closed : (env : Env) (o : FinalOutcome) → is_open (closing_status env o) ≡ false
unfolding is_open
closing_status-closed env FinalOutcome.recovered = refl
closing_status-closed env FinalOutcome.failed = refl
closing_status-closed env FinalOutcome.escalated = refl

update_rows-closed :
    (id : QueueId) (f : QueueRow → QueueRow) (rows : List QueueRow)
    → ((r : QueueRow) → is_open (f r).queue_status ≡ false)
    → has_open id (update_rows id f rows) ≡ false
unfolding update_rows
update_rows-closed id f [] h = refl
update_rows-closed id f (r ∷ rs) h = elim (Bool-cases (r.queue_id == id)) [
  | inl e ↦ rw (e) (ground (arith, h r, update_rows-closed id f rs h))
  | inr e ↦ rw (e) (ground (arith, e, update_rows-closed id f rs h))
]

-- When the database carries the call out, `complete` leaves no open row of that id, whatever the outcome
-- is.
pub complete-closed :
    (env : Env) (id : QueueId) (o : FinalOutcome) (w : World)
    → env.database (suc w.steps) ≡ done
    → has_open id (complete env id o w).1.queue ≡ false
unfolding complete ◌>>=◌ utc_now execute
complete-closed env id o w e =
    rw (e, execute) (update_rows-closed id _ w.queue λ r. closing_status-closed env o)
