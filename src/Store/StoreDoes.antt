-- ===== src/Store/StoreDoes.antt =====
-- The database's methods make no HTTP request and never rewrite a log.
use self_healing_kafka_syste.Base.{
  ◌&&◌, Bool, ◌≡◌, Option, none, some, [], ◌∷◌, refl, any, inl, inr, Bool-cases, ◌==◌,
}
use self_healing_kafka_syste.Base.Text.{Text}
use self_healing_kafka_syste.Domain.{Time, QueueId, HealingMode}
use self_healing_kafka_syste.Domain.Json.{Value}
use self_healing_kafka_syste.Effect.World.{Env, World, Request, LogRow, QueueRow, FinalOutcome}
use self_healing_kafka_syste.Effect.Does.{
  Does, Extends, Extends-refl, Does-pure, Does-raise, Does-lift, Does-gets, Does-if, Does-bind,
  Does-query, Does-utc_now, Does-execute,
}
use self_healing_kafka_syste.Store.Queue.{
  update_queue, set_current_name, start_processing, wait_for_next_attempt, complete,
}
use self_healing_kafka_syste.Store.Logs.{Entry, insert_log, is_confirmation, record_connector_log}
use self_healing_kafka_syste.Store.Job.{
  get_queue_items, list_connectors, get_connector, get_connector_by_id, find_open, enqueue_row,
  enqueue_connector,
}

module _ {P : Request → Type 0} where
  Extends-update_queue :
      (id : QueueId) (f : QueueRow → QueueRow) (w : World) → Extends P w (update_queue id f w)
  Extends-update_queue id f w = record { locks = refl; trace = ([], refl, tt); logs = ([], refl) }

  Extends-insert_log : (l : LogRow) (w : World) → Extends P w (insert_log l w)
  unfolding insert_log
  Extends-insert_log l w =
      elim (Bool-cases (
        is_confirmation l.event_type
        && any (λ (m : LogRow). m.queue_id == l.queue_id && is_confirmation m.event_type) w.logs)) [
          | inl e ↦ rw (e, insert_log) (Extends-refl w)
          | inr e ↦
              rw (e, insert_log)
                (record { locks = refl; trace = ([], refl, tt); logs = (l ∷ [], refl) })
        ]

module _ {P : Request → Type 0} (env : Env) where
  pub Does-record_connector_log : (e : Entry) → Does P (record_connector_log env e)
  unfolding record_connector_log
  Does-record_connector_log e = Does-bind (Does-gets _) λ found.
      Does-if found (Does-execute env _ (λ w. Extends-insert_log _ w))
        (Does-bind (Does-execute env _ Extends-refl) λ _. Does-raise _)

  pub Does-set_current_name : (id : QueueId) (name : Text) → Does P (set_current_name env id name)
  unfolding set_current_name
  Does-set_current_name id name = Does-execute env _ (Extends-update_queue id _)

  pub Does-start_processing : (id : QueueId) → Does P (start_processing env id)
  unfolding start_processing
  Does-start_processing id =
      Does-bind (Does-utc_now env) λ now. Does-execute env _ (Extends-update_queue id _)

  pub Does-wait_for_next_attempt :
      (id : QueueId) (t : Time) → Does P (wait_for_next_attempt env id t)
  unfolding wait_for_next_attempt
  Does-wait_for_next_attempt id t = Does-execute env _ (Extends-update_queue id _)

  pub Does-complete : (id : QueueId) (o : FinalOutcome) → Does P (complete env id o)
  unfolding complete
  Does-complete id o =
      Does-bind (Does-utc_now env) λ now. Does-execute env _ (Extends-update_queue id _)

  Does-get_queue_items :
      (id : Option QueueId) (name : Option Text) (due_only open_only : Bool)
      → Does P (get_queue_items env id name due_only open_only)
  unfolding get_queue_items
  Does-get_queue_items id name due_only open_only =
      Does-bind (Does-query env _) λ found. Does-lift found

  pub Does-list_connectors : Does P (list_connectors env)
  unfolding list_connectors
  Does-list_connectors = Does-get_queue_items _ _ _ _

  pub Does-get_connector : (name : Text) → Does P (get_connector env name)
  unfolding get_connector
  Does-get_connector name = Does-bind (Does-get_queue_items _ _ _ _) λ jobs. Does-pure _

  pub Does-get_connector_by_id : (id : QueueId) → Does P (get_connector_by_id env id)
  unfolding get_connector_by_id
  Does-get_connector_by_id id = Does-bind (Does-get_queue_items _ _ _ _) λ jobs. Does-pure _

  Extends-enqueue_row :
      (root current : Text) (c : Option Value) (mode : HealingMode) (w : World)
      → Extends P w (enqueue_row env root current c mode w).1
  unfolding enqueue_row
  Extends-enqueue_row root current c mode w = by_row (find_open env root w.queue) refl
    where
      by_row :
          (o : Option QueueRow)
          → find_open env root w.queue ≡ o
          → Extends P w (enqueue_row env root current c mode w).1
      by_row none e =
          rw (e, enqueue_row) (record { locks = refl; trace = ([], refl, tt); logs = ([], refl) })
      by_row (some r) e = rw (e, enqueue_row) (Extends-refl w)

  pub Does-enqueue_connector :
      (root current : Text) (c : Option Value) (mode : HealingMode)
      → Does P (enqueue_connector env root current c mode)
  unfolding enqueue_connector
  Does-enqueue_connector root current c mode = Does-bind (Does-gets _) λ row.
      Does-bind (Does-execute env _ (Extends-enqueue_row root current c mode)) λ _. Does-pure _
