-- ===== src/Machine/Quarantine.antt =====
-- The quarantine of db_state_machine.py: `_execute_decision` and `_quarantine_uncertain_action`.
use self_healing_kafka_syste.Base.{Bool, true, false, List, ◌∷◌, ◌≡◌, refl, arith, if◌then◌else◌}
use self_healing_kafka_syste.Domain.{
  QueueId, RecoveryDecision, ConnectorJob, HealthResult, Settings,
}
use self_healing_kafka_syste.Effect.Exn.{Exn, Result, ok, raised}
use self_healing_kafka_syste.Effect.World.{Env, World, FinalOutcome, LogRow}
use self_healing_kafka_syste.Effect.Monad.{M, catch, handle, modify, ◌>>=◌, ◌>>◌}
use self_healing_kafka_syste.Effect.Keeps.{
  Keeps, Keeps-raise, Keeps-gets, Keeps-if, Keeps-bind, Keeps-utc_now, Keeps-execute, Survives,
  Survives-bind, Survives-modify,
}
use self_healing_kafka_syste.Store.Queue.{complete}
use self_healing_kafka_syste.Store.Logs.{Entry, insert_log, record_connector_log}
use self_healing_kafka_syste.Machine.Memory.{is_member, mark_uncertain, discard_uncertain}
use self_healing_kafka_syste.Machine.Dispatch.{
  quarantine_uncertain_action, dispatch_decision, execute_decision,
}

abbrev part : World → List QueueId
part w = w.uncertain_actions

abbrev pub Marked : QueueId → World → Type 0
Marked id w = is_member id w.uncertain_actions ≡ true

insert_log-part : (l : LogRow) (w : World) → part (insert_log l w) ≡ part w
unfolding insert_log
insert_log-part l w = by_test _
  where
    by_test : (b : Bool) → part (if b then w else record w { logs = l ∷ w.logs }) ≡ part w
    by_test true = refl
    by_test false = refl

module _ (env : Env) where
  Keeps-record_connector_log : (e : Entry) → Keeps part (record_connector_log env e)
  unfolding record_connector_log
  Keeps-record_connector_log e = Keeps-bind (Keeps-gets _) λ found.
      Keeps-if found (Keeps-execute env (λ w. refl) _ (λ w. insert_log-part _ w))
        (Keeps-bind (Keeps-execute env (λ w. refl) _ (λ w. refl)) λ _. Keeps-raise _)

  Keeps-complete : (id : QueueId) (o : FinalOutcome) → Keeps part (complete env id o)
  unfolding complete
  Keeps-complete id o =
      Keeps-bind (Keeps-utc_now env (λ w. refl)) λ now. Keeps-execute env (λ w. refl) _ (λ w. refl)

module _ (id : QueueId) where
  kept : {A : Type 0} {m : M A} → Keeps part m → (w : World) → Marked id w → Marked id (m w).1
  kept k w h = rw (k.at w) h

  is_member-cons : (ids : List QueueId) → is_member id (id ∷ ids) ≡ true
  unfolding is_member
  is_member-cons ids = ground arith

  mark_uncertain-Marked : (w : World) → Marked id (mark_uncertain id w).1
  unfolding mark_uncertain
  mark_uncertain-Marked w = by_test (is_member id w.uncertain_actions) refl
    where
      by_test :
          (b : Bool)
          → is_member id w.uncertain_actions ≡ b
          → is_member id (
              if is_member id w.uncertain_actions
              then w.uncertain_actions
              else id ∷ w.uncertain_actions)
            ≡ true
      by_test true e = rw (e) e
      by_test false e = rw (e) (is_member-cons w.uncertain_actions)

module _ (env : Env) (settings : Settings) where
  quarantine-Survives :
      (job : ConnectorJob) → Survives (Marked job.id) (quarantine_uncertain_action env settings job)
  unfolding quarantine_uncertain_action discard_uncertain
  quarantine-Survives job =
      Survives-bind _ (kept job.id (Keeps-record_connector_log env _))
        λ _. Survives-bind _ (kept job.id (Keeps-complete env _ _)) λ _. Survives-modify _

  marking : ConnectorJob → M (Unit {0})
  marking job = do mark_uncertain job.id; quarantine_uncertain_action env settings job

  marking-Marked :
      (job : ConnectorJob) (w : World) (x : Exn)
      → (marking job w).0 ≡ raised x
      → Marked job.id (marking job w).1
  unfolding marking ◌>>=◌ mark_uncertain modify
  marking-Marked job w x e =
      (quarantine-Survives job).at (mark_uncertain job.id w).1 (mark_uncertain-Marked job.id w) x e

  -- When executing a decision raises an exception, the row is among the uncertain actions at its end.
  pub execute_decision-Marked :
      (job : ConnectorJob) (result : HealthResult) (d : RecoveryDecision) (w : World) (x : Exn)
      → (execute_decision env settings job result d w).0 ≡ raised x
      → Marked job.id (execute_decision env settings job result d w).1
  unfolding execute_decision catch marking
  execute_decision-Marked job result d w x =
      by_result (dispatch_decision env settings job result d w).0
        (dispatch_decision env settings job result d w).1
    where
      by_result :
          (r : Result (Unit {0})) (w' : World)
          → (handle r (λ y. marking job) w').0 ≡ raised x
          → Marked job.id (handle r (λ y. marking job) w').1
      by_result (ok tt) w' e = cc
      by_result (raised y) w' e = marking-Marked job w' x e
