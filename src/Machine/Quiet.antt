-- ===== src/Machine/Quiet.antt =====
-- `_process_job`, `_process_job_safely`, `tick` and `process_connector` of db_state_machine.py:
-- waits, locks, and what a round leaves of the past.
use self_healing_kafka_syste.Base.{
  Bool, true, false, some, ltb, ◌≡◌, refl, ◌⊎◌, inl, inr, if◌then◌else◌,
}
use self_healing_kafka_syste.Base.Text.{Text}
use self_healing_kafka_syste.Domain.{Time, ConnectorJob, Settings}
use self_healing_kafka_syste.Effect.World.{Env, World, Request, FinalOutcome}
use self_healing_kafka_syste.Effect.Monad.{◌>>=◌, ◌>>◌, pure, gets, utc_now}
use self_healing_kafka_syste.Effect.Does.{Does, Extends, Extends-tick, Does-pure, Does-bind}
use self_healing_kafka_syste.Policy.{terminal_events}
use self_healing_kafka_syste.Store.Queue.{complete}
use self_healing_kafka_syste.Store.StoreDoes.{Does-complete}
use self_healing_kafka_syste.Machine.Memory.{is_member, is_uncertain, action_wait_until}
use self_healing_kafka_syste.Machine.Quarantine.{Marked}
use self_healing_kafka_syste.Machine.Dispatch.{quarantine_uncertain_action}
use self_healing_kafka_syste.Machine.MachineDoes.{Does-quarantine}
use self_healing_kafka_syste.Machine.Process.{by_wait, wait_or_check, process_job}
use self_healing_kafka_syste.Machine.DiscoveryDoes.{Does-tick, Does-process_connector}
use self_healing_kafka_syste.Machine.Discovery
use self_healing_kafka_syste.Machine.Discovery.{process_connector}

module _ (env : Env) (settings : Settings) where
  -- The row is not to be worked on: its last action is uncertain, its latest event is terminal, or the
  -- wait after its latest action is not over.
  abbrev pub Idle : ConnectorJob → World → Type 0
  Idle job w =
      Marked job.id w
      ⊎ ((terminal_events job.latest_event_type ≡ true)
          ⊎ ((until : Time) × (action_wait_until settings job ≡ some until)
              × (ltb (env.wall_clock w.steps) until ≡ true)))

  module _ (job : ConnectorJob) (b : Bool) where
    stops :
        {P : Request → Type 0}
        → Does P (do quarantine_uncertain_action env settings job; pure false)
    stops = Does-bind (Does-quarantine env settings job) λ _. Does-pure false

    closes :
        {P : Request → Type 0} → Does P (do complete env job.id FinalOutcome.escalated; pure false)
    closes = Does-bind (Does-complete env _ _) λ _. Does-pure false

    waits :
        (w : World) (until : Time)
        → ltb (env.wall_clock w.steps) until ≡ true
        → Extends (λ r. ⊥) w (by_wait env settings job b (some until) w).1
    unfolding ◌>>=◌ utc_now pure
    waits w until h = rw (h) (Extends-tick env w)

    unmarked :
        (w : World)
        → (terminal_events job.latest_event_type ≡ true)
          ⊎ ((until : Time) × (action_wait_until settings job ≡ some until)
              × (ltb (env.wall_clock w.steps) until ≡ true))
        → Extends
            (λ r. ⊥)
            w
            ((if terminal_events job.latest_event_type
                then (do complete env job.id FinalOutcome.escalated; pure false)
                else wait_or_check env settings job b)
              w).1
    unfolding wait_or_check
    unmarked w (inl e) = rw (e) (closes.at w)
    unmarked w (inr (until, e, h)) = by_terminal (terminal_events job.latest_event_type)
      where
        by_terminal :
            (t : Bool)
            → Extends
                (λ r. ⊥)
                w
                ((if t
                    then (do complete env job.id FinalOutcome.escalated; pure false)
                    else wait_or_check env settings job b)
                  w).1
        by_terminal true = closes.at w
        by_terminal false = rw (e) (waits w until h)

    by_mark :
        (w : World) (m : Bool)
        → is_member job.id w.uncertain_actions ≡ m
        → Idle job w
        → Extends
            (λ r. ⊥)
            w
            ((if m
                then (do quarantine_uncertain_action env settings job; pure false)
                else if terminal_events job.latest_event_type
                then (do complete env job.id FinalOutcome.escalated; pure false)
                else wait_or_check env settings job b)
              w).1
    by_mark w true e h = stops.at w
    by_mark w false e (inl h) = cc
    by_mark w false e (inr h) = unmarked w h

    -- Processing a row whose last action is uncertain, whose latest event is terminal, or whose wait is
    -- not over, asks Kafka Connect for nothing.
    pub process_job-Quiet :
        (w : World) → Idle job w → Extends (λ r. ⊥) w (process_job env settings job b w).1
    unfolding process_job ◌>>=◌ is_uncertain gets
    process_job-Quiet w h = by_mark w (is_member job.id w.uncertain_actions) refl h

  -- A round of the engine adds to the requests and to the logs, takes nothing back, and holds no more
  -- locks at its end than at its start, whatever fails on its way.
  pub tick-Extends : (w : World) → Extends (λ r. Unit {0}) w (Discovery.tick env settings w).1
  tick-Extends w = (Does-tick (λ r. tt) env settings).at w

  -- So does the processing of one connector on an alert or a follow-up.
  pub process_connector-Extends :
      (name : Text) (failure_confirmed : Bool) (w : World)
      → Extends (λ r. Unit {0}) w (process_connector env settings name failure_confirmed w).1
  process_connector-Extends name b w = (Does-process_connector (λ r. tt) env settings name b).at w
