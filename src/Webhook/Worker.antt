-- ===== src/Webhook/Worker.antt =====
-- `_run_worker` of webhook/grafana.py with the healing engine as its `process_connector`, and
-- `run_health_checks` of main.py.
use self_healing_kafka_syste.Base.{
  ℕ, zero, suc, Bool, Option, none, some, List, [], ◌∷◌, if◌then◌else◌, is_empty,
}
use self_healing_kafka_syste.Base.Text.{Text}
use self_healing_kafka_syste.Domain.{Settings}
use self_healing_kafka_syste.Effect.Exn.{Result, ok, raised}
use self_healing_kafka_syste.Effect.World.{World, Env}
use self_healing_kafka_syste.Machine.Discovery.{process_connector, tick}
use self_healing_kafka_syste.Webhook.Alerts.{GrafanaAlertEvent}
use self_healing_kafka_syste.Webhook.Followups.{
  Service, schedule_followup, schedule_recovery_followup, clear_followup,
}

-- How a round of the loop ends: the service stops, no event came in time, the worker is sent home, or
-- an event was handled.
pub data Turn : Type 0 where
  stopped waiting left handled : Turn

abbrev pub followed_up : Bool → Result (Option Text) → Service → Service
followed_up failure_confirmed (raised x) s = s
followed_up failure_confirmed (ok none) s = s
followed_up failure_confirmed (ok (some name)) s =
    if is_empty name then s else schedule_followup name failure_confirmed s

unfoldable pub schedule_each : List Text → Service → Service
schedule_each [] s = s
schedule_each (name ∷ names) s = schedule_each names (schedule_recovery_followup name s)

abbrev pub scheduled_checks : Result (List Text) → Service → Service
scheduled_checks (raised x) s = s
scheduled_checks (ok names) s = schedule_each names s

module _ (env : Env) (settings : Settings) where
  -- The part of a round that follows `get`.
  unfoldable pub handle_alert : GrafanaAlertEvent → Service → World → Service × World
  handle_alert alert s w =
      let (result, w') =
        process_connector env settings alert.connector_name alert.failure_confirmed w in
      (followed_up alert.failure_confirmed result (clear_followup none alert.connector_name s), w')

  abbrev pub turn_on : List (Option GrafanaAlertEvent) → Service → World → Turn × (Service × World)
  turn_on [] s w = (Turn.waiting, (s, w))
  turn_on (none ∷ q) s w = (Turn.left, (record s { queue = q }, w))
  turn_on (some alert ∷ q) s w = (Turn.handled, handle_alert alert (record s { queue = q }) w)

  -- One round of the loop.
  unfoldable pub turn : Service → World → Turn × (Service × World)
  unfolding handle_alert
  turn s w = if s.stopping then (Turn.stopped, (s, w)) else turn_on s.queue s w

  abbrev pub go_on : Turn → Service × World → (Service × World) → Service × World
  go_on Turn.handled now later = later
  go_on _ now later = now

  -- At most so many rounds, until the queue is empty, a `none` comes or the service stops.
  unfoldable pub run_worker : ℕ → Service × World → Service × World
  unfolding turn
  run_worker zero (s, w) = (s, w)
  run_worker (suc n) (s, w) =
      let (kind, next) = turn s w in let later = run_worker n next in go_on kind next later

  -- `run_health_checks`, with the receiver's `schedule_recovery_followup`. An exception of `tick` goes on to
  -- the caller.
  unfoldable pub run_health_checks : Service × World → Result (List Text) × (Service × World)
  unfolding schedule_each
  run_health_checks (s, w) =
      let (names, w') = tick env settings w in (names, (scheduled_checks names s, w'))
