-- ===== src/Webhook/Drain.antt =====
-- What the workers of the receiver make of the queue, and which connectors are followed up.
use self_healing_kafka_syste.Base.{
  ℕ, zero, suc, ◌≤◌, ◌<◌, false, none, some, List, [], ◌∷◌, ◌++◌, map, ◌≡◌, refl, sym, ◌∙◌, ap,
  length, length-append, All, arith,
}
use self_healing_kafka_syste.Base.Text.{Text}
use self_healing_kafka_syste.Base.Dict.{text_key}
use self_healing_kafka_syste.Domain.{Time, Settings}
use self_healing_kafka_syste.Effect.Exn.{Result, ok, raised}
use self_healing_kafka_syste.Effect.World.{World, Env}
use self_healing_kafka_syste.Machine.Discovery.{process_connector, tick}
use self_healing_kafka_syste.Webhook.Config.{GrafanaWebhookConfig}
use self_healing_kafka_syste.Webhook.Alerts.{GrafanaAlertEvent}
use self_healing_kafka_syste.Webhook.Followups.{Service, Timer, clear_followup, followup_event}
use self_healing_kafka_syste.Webhook.Service.{is_full, put_nowait, enqueue_followup}
use self_healing_kafka_syste.Webhook.Worker.{
  scheduled_checks, handle_alert, turn, run_worker, run_health_checks,
}
use self_healing_kafka_syste.Webhook.Scheduled.{
  HasTimer, followed_up-Schedules, schedule_each-Schedules, schedule_each-IsRegistered,
  each-HasTimer,
}

abbrev pub FollowsUp : Service → Result (List Text) → Service → Type 0
FollowsUp s (raised x) u = u ≡ s
FollowsUp s (ok names) u = All (HasTimer false s u) names

module _ (env : Env) (settings : Settings) where
  -- What the engine does with the events, one after the other.
  abbrev pub process_all : List GrafanaAlertEvent → World → World
  process_all [] w = w
  process_all (e ∷ es) w =
      process_all es (process_connector env settings e.connector_name e.failure_confirmed w).1

  -- Unless the service stops, a reconciliation pass leaves every connector that it wants to look at again
  -- with the timer that it had before, or with one that is registered and started for it without a confirmed
  -- failure; a pass that fails schedules nothing.
  pub run_health_checks-FollowsUp :
      (s : Service) (w : World)
      → s.stopping ≡ false
      → FollowsUp s
          (run_health_checks env settings (s, w)).0
          (run_health_checks env settings (s, w)).1.0
  unfolding run_health_checks
  run_health_checks-FollowsUp s w h = by_result (tick env settings w).0
    where
      by_result : (r : Result (List Text)) → FollowsUp s r (scheduled_checks r s)
      by_result (raised x) = refl
      by_result (ok names) =
          each-HasTimer false s _ (schedule_each-Schedules names s) names
            (schedule_each-IsRegistered names s h)

  handle_alert-queue :
      (e : GrafanaAlertEvent) (s : Service) (w : World)
      → ((handle_alert env settings e s w).0.queue ≡ s.queue)
        × ((handle_alert env settings e s w).0.stopping ≡ s.stopping)
        × ((handle_alert env settings e s w).1
            ≡ (process_connector env settings e.connector_name e.failure_confirmed w).1)
  unfolding handle_alert clear_followup
  handle_alert-queue e s w =
      let k =
        followed_up-Schedules e.failure_confirmed
          (process_connector env settings e.connector_name e.failure_confirmed w).0
          (clear_followup none e.connector_name s) in
      (k.queue, k.stopping, refl)

  -- A worker that has as many rounds as there are events empties the queue of a service that is not stopped,
  -- and the engine handles each event once, in the order of the queue.
  pub run_worker-process_all :
      (n : ℕ) (events : List GrafanaAlertEvent) (s : Service) (w : World)
      → s.queue ≡ map some events
      → s.stopping ≡ false
      → length events ≤ n
      → ((run_worker env settings n (s, w)).0.queue ≡ [])
        × ((run_worker env settings n (s, w)).1 ≡ process_all events w)
  unfolding run_worker turn
  run_worker-process_all zero [] s w q h k = (q, refl)
  run_worker-process_all zero (e ∷ es) s w q h k =
      let none_left : ⊥ = omega (arith, k) in elim none_left [ ]
  run_worker-process_all (suc n) [] s w q h k = rw (h, q) (refl, refl)
  run_worker-process_all (suc n) (e ∷ es) s w q h k =
      let u = record s { queue = map some es; stopping = false } in
      let (same, flag, done) = handle_alert-queue e u w in
      let (emptied, all) =
        run_worker-process_all n es (handle_alert env settings e u w).0
          (handle_alert env settings e u w).1 same flag (omega (arith, k)) in
      rw (h, q) (emptied, all ∙ ap (process_all es) done)

  process_all-append :
      (es : List GrafanaAlertEvent) (e : GrafanaAlertEvent) (w : World)
      → process_all (es ++ (e ∷ [])) w
        ≡ (process_connector env settings e.connector_name e.failure_confirmed (process_all es w)).1
  process_all-append [] e w = refl
  process_all-append (d ∷ es) e w = process_all-append es e _

  map-append :
      (es : List GrafanaAlertEvent) (e : GrafanaAlertEvent)
      → map some (es ++ (e ∷ [])) ≡ map some es ++ (some e ∷ [])
  map-append [] e = refl
  map-append (d ∷ es) e = ap (λ q. some d ∷ q) (map-append es e)

  module _ (config : GrafanaWebhookConfig) where
    -- The queue of a running service takes the event of a timer that fires.
    enqueue_followup-queue :
        (now : Time) (t : Timer) (s : Service)
        → s.stopping ≡ false
        → is_full config s.queue ≡ false
        → ((enqueue_followup config now t s).queue
            ≡ s.queue ++ (some (followup_event now t.connector_name t.failure_confirmed) ∷ []))
          × ((enqueue_followup config now t s).stopping ≡ false)
    unfolding enqueue_followup clear_followup put_nowait
    enqueue_followup-queue now t s h room = rw (h, room) (refl, refl)

    -- A timer that fires while the service runs and its queue has room is followed up: after the events that
    -- wait already, a worker with enough rounds hands its connector to the engine, with the flag it carried.
    pub followup_processed :
        (now : Time) (t : Timer) (n : ℕ) (events : List GrafanaAlertEvent) (s : Service) (w : World)
        → s.queue ≡ map some events
        → s.stopping ≡ false
        → is_full config s.queue ≡ false
        → length events < n
        → (run_worker env settings n (enqueue_followup config now t s, w)).1
          ≡ (process_connector env settings t.connector_name t.failure_confirmed
              (process_all events w)).1
    unfolding followup_event
    followup_processed now t n events s w q h room k =
        let e = followup_event now t.connector_name t.failure_confirmed in
        let (grown, running) = enqueue_followup-queue now t s h room in
        (run_worker-process_all n (events ++ (e ∷ [])) (enqueue_followup config now t s) w
          ((grown ∙ ap (λ p. p ++ (some e ∷ [])) q) ∙ sym (map-append events e)) running
          (omega (arith, k, length-append events (e ∷ [])))).1
        ∙ process_all-append events e w
