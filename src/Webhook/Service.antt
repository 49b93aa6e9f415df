-- ===== src/Webhook/Service.antt =====
-- `GrafanaWebhookService` of webhook/grafana.py: the methods that fill the queue of events.
use self_healing_kafka_syste.Base.{
  ℕ, zero, suc, ◌-◌, Bool, true, false, ◌&&◌, Option, none, some, List, [], ◌∷◌, ◌++◌, leb, ltb,
  if◌then◌else◌, length,
}
use self_healing_kafka_syste.Base.Text.{Text}
use self_healing_kafka_syste.Base.Dict.{text_key}
use self_healing_kafka_syste.Domain.{Time}
use self_healing_kafka_syste.Domain.Json.{Value, Fields, Items, nil, cons}
use self_healing_kafka_syste.Effect.Exn.{Result, ok, raised}
use self_healing_kafka_syste.Webhook.Config.{GrafanaWebhookConfig}
use self_healing_kafka_syste.Webhook.Dedupe.{claim}
use self_healing_kafka_syste.Webhook.Followups.{
  Service, Timer, release_event, clear_followup, followup_event, set_stopping, cancel_timers,
}
use self_healing_kafka_syste.Webhook.Alerts.{
  GrafanaAlertEvent, dedupe_key, alerts_of, parse_grafana_alerts,
}

abbrev pub items_length : Items → ℕ
items_length nil = 0
items_length (cons v vs) = suc (items_length vs)

pub record Receipt : Type 0 where
  pub accepted : ℕ
  pub duplicate : ℕ
  pub ignored : ℕ

abbrev pub put_unless : Bool → Option GrafanaAlertEvent → Service → Bool × Service
put_unless true e s = (false, s)
put_unless false e s = (true, record s { queue = s.queue ++ (e ∷ []) })

abbrev pub counted : Bool → GrafanaAlertEvent → Receipt × Service → Receipt × Service
counted true event (r, s) = (record r { accepted = suc r.accepted }, s)
counted false event (r, s) = (record r { ignored = suc r.ignored }, release_event event s)

module _ (config : GrafanaWebhookConfig) where
  -- `queue.Full` of a queue with `maxsize=queue_size`, where zero is no bound.
  unfoldable pub is_full : List (Option GrafanaAlertEvent) → Bool
  is_full q = ltb 0 config.queue_size && leb config.queue_size (length q)

  -- `put_nowait`, with whether the entry went in.
  unfoldable pub put_nowait : Option GrafanaAlertEvent → Service → Bool × Service
  unfolding is_full
  put_nowait e s = put_unless (is_full s.queue) e s

  -- `_claim_event` at the time `now`.
  unfoldable pub claim_event : Time → GrafanaAlertEvent → Service → Bool × Service
  claim_event now event s =
      let (granted, claims) = claim config.dedupe_ttl_seconds now (dedupe_key event) s.claims in
      (granted, record s { claims = claims })

  abbrev pub offered : Bool → GrafanaAlertEvent → Receipt → Service → Receipt × Service
  offered false event r s = (record r { duplicate = suc r.duplicate }, s)
  offered true event r s = let (went, s') = put_nowait (some event) s in counted went event (r, s')

  -- One round of the loop of `submit`.
  unfoldable pub submit_event : Time → GrafanaAlertEvent → Receipt → Service → Receipt × Service
  unfolding claim_event put_nowait release_event
  submit_event now event r s =
      let (granted, s') = claim_event now event s in offered granted event r s'

  -- `clock n` is the time at which the event of number `n` is claimed.
  unfoldable pub submit_each :
      (ℕ → Time) → ℕ → List GrafanaAlertEvent → Receipt → Service → Receipt × Service
  submit_each clock n [] r s = (r, s)
  submit_each clock n (event ∷ events) r s =
      let (r', s') = submit_event (clock n) event r s in submit_each clock (suc n) events r' s'

  abbrev pub submit_parsed :
      (ℕ → Time)
      → Result Items
      → Result (List GrafanaAlertEvent)
      → Service
      → Result Receipt × Service
  submit_parsed clock alerts (raised x) s = (raised x, s)
  submit_parsed clock (raised x) (ok events) s = (raised x, s)
  submit_parsed clock (ok alerts) (ok events) s =
      let (r, s') =
        submit_each clock 0 events
          (record { accepted = 0; duplicate = 0; ignored = items_length alerts - length events })
          s in
      (ok r, s')

  unfoldable pub submit : (Value → Text) → (ℕ → Time) → Fields → Service → Result Receipt × Service
  submit repr clock payload s =
      submit_parsed clock (alerts_of repr payload) (parse_grafana_alerts repr payload) s

  -- `_enqueue_followup` run alone, which the timer `t` runs when it fires at the time `now`.
  unfoldable pub enqueue_followup : Time → Timer → Service → Service
  unfolding clear_followup put_nowait
  enqueue_followup now t s =
      let cleared = clear_followup (some t.id) t.connector_name s in
      if cleared.stopping
      then cleared
      else (put_nowait (some (followup_event now t.connector_name t.failure_confirmed)) cleared).1

  -- The entries that `close` puts for the workers, until the queue is full.
  unfoldable pub put_sentinels : ℕ → Service → Service
  put_sentinels zero s = s
  put_sentinels (suc n) s =
      let (went, s') = put_nowait none s in
      let rest = put_sentinels n s' in if went then rest else s'

  -- `close` of a service that was started with its workers, run alone, as far as its state goes.
  unfoldable pub close : Service → Service
  unfolding set_stopping cancel_timers put_sentinels
  close s = put_sentinels config.worker_count (cancel_timers (set_stopping s))
