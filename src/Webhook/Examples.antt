-- ===== src/Webhook/Examples.antt =====
-- Tests of the receiver at concrete inputs.
use self_healing_kafka_syste.Naming.Scn.{text_of}
use self_healing_kafka_syste.Base.{
  suc, ◌+◌, ◌≤◌, true, false, ◌&&◌, not, none, some, [], ◌∷◌, ◌++◌, ◌≡◌, refl, ◌⊎◌, if◌then◌else◌,
  count_if, All, arith, ltb,
}
use self_healing_kafka_syste.Base.Text.{Text, text_eq, lower, strip, is_space}
use self_healing_kafka_syste.Base.Decimal.{read_decimal}
use self_healing_kafka_syste.Base.Dict.{lookup, text_key}
use self_healing_kafka_syste.Domain.{Time}
use self_healing_kafka_syste.Domain.Json.{
  Value, Fields, end, field, nil, cons, str, arr, obj, get, truthy,
}
use self_healing_kafka_syste.Effect.Exn.{text, ok}
use self_healing_kafka_syste.Effect.World.{Env, response}
use self_healing_kafka_syste.Examples.{env, settings, orders, world}
use self_healing_kafka_syste.Machine.Discovery.{process_connector}
use self_healing_kafka_syste.Webhook.Config.{GrafanaWebhookConfig, Platform}
use self_healing_kafka_syste.Webhook.Auth.{verify, auth_mode, compare_digest}
use self_healing_kafka_syste.Webhook.Signature
use self_healing_kafka_syste.Webhook.Signature.{HasSecret, IsSigned}
use self_healing_kafka_syste.Webhook.Dedupe.{Claims, claim}
use self_healing_kafka_syste.Webhook.Claims
use self_healing_kafka_syste.Webhook.Claims.{Unique, is_live}
use self_healing_kafka_syste.Webhook.Alerts.{
  GrafanaAlertEvent, dedupe_key, alerts_of, parse_grafana_alerts, parse_each, parse_alert,
  is_known_status, name_value, field_text, event_of,
}
use self_healing_kafka_syste.Webhook.Followups.{
  Service, Timer, new_service, schedule_followup, set_stopping,
}
use self_healing_kafka_syste.Webhook.Service.{
  Receipt, is_full, submit_event, submit, enqueue_followup,
}
use self_healing_kafka_syste.Webhook.Steps.{
  fire, is_in, Threads, alone, within, pop_followup, take_timers, Steps, here, then_step, scheduled,
  popped, stopped,
}
use self_healing_kafka_syste.Webhook.Reach
use self_healing_kafka_syste.Webhook.Alone
use self_healing_kafka_syste.Webhook.Quiet
use self_healing_kafka_syste.Webhook.Parsed
use self_healing_kafka_syste.Webhook.Parsed.{IsWellFormed}
use self_healing_kafka_syste.Webhook.Receipts
use self_healing_kafka_syste.Webhook.Receipts.{Accounts}
use self_healing_kafka_syste.Webhook.Worker.{run_worker, run_health_checks}
use self_healing_kafka_syste.Webhook.Drain
use self_healing_kafka_syste.Webhook.Http.{Chat, HttpRequest, crashed}
use self_healing_kafka_syste.Webhook.Routes.{ChatApi, Method, got, respond}
use self_healing_kafka_syste.Webhook.Guarded
use self_healing_kafka_syste.Webhook.Guarded.{IsGuarded}
use self_healing_kafka_syste.Webhook.Drain.{process_all, FollowsUp}

abbrev alert : Value
alert = obj (
    field "status" (str (text "firing"))
      (field "labels" (obj (field "connector" (str orders) end)) end))

abbrev payload : Fields
payload = field "alerts" (arr (cons alert nil)) end

abbrev lib : Platform
lib = record {
  parse_int = λ s. some (record { negative = false; size = read_decimal s });
  utf8 = λ s. s;
  hmac_sha256 = λ key message. key ++ message;
  json_loads = λ body. ok (obj payload);
  repr = λ v. [];
  parse_qs = λ s. [];
}

abbrev config : GrafanaWebhookConfig
config = record {
  enabled = true;
  path = text "/grafana";
  auth_mode = text "bearer";
  secret = text "s";
  signature_header = text "X-Signature";
  timestamp_header = text "X-Timestamp";
  timestamp_tolerance_seconds = 300;
  dedupe_ttl_seconds = 60;
  queue_size = 1;
  worker_count = 2;
}

abbrev headers : Text → Text
headers name = if text_eq name (text "Authorization") then text "Bearer s" else []

verify-Genuine_example :
    ((auth_mode lib config ≡ text "bearer") × HasSecret lib config 5 headers [] [])
    ⊎ ((auth_mode lib config ≡ text "hmac") × IsSigned lib config 5 headers [] [])
unfolding verify text_eq auth_mode lower strip text compare_digest is_space
verify-Genuine_example = Signature.verify-Genuine lib config 5 headers [] [] refl

abbrev claims : Claims
claims = (text "a", 10) ∷ []

claim_refines_example :
    ((claim 60 20 (text "b") claims).0 ≡ not (is_live 60 20 (text "b") claims))
    × Unique (claim 60 20 (text "b") claims).1
    × ((j : Text) (later : Time)
        → 20 ≤ later
        → is_live 60 later j (claim 60 20 (text "b") claims).1 ≡ (
            if (claim 60 20 (text "b") claims).0 && text_eq (text "b") j
            then ltb later (20 + 60)
            else is_live 60 later j claims))
unfolding lookup
claim_refines_example = Claims.claim_refines 60 20 (text "b") claims (refl, tt)

abbrev event : GrafanaAlertEvent
event = record {
  connector_name = orders;
  status = text "firing";
  fingerprint = [];
  starts_at = [];
  alert_name = [];
  failure_confirmed = true;
}

parse_grafana_alerts-WellFormed_example : All IsWellFormed (event ∷ []) × (1 ≤ 1)
unfolding alerts_of parse_grafana_alerts parse_each parse_alert is_known_status name_value
    field_text event_of get truthy text text_eq lower text_of
parse_grafana_alerts-WellFormed_example =
    Parsed.parse_grafana_alerts-WellFormed lib.repr payload (cons alert nil) (event ∷ []) refl refl

submit-Accounts_example :
    Accounts
      (alerts_of lib.repr payload)
      new_service
      (submit config lib.repr (λ n. n) payload new_service)
submit-Accounts_example = Receipts.submit-Accounts config lib.repr (λ n. n) payload new_service

abbrev full_service : Service
full_service = record new_service { queue = some event ∷ [] }

abbrev start : Receipt
start = record { accepted = 0; duplicate = 0; ignored = 0 }

full_queue_releases_example :
    ((submit_event config 5 event start full_service).0.ignored ≡ 1)
    × ((submit_event config 5 event start full_service).1.queue ≡ full_service.queue)
    × ((later : Time)
        → is_live 60 later
            (dedupe_key event)
            (submit_event config 5 event start full_service).1.claims
          ≡ false)
unfolding is_full new_service lookup
full_queue_releases_example =
    Receipts.full_queue_releases config 5 event start full_service tt refl refl

redelivery_is_duplicate_example :
    let (r', s') = submit_event config 5 event start new_service in
    (r'.accepted ≡ 1)
    × ((submit_event config 9 event r' s').0 ≡ record r' { duplicate = suc r'.duplicate })
    × ((submit_event config 9 event r' s').1.queue ≡ s'.queue)
unfolding is_full new_service lookup
redelivery_is_duplicate_example =
    Receipts.redelivery_is_duplicate config 5 event start new_service tt 9 (omega arith)
      (omega arith) refl refl

abbrev scheduled_service : Service
scheduled_service = schedule_followup orders true new_service

abbrev scheduled_threads : Threads
scheduled_threads = within (schedule_followup orders true) (alone new_service)

-- One thread has taken out the timer of `orders`, and another starts a new one before it is cancelled.
abbrev raced_threads : Threads
raced_threads = within (schedule_followup orders false) (pop_followup none orders scheduled_threads)

abbrev one_step : Steps config (alone new_service) scheduled_threads
one_step = then_step here (scheduled orders true (alone new_service))

one_followup_example :
    All
      (λ t.
        (is_in raced_threads.doomed t.id ≡ true)
        ⊎ (lookup t.connector_name raced_threads.service.followup_timers ≡ some t.id))
      raced_threads.service.started
    × (count_if
          (λ t. text_eq orders t.connector_name && not (is_in raced_threads.doomed t.id))
          raced_threads.service.started
        ≤ 1)
one_followup_example = Reach.one_followup config raced_threads orders (
    then_step (then_step one_step (popped none orders scheduled_threads tt))
      (scheduled orders false (pop_followup none orders scheduled_threads)))

abbrev stopping_threads : Threads
stopping_threads = within set_stopping scheduled_threads

close-IsQuiet_example :
    All
      (λ t. is_in (take_timers stopping_threads).doomed t.id ≡ true)
      (schedule_followup orders true (take_timers stopping_threads).service).started
    × ((take_timers stopping_threads).doomed ≡ []
        → (schedule_followup orders true (take_timers stopping_threads).service).started ≡ [])
unfolding set_stopping
close-IsQuiet_example =
    Quiet.close-IsQuiet config stopping_threads
      (within (schedule_followup orders true) (take_timers stopping_threads))
      (then_step one_step (stopped scheduled_threads)) refl
      (then_step here (scheduled orders true (take_timers stopping_threads)))

run_worker-process_all_example :
    ((run_worker env settings 1 (full_service, world)).0.queue ≡ [])
    × ((run_worker env settings 1 (full_service, world)).1
        ≡ process_all env settings (event ∷ []) world)
unfolding new_service
run_worker-process_all_example =
    Drain.run_worker-process_all env settings 1 (event ∷ []) full_service world refl refl
      (omega arith)

abbrev timer : Timer
timer = record { id = 0; connector_name = orders; failure_confirmed = true }

followup_processed_example :
    (run_worker env settings 1 (enqueue_followup config 7 timer scheduled_service, world)).1
    ≡ (process_connector env settings orders true world).1
unfolding schedule_followup new_service is_full lookup
followup_processed_example =
    Drain.followup_processed env settings config 7 timer 1 [] scheduled_service world refl refl refl
      (omega arith)

-- Kafka Connect says that the connector has failed, so that a pass wants to look at it again.
abbrev failing : Env
failing = record env {
  http = λ n r. response (record {
    status = 200;
    body = some (
        obj (
          field "name" (str orders) (
            field "connector" (obj (field "state" (str (text "FAILED")) end))
              (field "tasks" (arr nil) end))));
  });
}

run_health_checks-FollowsUp_example :
    FollowsUp new_service
      (run_health_checks failing settings (new_service, world)).0
      (run_health_checks failing settings (new_service, world)).1.0
unfolding new_service
run_health_checks-FollowsUp_example =
    Drain.run_health_checks-FollowsUp failing settings new_service world refl

abbrev no_chat : Chat
no_chat = record {
  enabled = false;
  path = [];
  is_authorized = λ s. false;
  ask = λ question id. crashed;
}

abbrev post : HttpRequest
post = record {
  path = text "/grafana";
  query = [];
  headers = λ name. if text_eq name (text "Content-Length") then text "2" else headers name;
  stream = 123 ∷ 125 ∷ [];
}

abbrev no_api : ChatApi
no_api = record {
  enabled = false;
  is_authorized = λ s. false;
  handle_get = λ path query. got 404 end;
  clear_conversation = λ id. crashed;
}

respond-IsGuarded_example :
    IsGuarded lib config 5
      (λ n. n)
      post
      new_service
      (respond lib config Method.post_method no_api no_chat no_chat 5 (λ n. n) post new_service)
respond-IsGuarded_example =
    Guarded.respond-IsGuarded lib config 5 (λ n. n) post new_service Method.post_method no_api
      no_chat no_chat

-- The timer of `orders`, which has fired.
abbrev fired_timer : Timer
fired_timer = record { id = 0; connector_name = orders; failure_confirmed = true }

abbrev fired_service : Service
fired_service = fire fired_timer (schedule_followup orders true new_service)
