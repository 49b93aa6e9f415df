-- ===== src/Webhook/Alerts.antt =====
-- `GrafanaAlertEvent` and `parse_grafana_alerts` of webhook/grafana.py.
use self_healing_kafka_syste.Base.{
  Bool, ◌||◌, not, Option, none, some, List, [], ◌∷◌, ◌++◌, String, if◌then◌else◌, is_empty,
}
use self_healing_kafka_syste.Base.Text.{Text, text_eq, lower}
use self_healing_kafka_syste.Domain.Json.{
  Value, Fields, Items, end, nil, cons, arr, obj, get, keep_truthy,
}
use self_healing_kafka_syste.Effect.Exn.{Exn, ExnKind, Result, ok, raised, text}
use self_healing_kafka_syste.Naming.Scn.{text_of}

pub record GrafanaAlertEvent : Type 0 where
  pub connector_name : Text
  pub status : Text
  pub fingerprint : Text
  pub starts_at : Text
  pub alert_name : Text
  pub failure_confirmed : Bool

unfoldable pub dedupe_key : GrafanaAlertEvent → Text
dedupe_key e =
    (if is_empty e.fingerprint then e.connector_name else e.fingerprint)
    ++ (58 ∷ (e.status ++ (58 ∷ e.starts_at)))

-- The `AttributeError` or `TypeError` of a value of another shape.
abbrev pub bad_shape : Exn
bad_shape = record { kind = ExnKind.other; message = text "unexpected shape of the payload" }

-- `(v or {})`, whose `get` is used.
abbrev pub dict_or_empty : Option Value → Result Fields
dict_or_empty none = ok end
dict_or_empty (some (obj fs)) = ok fs
dict_or_empty (some _) = raised bad_shape

-- `(v or [])`, which is walked.
abbrev pub list_or_empty : Option Value → Result Items
list_or_empty none = ok nil
list_or_empty (some (arr vs)) = ok vs
list_or_empty (some _) = raised bad_shape

-- `a or b` of values.
abbrev pub or_value : Option Value → Option Value → Option Value
or_value none o = o
or_value (some v) o = some v

-- Two statuses are acted on. No character outside ASCII has a letter of theirs for its lower case.
unfoldable pub is_known_status : Text → Bool
is_known_status s = text_eq s (text "firing") || text_eq s (text "resolved")

module _ (repr : Value → Text) where
  -- `str(v or default)` for a text `default`.
  abbrev pub text_or : Text → Option Value → Text
  text_or d none = d
  text_or d (some v) = text_of repr v

  unfoldable pub field_text : Text → String → Fields → Text
  field_text d key fs = text_or d (keep_truthy (get key fs))

  unfoldable pub name_value : Fields → Option Value
  name_value labels =
      or_value (keep_truthy (get "connector_name" labels))
        (or_value (keep_truthy (get "connector" labels)) (keep_truthy (get "server" labels)))

  unfoldable pub event_of : Text → Fields → Fields → Value → GrafanaAlertEvent
  event_of status alert labels name = record {
    connector_name = text_of repr name;
    status = status;
    fingerprint = field_text [] "fingerprint" alert;
    starts_at = field_text [] "startsAt" alert;
    alert_name = field_text [] "alertname" labels;
    failure_confirmed = text_eq status (text "firing");
  }

  abbrev pub alert_event : Text → Fields → Fields → Option Value → Option GrafanaAlertEvent
  alert_event status alert labels none = none
  alert_event status alert labels (some name) =
      if not (is_known_status status) then none else some (event_of status alert labels name)

  abbrev pub labelled : Text → Fields → Result Fields → Result (Option GrafanaAlertEvent)
  labelled group_status alert (raised x) = raised x
  labelled group_status alert (ok labels) = ok (
      alert_event (lower (field_text group_status "status" alert)) alert labels (name_value labels))

  -- One round of the loop: `none` for an alert that is passed over.
  unfoldable pub parse_alert : Text → Value → Result (Option GrafanaAlertEvent)
  parse_alert group_status (obj alert) =
      labelled group_status alert (dict_or_empty (keep_truthy (get "labels" alert)))
  parse_alert group_status _ = raised bad_shape

  abbrev pub put_event :
      Result (Option GrafanaAlertEvent)
      → Result (List GrafanaAlertEvent)
      → Result (List GrafanaAlertEvent)
  put_event (raised x) es = raised x
  put_event (ok o) (raised x) = raised x
  put_event (ok none) (ok es) = ok es
  put_event (ok (some e)) (ok es) = ok (e ∷ es)

  unfoldable pub parse_each : Text → Items → Result (List GrafanaAlertEvent)
  parse_each group_status nil = ok []
  parse_each group_status (cons v vs) =
      put_event (parse_alert group_status v) (parse_each group_status vs)

  abbrev pub parse_list : Text → Result Items → Result (List GrafanaAlertEvent)
  parse_list group_status (raised x) = raised x
  parse_list group_status (ok alerts) = parse_each group_status alerts

  -- The alerts of a payload.
  unfoldable pub alerts_of : Fields → Result Items
  alerts_of payload = list_or_empty (keep_truthy (get "alerts" payload))

  unfoldable pub parse_grafana_alerts : Fields → Result (List GrafanaAlertEvent)
  parse_grafana_alerts payload =
      parse_list (lower (field_text [] "status" payload)) (alerts_of payload)
