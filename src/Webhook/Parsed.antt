-- ===== src/Webhook/Parsed.antt =====
-- What the alerts of a payload become when the receiver parses them.
use self_healing_kafka_syste.Base.{
  suc, ◌≤◌, Bool, true, false, not, Option, none, some, List, [], ◌∷◌, ◌++◌, ◌≡◌, refl, sym, subst,
  if◌then◌else◌, length, All, arith, ◌⊎◌, inl, inr,
}
use self_healing_kafka_syste.Base.Text.{Text, text_eq, text_eq_iff, lower}
use self_healing_kafka_syste.Domain.Json.{
  Value, Fields, Items, nil, cons, null, bool, num, other_num, str, stamp, arr, obj, get,
  keep_truthy,
}
use self_healing_kafka_syste.Effect.Exn.{Result, ok, raised, text}
use self_healing_kafka_syste.Webhook.Alerts.{
  GrafanaAlertEvent, is_known_status, dict_or_empty, name_value, field_text, event_of, alert_event,
  labelled, parse_alert, put_event, parse_each, alerts_of, parse_grafana_alerts,
}
use self_healing_kafka_syste.Webhook.Service.{items_length}

pub ok_inj : {A : Type 0} {a b : A} → ok a ≡ ok b → a ≡ b
ok_inj e = cc

-- An event is of one of the two statuses, and confirms a failure exactly when it fires.
abbrev pub IsWellFormed : GrafanaAlertEvent → Type 0
IsWellFormed e =
    ((e.status ≡ text "firing") × (e.failure_confirmed ≡ true))
    ⊎ ((e.status ≡ text "resolved") × (e.failure_confirmed ≡ false))

status-WellFormed :
    (status : Text)
    → is_known_status status ≡ true
    → ((status ≡ text "firing") × (text_eq status (text "firing") ≡ true))
      ⊎ ((status ≡ text "resolved") × (text_eq status (text "firing") ≡ false))
unfolding is_known_status
status-WellFormed status e = by_status (text_eq status (text "firing")) refl
  where
    by_status :
        (b : Bool)
        → text_eq status (text "firing") ≡ b
        → ((status ≡ text "firing") × (b ≡ true)) ⊎ ((status ≡ text "resolved") × (b ≡ false))
    by_status true k = inl ((text_eq_iff status (text "firing")).0 k, refl)
    by_status false k = inr ((text_eq_iff status (text "resolved")).0 (rw (k) at e), refl)

-- What one round of the loop adds.
abbrev added : Option GrafanaAlertEvent → List GrafanaAlertEvent
added none = []
added (some e) = e ∷ []

module _ (repr : Value → Text) where
  abbrev IsSound : Option GrafanaAlertEvent → Type 0
  IsSound none = Unit
  IsSound (some e) = IsWellFormed e

  alert_event-Sound :
      (status : Text) (alert labels : Fields) (name : Option Value)
      → IsSound (alert_event repr status alert labels name)
  unfolding event_of
  alert_event-Sound status alert labels none = tt
  alert_event-Sound status alert labels (some name) = by_known (is_known_status status) refl
    where
      by_known :
          (b : Bool)
          → is_known_status status ≡ b
          → IsSound (if not b then none else some (event_of repr status alert labels name))
      by_known true e = status-WellFormed status e
      by_known false e = tt

  labelled-Sound :
      (group_status : Text) (alert : Fields) (r : Result Fields) (o : Option GrafanaAlertEvent)
      → labelled repr group_status alert r ≡ ok o
      → IsSound o
  labelled-Sound group_status alert (raised x) o e = cc
  labelled-Sound group_status alert (ok labels) o e = subst IsSound (ok_inj e) (
      alert_event-Sound (lower (field_text repr group_status "status" alert)) alert labels
        (name_value repr labels))

  parse_alert-Sound :
      (group_status : Text) (v : Value) (o : Option GrafanaAlertEvent)
      → parse_alert repr group_status v ≡ ok o
      → IsSound o
  unfolding parse_alert
  parse_alert-Sound g (obj alert) o e =
      labelled-Sound g alert (dict_or_empty (keep_truthy (get "labels" alert))) o e
  parse_alert-Sound g null o e = cc
  parse_alert-Sound g (bool b) o e = cc
  parse_alert-Sound g (num n) o e = cc
  parse_alert-Sound g (other_num s b) o e = cc
  parse_alert-Sound g (str s) o e = cc
  parse_alert-Sound g (stamp t) o e = cc
  parse_alert-Sound g (arr vs) o e = cc

  put_event-ok :
      (o : Result (Option GrafanaAlertEvent)) (r : Result (List GrafanaAlertEvent))
      (es : List GrafanaAlertEvent)
      → put_event repr o r ≡ ok es
      → (p : Option GrafanaAlertEvent) × (rest : List GrafanaAlertEvent) × (o ≡ ok p)
        × (r ≡ ok rest)
        × (es ≡ added p ++ rest)
  put_event-ok (raised x) r es e = cc
  put_event-ok (ok o) (raised x) es e = cc
  put_event-ok (ok none) (ok rest) es e = (none, rest, refl, refl, sym (ok_inj e))
  put_event-ok (ok (some p)) (ok rest) es e = (some p, rest, refl, refl, sym (ok_inj e))

  parse_each-Sound :
      (g : Text) (vs : Items) (es : List GrafanaAlertEvent)
      → parse_each repr g vs ≡ ok es
      → All IsWellFormed es × (length es ≤ items_length vs)
  unfolding parse_each
  parse_each-Sound g nil es e =
      subst (λ es. All IsWellFormed es × (length es ≤ 0)) (ok_inj e) (tt, omega arith)
  parse_each-Sound g (cons v vs) es e =
      let (p, rest, found, later, split) = put_event-ok _ _ es e in
      subst (λ es. All IsWellFormed es × (length es ≤ suc (items_length vs))) (sym split)
        (joined p rest (parse_alert-Sound g v p found) (parse_each-Sound g vs rest later))
    where
      joined :
          (p : Option GrafanaAlertEvent) (rest : List GrafanaAlertEvent)
          → IsSound p
          → All IsWellFormed rest × (length rest ≤ items_length vs)
          → All IsWellFormed (added p ++ rest) × (length (added p ++ rest) ≤ suc (items_length vs))
      joined none rest h (k, n) = (k, omega (arith, n))
      joined (some p) rest h (k, n) = ((h, k), omega (arith, n))

  -- The parsed events are no more than the alerts of the payload; each is of one of the two statuses, and
  -- confirms a failure exactly when it fires.
  pub parse_grafana_alerts-WellFormed :
      (payload : Fields) (alerts : Items) (events : List GrafanaAlertEvent)
      → alerts_of repr payload ≡ ok alerts
      → parse_grafana_alerts repr payload ≡ ok events
      → All IsWellFormed events × (length events ≤ items_length alerts)
  unfolding parse_grafana_alerts
  parse_grafana_alerts-WellFormed payload alerts events a e =
      parse_each-Sound _ alerts events (rw (a) at e)
