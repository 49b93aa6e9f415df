-- ===== src/Naming/Replacement.antt =====
-- `build_replacement_connector` and `recreate_action` of healing/offset_recovery.py.
use self_healing_kafka_syste.Base.{
  Bool, false, Option, none, some, ◌++◌, if◌then◌else◌, or_else, is_empty,
}
use self_healing_kafka_syste.Base.Text.{Text, text_eq}
use self_healing_kafka_syste.Domain.{ConnectorJob}
use self_healing_kafka_syste.Domain.Json.{
  Value, Fields, end, str, get, put, truthy, keep_truthy, no_fields,
}
use self_healing_kafka_syste.Effect.Exn.{ExnKind, Result, ok, raised, text}
use self_healing_kafka_syste.Naming.Version.{next_versioned_connector_name}
use self_healing_kafka_syste.Naming.Scn.{text_of}

abbrev value_error : {A : Type 0} → Text → Result A
value_error s = raised (record { kind = ExnKind.value_error; message = s })

-- `if scn: config["snapshot.scn"] = scn`.
abbrev with_scn : Option Text → Fields → Fields
with_scn none config = config
with_scn (some s) config = if is_empty s then config else put "snapshot.scn" (str s) config

abbrev truthy_at : Option Value → Bool
truthy_at none = false
truthy_at (some v) = truthy v

unfoldable pub replacement_config : Text → Fields → Option Text → Bool → Result (Text × Fields)
replacement_config connector_name config scn preserve_schema_history =
    if no_fields config
    then value_error (text "Connector runtime config is required for recreate")
    else let named = put "name" (str connector_name) config in
      if preserve_schema_history
      then (if truthy_at (get "schema.history.internal.kafka.topic" named)
          then ok (connector_name, with_scn scn named)
          else value_error
              (text "Existing schema history topic is required for recreate with offset"))
      else ok (
        connector_name,
        with_scn scn (
            put "schema.history.internal.kafka.topic"
              (str (text "schema-history." ++ connector_name)) named),
      )

module _ (repr : Value → Text) where
  -- `latest_details.get("new_connector_name") or current_name`.
  unfoldable pub version_seed : ConnectorJob → Text
  version_seed job = elim (keep_truthy (get "new_connector_name" job.latest_event_details)) [
    | none ↦ job.connector_name
    | some v ↦ text_of repr v
  ]

  unfoldable pub build_replacement_connector :
      ConnectorJob → Option Text → Bool → Result (Text × Fields)
  unfolding version_seed replacement_config
  build_replacement_connector job scn preserve_schema_history =
      replacement_config (next_versioned_connector_name (version_seed job))
        (or_else job.active_config end) scn preserve_schema_history

unfoldable pub recreate_action : Text → Text → Text → Text
recreate_action old_name connector_name suffix =
    if text_eq old_name connector_name
    then text "Recreated connector " ++ (connector_name ++ (text " " ++ suffix))
    else text "Recreated connector "
      ++ (old_name ++ (text " as " ++ (connector_name ++ (text " " ++ suffix))))
