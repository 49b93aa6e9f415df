-- ===== src/Analytics/Tables.antt =====
-- The columns and expressions of semantic/tsql.py that a plan may name.
use self_healing_kafka_syste.Base.{List, [], ◌∷◌, ◌++◌, if◌then◌else◌, or_else, String}
use self_healing_kafka_syste.Base.Text.{Text, text_eq}
use self_healing_kafka_syste.Base.Dict.{lookup, text_key}
use self_healing_kafka_syste.Effect.Exn.{text}

abbrev pub entry : String → String → String → Text × (Text × Text)
entry key column alias = (text key, (text column, text alias))

-- `_DIMENSION_COLUMNS`.
abbrev pub dimension_columns : List (Text × (Text × Text))
dimension_columns =
    entry "job_name" "[JobName]" "root_connector_name"
    ∷ entry "connector_name" "[ConnectorName]" "current_connector_name"
    ∷ entry "error_code" "[ErrorCode]" "error_code"
    ∷ entry "failure_code" "[ErrorCode]" "error_signature"
    ∷ entry "final_outcome" "[FinalOutcome]" "final_outcome"
    ∷ []

-- `_METRIC_COLUMNS`.
abbrev pub metric_columns : List (Text × Text)
metric_columns =
    (text "failure_count", text "incident_count")
    ∷ (text "recovered_count", text "recovered_incident_count")
    ∷ (text "open_count", text "open_incident_count")
    ∷ (text "average_recovery_minutes", text "average_recovery_minutes")
    ∷ (text "recovery_rate_percent", text "recovery_rate_percent")
    ∷ []

-- `DETAIL_RESULT_COLUMNS`.
abbrev pub detail_columns : List (Text × (Text × Text))
detail_columns =
    entry "error_message" "[ErrorMessage]" "error_message"
    ∷ entry "severity" "[Severity]" "severity"
    ∷ entry "connector_name" "[ConnectorName]" "connector_name"
    ∷ entry "job_name" "[JobName]" "job_name"
    ∷ entry "final_outcome" "[FinalOutcome]" "final_outcome"
    ∷ entry "queue_status" "[QueueStatus]" "queue_status"
    ∷ []

abbrev pub column_at : Text → List (Text × (Text × Text)) → Text × Text
column_at key columns = or_else (lookup key columns) ([], [])

abbrev pub alias_of_metric : Text → Text
alias_of_metric name = or_else (lookup name metric_columns) []

-- The expression of `_metric_expression`, for a name that is none of the others the last one.
unfoldable pub metric_body : Text → Text
metric_body name =
    if text_eq name (text "failure_count")
    then text "COUNT(DISTINCT [IncidentId])"
    else if text_eq name (text "recovered_count")
    then text "COUNT(DISTINCT CASE WHEN [FinalOutcome] = 'RECOVERED' THEN [IncidentId] END)"
    else if text_eq name (text "open_count")
    then text "COUNT(DISTINCT CASE WHEN [FinalOutcome] = 'OPEN' THEN [IncidentId] END)"
    else if text_eq name (text "average_recovery_minutes")
    then text "AVG(CASE WHEN [FinalOutcome] = 'RECOVERED' AND [QueueStatus] = 'COMPLETED' "
      ++ text "AND [FailureAt] IS NOT NULL AND [RecoveredAt] IS NOT NULL "
      ++ text "AND DATEDIFF_BIG(second, [FailureAt], [RecoveredAt]) >= 0 "
      ++ text
          "THEN CAST(DATEDIFF_BIG(second, [FailureAt], [RecoveredAt]) / 60.0 AS decimal(18, 2)) END)"
    else text
        "CAST(100.0 * COUNT(DISTINCT CASE WHEN [FinalOutcome] = 'RECOVERED' THEN [IncidentId] END) "
      ++ text "/ NULLIF(COUNT(DISTINCT [IncidentId]), 0) AS decimal(9, 2))"

-- `{body} AS [{alias}]`.
abbrev pub named : Text → Text → Text
named body alias = body ++ (text " AS [" ++ (alias ++ text "]"))

unfoldable pub metric_expression : Text → Text
unfolding metric_body
metric_expression name = named (metric_body name) (alias_of_metric name)
