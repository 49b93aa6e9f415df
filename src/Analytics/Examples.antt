-- ===== src/Analytics/Examples.antt =====
-- Tests of the query compiler at a concrete plan.
use self_healing_kafka_syste.Base.{Bool, true, false, Option, none, some, [], ◌∷◌, ◌≡◌, refl, ◌↔◌}
use self_healing_kafka_syste.Base.Text.{
  Text, text_eq, starts_with, has_infix, strip, skip_spaces, drop_spaces, is_space,
}
use self_healing_kafka_syste.Base.Dict.{lookup}
use self_healing_kafka_syste.Effect.Exn.{Result, ok, raised, text}
use self_healing_kafka_syste.Analytics.Allowed
use self_healing_kafka_syste.Analytics.Allowed.{IsSelected}
use self_healing_kafka_syste.Analytics.Masked
use self_healing_kafka_syste.Analytics.Masked.{statement_text}
use self_healing_kafka_syste.Analytics.Alike.{hide_row_limit, hide_time, masked}
use self_healing_kafka_syste.Analytics.Placeholders
use self_healing_kafka_syste.Analytics.Placeholders.{IsPositional, IsRejected}
use self_healing_kafka_syste.Analytics.Plan.{QueryPlan}
use self_healing_kafka_syste.Analytics.Filter.{filter_of}
use self_healing_kafka_syste.Analytics.Query.{
  compile_incident_query, refusal, render, statement_of, statement_rest, join_pieces, join_texts,
  grouped_selects, rank_selects, rank_filter, tie_order, projection, result_shape,
}
use self_healing_kafka_syste.Analytics.Tables.{metric_expression, metric_body}
use self_healing_kafka_syste.Analytics.Guard.{
  is_read_only_incident_query, normalized, squeeze, literal_lengths, without_literals,
}
use self_healing_kafka_syste.Analytics.Source.{
  legacy_source, dbt_source, is_valid_incident_fact_source,
}

-- The five connectors with the most failures under one error code, with a severity.
abbrev plan : QueryPlan
plan = record {
  metrics =
      record { name = text "failure_count"; aggregation = text "count_distinct_incident" }
      ∷ record { name = text "recovery_rate_percent"; aggregation = text "recovery_rate_percent" }
      ∷ [];
  group_by = text "connector_name" ∷ text "job_name" ∷ [];
  event_types = [];
  outcomes = text "FAILED" ∷ [];
  connector_name = some (text "orders");
  error_code = some (text "ORA-01555");
  order_by = text "failure_count";
  direction = text "desc";
  limit = 5;
  comparison = none;
  details = text "severity" ∷ text "job_name" ∷ [];
  ranking = some (text "descending");
  tie_policy = text "include_ties";
}

abbrev from_at : Option Text
from_at = some (text "2026-01-01T00:00:00+07:00")

compile_incident_query-IsPositional_example :
    IsPositional
      (IsRejected plan 501 legacy_source from_at none)
      (compile_incident_query plan from_at none 501 legacy_source)
compile_incident_query-IsPositional_example =
    Placeholders.compile_incident_query-IsPositional plan 501 legacy_source from_at none

statement_text-masked_example :
    statement_text (compile_incident_query plan from_at none 501 legacy_source)
    ≡ statement_text (
        compile_incident_query
          (masked plan)
          (hide_time from_at)
          none
          (hide_row_limit 501)
          legacy_source)
statement_text-masked_example = Masked.statement_text-masked plan 501 legacy_source from_at none

is_valid_incident_fact_source_iff_example :
    (is_valid_incident_fact_source (dbt_source (text "gold")) ≡ true)
    ↔ IsSelected (dbt_source (text "gold"))
is_valid_incident_fact_source_iff_example =
    Allowed.is_valid_incident_fact_source_iff (dbt_source (text "gold"))

abbrev compiles : Result Text → Bool
compiles (ok s) = true
compiles (raised x) = false

-- The plan passes all checks, the read-only guard included.
plan-compiles :
    compiles (statement_text (compile_incident_query plan from_at none 501 legacy_source)) ≡ true
unfolding compile_incident_query filter_of refusal lookup text_eq text is_read_only_incident_query
    starts_with has_infix strip skip_spaces drop_spaces is_space render statement_of statement_rest
    join_pieces join_texts grouped_selects metric_expression metric_body rank_selects rank_filter
    tie_order projection result_shape normalized squeeze literal_lengths without_literals
plan-compiles = refl
