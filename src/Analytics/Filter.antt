-- ===== src/Analytics/Filter.antt =====
-- The predicates and the parameters of a query, as `compile_incident_query` of semantic/tsql.py binds
-- them.
use self_healing_kafka_syste.Base.{
  Bool, true, false, Option, none, some, List, [], ◌∷◌, ◌++◌, any, String,
}
use self_healing_kafka_syste.Base.Text.{Text, text_eq}
use self_healing_kafka_syste.Base.Dict.{text_key}
use self_healing_kafka_syste.Effect.Exn.{text}
use self_healing_kafka_syste.Analytics.Plan.{
  QueryPlan, SqlValue, text_value, QueryParameter, Piece, sql, placeholder,
}

abbrev pub parameter : String → String → SqlValue → QueryParameter
parameter name type_name value = record {
  name = text name;
  type_name = text type_name;
  value = value;
}

-- The predicates with their `?`, and the parameters that `bind` has appended.
pub record Filter : Type 0 where
  pub parameters : List QueryParameter
  pub predicates : List (List Piece)

abbrev pub no_filter : Filter
no_filter = record { parameters = []; predicates = [] }

-- `predicates.append(f"{before}{bind(p)}{after}")`.
abbrev pub bind_to : String → QueryParameter → String → Filter → Filter
bind_to before p after f = record {
  parameters = f.parameters ++ (p ∷ []);
  predicates = f.predicates ++ ((sql (text before) ∷ placeholder p ∷ sql (text after) ∷ []) ∷ []);
}

abbrev pub bind_time : String → String → Option Text → Filter → Filter
bind_time before name none f = f
bind_time before name (some t) f =
    bind_to before (parameter name "datetimeoffset(3)" (text_value t)) "" f

abbrev pub bind_first : String → String → String → List Text → Filter → Filter
bind_first before name type_name [] f = f
bind_first before name type_name (v ∷ vs) f =
    bind_to before (parameter name type_name (text_value v)) "" f

abbrev pub bind_connector : Option Text → Filter → Filter
bind_connector none f = f
bind_connector (some []) f = f
bind_connector (some (c ∷ s)) f =
    let job = parameter "@connector_name" "nvarchar(255)" (text_value (c ∷ s)) in
    let current = parameter "@connector_name_current" "nvarchar(255)" (text_value (c ∷ s)) in
    record {
      parameters = f.parameters ++ (job ∷ current ∷ []);
      predicates =
          f.predicates
          ++ ((sql (text "([JobName] = ")
                ∷ placeholder job
                ∷ sql (text " OR [ConnectorName] = ")
                ∷ placeholder current
                ∷ sql (text ")")
                ∷ [])
              ∷ []);
    }

abbrev pub bind_error : Option Text → Filter → Filter
bind_error none f = f
bind_error (some []) f = f
bind_error (some (c ∷ s)) f =
    bind_to "[ErrorCode] = " (parameter "@error_code" "nvarchar(20)" (text_value (c ∷ s))) "" f

abbrev pub require_code : Bool → Filter → Filter
require_code false f = f
require_code true f = record f {
  predicates = f.predicates ++ ((sql (text "[ErrorCode] IS NOT NULL") ∷ []) ∷ []);
}

unfoldable pub filter_of : QueryPlan → Option Text → Option Text → Filter
filter_of plan from_at to_at = require_code (any (text_eq (text "failure_code")) plan.group_by) (
    bind_error plan.error_code (
      bind_connector plan.connector_name (
        bind_first "[FinalOutcome] = " "@final_outcome" "nvarchar(20)" plan.outcomes (
          bind_first "[EventType] = " "@event_type" "nvarchar(80)" plan.event_types (
            bind_time "[FailureAt] < " "@to_at" to_at
              (bind_time "[FailureAt] >= " "@from_at" from_at no_filter))))))
