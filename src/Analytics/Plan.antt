-- ===== src/Analytics/Plan.antt =====
-- `QueryPlan` and `Metric` of webhook/analytics.py, and the query of semantic/tsql.py that a plan
-- becomes.
use self_healing_kafka_syste.Base.{ℕ, Option, List}
use self_healing_kafka_syste.Base.Text.{Text}
use self_healing_kafka_syste.Analytics.Source.{IncidentFactSource}

pub record Metric : Type 0 where
  pub name : Text
  pub aggregation : Text

-- The fields that the compiler reads.
pub record QueryPlan : Type 0 where
  pub metrics : List Metric
  pub group_by : List Text
  pub event_types : List Text
  pub outcomes : List Text
  pub connector_name : Option Text
  pub error_code : Option Text
  pub order_by : Text
  pub direction : Text
  pub limit : ℕ
  pub comparison : Option Text
  pub details : List Text
  pub ranking : Option Text
  pub tie_policy : Text

pub data SqlValue : Type 0 where
  text_value : Text → SqlValue
  int_value : ℕ → SqlValue

pub record QueryParameter : Type 0 where
  pub name : Text
  pub type_name : Text
  pub value : SqlValue

-- A part of a statement: text, or the `?` of a parameter.
pub data Piece : Type 0 where
  sql : Text → Piece
  placeholder : QueryParameter → Piece

pub record ExecutedTsql : Type 0 where
  pub statement : List Piece
  pub parameters : List QueryParameter
  pub result_shape : List Text
  pub fact_source : IncidentFactSource
