-- ===== src/Analytics/Query.antt =====
-- `compile_incident_query` of semantic/tsql.py.
use self_healing_kafka_syste.Base.{
  ℕ, ◌+◌, Bool, false, ◌&&◌, not, Option, none, some, List, [], ◌∷◌, ◌++◌, leb, ◌==◌, if◌then◌else◌,
  any, all, map, keep_if, is_some, is_empty,
}
use self_healing_kafka_syste.Base.Text.{Text, text_eq}
use self_healing_kafka_syste.Base.Dict.{lookup, text_key}
use self_healing_kafka_syste.Effect.Exn.{ExnKind, Result, ok, raised, text}
use self_healing_kafka_syste.Analytics.Source.{IncidentFactSource, refuse}
use self_healing_kafka_syste.Analytics.Plan.{
  Metric, QueryPlan, int_value, QueryParameter, Piece, sql, placeholder, ExecutedTsql,
}
use self_healing_kafka_syste.Analytics.Filter.{parameter, Filter, filter_of}
use self_healing_kafka_syste.Analytics.Tables.{
  dimension_columns, metric_columns, detail_columns, column_at, alias_of_metric, named,
  metric_expression,
}
use self_healing_kafka_syste.Analytics.Guard.{is_read_only_incident_query}

-- `max_rows` is `_MAX_ROWS`.
abbrev pub max_rows : ℕ
max_rows = 500

-- `separator.join(items)`.
unfoldable pub join_texts : Text → List Text → Text
join_texts separator [] = []
join_texts separator (t ∷ []) = t
join_texts separator (t ∷ u ∷ ts) = t ++ (separator ++ join_texts separator (u ∷ ts))

unfoldable pub join_pieces : Text → List (List Piece) → List Piece
join_pieces separator [] = []
join_pieces separator (p ∷ []) = p
join_pieces separator (p ∷ q ∷ ps) = p ++ (sql separator ∷ join_pieces separator (q ∷ ps))

abbrev pub where_of : List (List Piece) → List Piece
where_of [] = sql (text "1 = 1") ∷ []
where_of (p ∷ ps) = join_pieces (text " AND ") (p ∷ ps)

abbrev pub bracketed : Text → Text
bracketed s = text "[" ++ (s ++ text "]")

abbrev pub detail_select : Text → Text
detail_select field =
    let column = (column_at field detail_columns).0 in
    let smallest = text "MIN(CONVERT(nvarchar(4000), " ++ (column ++ text "))") in
    named
      (if text_eq field (text "severity")
        then text "CASE WHEN COUNT("
          ++ (column
              ++ (text ") = COUNT(*) AND "
                  ++ (smallest
                      ++ (text " = MAX(CONVERT(nvarchar(4000), "
                          ++ (column ++ (text ")) THEN " ++ (smallest ++ text " END")))))))
        else smallest)
      (column_at field detail_columns).1

abbrev pub statement_start : Text
statement_start =
    text
      "WITH [filtered] AS (\n    SELECT [IncidentId], [JobName], [ConnectorName], [FailureAt], [RecoveredAt],\n           [FinalOutcome], [EventType], [QueueStatus], [Severity], [ErrorMessage], [ErrorCode]\n    FROM "

module _ (plan : QueryPlan) where
  abbrev pub dimension_aliases : List Text
  dimension_aliases = map (λ f. (column_at f dimension_columns).1) plan.group_by

  abbrev pub with_rate : Bool
  with_rate = any (λ (m : Metric). text_eq m.name (text "recovery_rate_percent")) plan.metrics

  -- The details that are no dimension.
  abbrev pub own_details : List Text
  own_details =
      keep_if (λ f. not (any (text_eq (column_at f detail_columns).1) dimension_aliases))
        plan.details

  unfoldable pub grouped_selects : List Text
  grouped_selects =
      map (λ f. named (column_at f dimension_columns).0 (column_at f dimension_columns).1)
        plan.group_by
      ++ (map (λ (m : Metric). metric_expression m.name) plan.metrics
          ++ ((if with_rate
                then text
                    "COUNT(DISTINCT CASE WHEN [FinalOutcome] = 'RECOVERED' THEN [IncidentId] END) AS [recovery_rate_numerator]"
                  ∷ text "COUNT(DISTINCT [IncidentId]) AS [recovery_rate_denominator]"
                  ∷ []
                else [])
              ++ (map detail_select own_details
                  ++ (text "MIN(CONVERT(nvarchar(36), [IncidentId])) AS [evidence_ids]" ∷ []))))

  abbrev pub is_ranking : Bool
  is_ranking = not (is_empty plan.group_by) && not (plan.limit == 0) && is_some plan.ranking

  unfoldable pub result_shape : List Text
  result_shape =
      dimension_aliases
      ++ (map (λ (m : Metric). alias_of_metric m.name) plan.metrics
          ++ (map (λ f. (column_at f detail_columns).1) own_details
              ++ ((if with_rate
                    then text "recovery_rate_numerator" ∷ text "recovery_rate_denominator" ∷ []
                    else [])
                  ++ (if is_ranking then text "rank" ∷ text "tie_count" ∷ [] else []))))

  abbrev pub direction_text : Text
  direction_text = if text_eq plan.direction (text "desc") then text "DESC" else text "ASC"

  unfoldable pub tie_order : Text
  unfolding join_texts
  tie_order =
      if is_empty plan.group_by
      then text "[evidence_ids] ASC"
      else join_texts (text ", ") (map (λ a. bracketed a ++ text " ASC") dimension_aliases)

  unfoldable pub rank_selects : Text → Text
  rank_selects order =
      if is_ranking
      then text ",\n        DENSE_RANK() OVER (ORDER BY "
        ++ (bracketed order
            ++ (text " "
                ++ (direction_text
                    ++ (text ") AS [rank],\n        COUNT(1) OVER (PARTITION BY "
                        ++ (bracketed order
                            ++ (text ") AS [tie_count],\n        ROW_NUMBER() OVER (ORDER BY "
                                ++ (bracketed order
                                    ++ (text " "
                                        ++ (direction_text
                                            ++ (text ", "
                                                ++ (tie_order ++ text ") AS [row_number]")))))))))))
      else []

  abbrev pub rank_limit : QueryParameter
  rank_limit = parameter "@rank_limit" "int" (int_value plan.limit)

  unfoldable pub rank_filter : List Piece
  rank_filter =
      if is_ranking
      then sql (
          if text_eq plan.tie_policy (text "exact_limit")
          then text "WHERE [row_number] <= "
          else text "WHERE [rank] <= ")
        ∷ placeholder rank_limit
        ∷ []
      else []

  abbrev pub grouped_group : Text
  grouped_group =
      if is_empty plan.group_by
      then []
      else text "\n    GROUP BY "
        ++ join_texts (text ", ") (map (λ f. (column_at f dimension_columns).0) plan.group_by)

  unfoldable pub projection : Text
  projection = join_texts (text ", ") (
      map bracketed (
        result_shape
        ++ (text "evidence_ids" ∷ (if is_ranking then text "row_number" ∷ [] else []))))

  abbrev pub result_limit : ℕ → QueryParameter
  result_limit row_limit = parameter "@result_limit" "int" (int_value row_limit)

  -- What follows the predicates.
  unfoldable pub statement_rest : ℕ → Text → List Piece
  statement_rest row_limit order =
      sql (text "\n), [grouped] AS (\n    SELECT\n        ")
      ∷ sql (join_texts (text ",\n        ") grouped_selects)
      ∷ sql (text "\n    FROM [filtered]")
      ∷ sql grouped_group
      ∷ sql (text "\n), [ranked] AS (\n    SELECT *")
      ∷ sql (rank_selects order)
      ∷ sql (text "\n    FROM [grouped]\n)\nSELECT TOP (")
      ∷ placeholder (result_limit row_limit)
      ∷ sql (text ") ")
      ∷ sql projection
      ∷ sql (text "\nFROM [ranked]\n")
      ∷ (rank_filter
          ++ (sql (text "\nORDER BY ")
              ∷ sql (bracketed order)
              ∷ sql (text " ")
              ∷ sql direction_text
              ∷ sql (text ", ")
              ∷ sql tie_order
              ∷ sql (text ";")
              ∷ []))

  unfoldable pub statement_of : Filter → ℕ → IncidentFactSource → Text → List Piece
  unfolding statement_rest
  statement_of f row_limit source order =
      sql statement_start
      ∷ sql source.qualified_name
      ∷ sql (text "\n    WHERE ")
      ∷ (where_of f.predicates ++ statement_rest row_limit order)

-- The text of a statement.
unfoldable pub render : List Piece → Text
render [] = []
render (sql t ∷ ps) = t ++ render ps
render (placeholder p ∷ ps) = 63 ∷ render ps

abbrev pub guarded : ExecutedTsql → Result ExecutedTsql
guarded q =
    if is_read_only_incident_query (render q.statement) q.fact_source
    then ok q
    else raised (refuse (text "compiled SQL did not pass the read-only guard"))

abbrev pub compile_ordered :
    QueryPlan → Filter → ℕ → IncidentFactSource → Option Text → Result ExecutedTsql
compile_ordered plan f row_limit source none =
    raised (record { kind = ExnKind.other; message = plan.order_by })
compile_ordered plan f row_limit source (some order) = guarded (record {
  statement = statement_of plan f row_limit source order;
  parameters =
      f.parameters
      ++ (result_limit plan row_limit ∷ (if is_ranking plan then rank_limit plan ∷ [] else []));
  result_shape = result_shape plan;
  fact_source = source;
})

-- `bool(text)` of an optional text.
abbrev pub is_truthy : Option Text → Bool
is_truthy none = false
is_truthy (some s) = not (is_empty s)

-- The `ValueError` of a plan or a limit that is refused at once.
unfoldable pub refusal : QueryPlan → ℕ → Option Text
refusal plan row_limit =
    if not (leb 1 row_limit && leb row_limit (max_rows + 1))
    then some (text "row_limit is outside the approved analytics bound")
    else if is_truthy plan.comparison
    then some (text "comparison requires a separate verified execution")
    else if not (all (λ f. is_some (lookup f dimension_columns)) plan.group_by)
    then some (text "query plan has an unsupported T-SQL dimension")
    else if not (all (λ (m : Metric). is_some (lookup m.name metric_columns)) plan.metrics)
    then some (text "query plan has an unsupported T-SQL metric")
    else if not (all (λ f. is_some (lookup f detail_columns)) plan.details)
    then some (text "query plan has an unsupported T-SQL detail")
    else none

abbrev pub compile_checked :
    QueryPlan → Filter → ℕ → IncidentFactSource → Option Text → Result ExecutedTsql
compile_checked plan f row_limit source (some message) = raised (refuse message)
compile_checked plan f row_limit source none =
    compile_ordered plan f row_limit source (lookup plan.order_by metric_columns)

-- The times are given as their `isoformat()`.
unfoldable pub compile_incident_query :
    QueryPlan → Option Text → Option Text → ℕ → IncidentFactSource → Result ExecutedTsql
unfolding filter_of refusal
compile_incident_query plan from_at to_at row_limit source =
    compile_checked plan (filter_of plan from_at to_at) row_limit source (refusal plan row_limit)
