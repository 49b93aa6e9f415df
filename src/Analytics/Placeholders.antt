-- ===== src/Analytics/Placeholders.antt =====
-- The parameters of a compiled query stand in the order of their placeholders.
use self_healing_kafka_syste.Base.{
  Bool, List, Option, String, [], ap, false, if◌then◌else◌, inl, inr, none, refl, some, sym, true,
  ℕ, ◌++◌, ◌∙◌, ◌∷◌, ◌≡◌, ◌≢◌, ◌⊎◌,
}
use mathlib.Core.List.{append_assoc, append-nil}
use self_healing_kafka_syste.Base.Text.{Text, text_eq}
use self_healing_kafka_syste.Base.Dict.{lookup, text_key}
use self_healing_kafka_syste.Analytics.Tables.{metric_columns}
use self_healing_kafka_syste.Analytics.Guard.{is_read_only_incident_query}
use self_healing_kafka_syste.Effect.Exn.{Exn, Result, ok, raised, text}
use self_healing_kafka_syste.Analytics.Source.{IncidentFactSource}
use self_healing_kafka_syste.Analytics.Plan.{
  QueryPlan, QueryParameter, Piece, sql, placeholder, ExecutedTsql,
}
use self_healing_kafka_syste.Analytics.Filter.{
  Filter, no_filter, bind_time, bind_first, bind_connector, bind_error, require_code, filter_of,
}
use self_healing_kafka_syste.Analytics.Query.{
  join_pieces, where_of, is_ranking, rank_limit, rank_filter, result_limit, statement_rest,
  statement_of, render, compile_ordered, compile_checked, refusal, compile_incident_query,
}

-- The parameters of the placeholders, in their order.
abbrev pub bound_at : List Piece → List QueryParameter
bound_at [] = []
bound_at (sql t ∷ ps) = bound_at ps
bound_at (placeholder p ∷ ps) = p ∷ bound_at ps

bound_at-append : (ps qs : List Piece) → bound_at (ps ++ qs) ≡ bound_at ps ++ bound_at qs
bound_at-append [] qs = refl
bound_at-append (sql t ∷ ps) qs = bound_at-append ps qs
bound_at-append (placeholder p ∷ ps) qs = ap (λ r. p ∷ r) (bound_at-append ps qs)

abbrev bound_in : List (List Piece) → List QueryParameter
bound_in [] = []
bound_in (p ∷ ps) = bound_at p ++ bound_in ps

bound_in-append : (ps qs : List (List Piece)) → bound_in (ps ++ qs) ≡ bound_in ps ++ bound_in qs
bound_in-append [] qs = refl
bound_in-append (p ∷ ps) qs =
    ap (λ r. bound_at p ++ r) (bound_in-append ps qs)
    ∙ sym (append_assoc (bound_at p) (bound_in ps) (bound_in qs))

bound_at-join_pieces :
    (separator : Text) (ps : List (List Piece)) → bound_at (join_pieces separator ps) ≡ bound_in ps
unfolding join_pieces
bound_at-join_pieces separator [] = refl
bound_at-join_pieces separator (p ∷ []) = sym (append-nil (bound_at p))
bound_at-join_pieces separator (p ∷ q ∷ ps) =
    bound_at-append p (sql separator ∷ join_pieces separator (q ∷ ps))
    ∙ ap (λ r. bound_at p ++ r) (bound_at-join_pieces separator (q ∷ ps))

bound_at-where_of : (ps : List (List Piece)) → bound_at (where_of ps) ≡ bound_in ps
bound_at-where_of [] = refl
bound_at-where_of (p ∷ ps) = bound_at-join_pieces (text " AND ") (p ∷ ps)

-- The predicates of a filter have its parameters, in order.
abbrev IsBound : Filter → Type 0
IsBound f = bound_in f.predicates ≡ f.parameters

-- A predicate with its parameters is added.
added-IsBound :
    (f : Filter) (p : List Piece) (xs : List QueryParameter)
    → IsBound f
    → bound_at p ≡ xs
    → bound_in (f.predicates ++ (p ∷ [])) ≡ f.parameters ++ xs
added-IsBound f p xs h e = bound_in-append f.predicates (p ∷ []) ∙ rw (h, e, append-nil xs)

bind_time-IsBound :
    (b n : String) (o : Option Text) (f : Filter) → IsBound f → IsBound (bind_time b n o f)
bind_time-IsBound b n none f h = h
bind_time-IsBound b n (some t) f h = added-IsBound f _ _ h refl

bind_first-IsBound :
    (b n t : String) (vs : List Text) (f : Filter) → IsBound f → IsBound (bind_first b n t vs f)
bind_first-IsBound b n t [] f h = h
bind_first-IsBound b n t (v ∷ vs) f h = added-IsBound f _ _ h refl

bind_connector-IsBound : (o : Option Text) (f : Filter) → IsBound f → IsBound (bind_connector o f)
bind_connector-IsBound none f h = h
bind_connector-IsBound (some []) f h = h
bind_connector-IsBound (some (c ∷ s)) f h = added-IsBound f _ _ h refl

bind_error-IsBound : (o : Option Text) (f : Filter) → IsBound f → IsBound (bind_error o f)
bind_error-IsBound none f h = h
bind_error-IsBound (some []) f h = h
bind_error-IsBound (some (c ∷ s)) f h = added-IsBound f _ _ h refl

require_code-IsBound : (b : Bool) (f : Filter) → IsBound f → IsBound (require_code b f)
require_code-IsBound false f h = h
require_code-IsBound true f h = added-IsBound f _ [] h refl ∙ append-nil f.parameters

filter_of-IsBound :
    (plan : QueryPlan) (from_at to_at : Option Text) → IsBound (filter_of plan from_at to_at)
unfolding filter_of
filter_of-IsBound plan from_at to_at = require_code-IsBound _ _ (
    bind_error-IsBound plan.error_code _ (
      bind_connector-IsBound plan.connector_name _ (
        bind_first-IsBound _ _ _ plan.outcomes _ (
          bind_first-IsBound _ _ _ plan.event_types _
            (bind_time-IsBound _ _ to_at _ (bind_time-IsBound _ _ from_at no_filter refl))))))

-- A query has its parameters in the order of its placeholders; an exception has the reason `R`.
abbrev pub IsPositional : Type 0 → Result ExecutedTsql → Type 0
IsPositional R (raised x) = R
IsPositional R (ok q) = bound_at q.statement ≡ q.parameters

module _ (plan : QueryPlan) (row_limit : ℕ) (source : IncidentFactSource) where
  bound_at-rank_filter :
      bound_at (rank_filter plan) ≡ (if is_ranking plan then rank_limit plan ∷ [] else [])
  unfolding rank_filter
  bound_at-rank_filter = by_ranking (is_ranking plan)
    where
      by_ranking :
          (b : Bool)
          → bound_at (
              if b
              then sql (
                  if text_eq plan.tie_policy (text "exact_limit")
                  then text "WHERE [row_number] <= "
                  else text "WHERE [rank] <= ")
                ∷ placeholder (rank_limit plan)
                ∷ []
              else [])
            ≡ (if b then rank_limit plan ∷ [] else [])
      by_ranking true = refl
      by_ranking false = refl

  bound_at-statement_of :
      (f : Filter) (order : Text)
      → IsBound f
      → bound_at (statement_of plan f row_limit source order)
        ≡ f.parameters
          ++ (result_limit plan row_limit ∷ (if is_ranking plan then rank_limit plan ∷ [] else []))
  unfolding statement_of statement_rest
  bound_at-statement_of f order h =
      bound_at-append (where_of f.predicates) _
      ∙ rw (bound_at-where_of f.predicates, h)
          (ap (λ r. f.parameters ++ (result_limit plan row_limit ∷ r))
            (bound_at-append (rank_filter plan) _
              ∙ (append-nil (bound_at (rank_filter plan)) ∙ bound_at-rank_filter)))

  module _ (from_at to_at : Option Text) where
    abbrev filter : Filter
    filter = filter_of plan from_at to_at

    -- Why no query comes out: the plan or the limit is refused, there is no column for its order, or the
    -- statement does not pass the read-only guard.
    abbrev pub IsRejected : Type 0
    IsRejected =
        (refusal plan row_limit ≢ none)
        ⊎ ((lookup plan.order_by metric_columns ≡ none)
            ⊎ ((order : Text) × (lookup plan.order_by metric_columns ≡ some order)
                × (is_read_only_incident_query
                      (render (statement_of plan filter row_limit source order)) source
                    ≡ false)))

    guarded-IsPositional :
        (order : Text)
        → lookup plan.order_by metric_columns ≡ some order
        → IsPositional IsRejected (compile_ordered plan filter row_limit source (some order))
    guarded-IsPositional order e =
        by_guard _ _
          (is_read_only_incident_query (render (statement_of plan filter row_limit source order))
            source)
          refl (bound_at-statement_of filter order (filter_of-IsBound plan from_at to_at))
      where
        by_guard :
            (x : Exn) (q : ExecutedTsql) (b : Bool)
            → is_read_only_incident_query
                (render (statement_of plan filter row_limit source order))
                source
              ≡ b
            → bound_at q.statement ≡ q.parameters
            → IsPositional IsRejected (if b then ok q else raised x)
        by_guard x q true g h = h
        by_guard x q false g h = inr (inr (order, e, g))

    compile_ordered-IsPositional :
        (o : Option Text)
        → lookup plan.order_by metric_columns ≡ o
        → IsPositional IsRejected (compile_ordered plan filter row_limit source o)
    compile_ordered-IsPositional none e = inr (inl e)
    compile_ordered-IsPositional (some order) e = guarded-IsPositional order e

    -- A compiled query has its parameters in the order of the placeholders of its statement, so that each value
    -- is bound where it is meant; an exception means that the plan or the limit is refused, that there is no
    -- column for its order, or that the statement does not pass the read-only guard.
    pub compile_incident_query-IsPositional :
        IsPositional IsRejected (compile_incident_query plan from_at to_at row_limit source)
    unfolding compile_incident_query
    compile_incident_query-IsPositional = by_refusal (refusal plan row_limit) refl
      where
        clash : (message : Text) → some message ≢ none
        clash message e = cc

        by_refusal :
            (o : Option Text)
            → refusal plan row_limit ≡ o
            → IsPositional IsRejected (compile_checked plan filter row_limit source o)
        by_refusal (some message) e = inl (λ k. clash message (sym e ∙ k))
        by_refusal none e = compile_ordered-IsPositional _ refl
