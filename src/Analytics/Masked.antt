-- ===== src/Analytics/Masked.antt =====
-- The statement of a compiled query does not depend on the values that the user gives.
use self_healing_kafka_syste.Base.{
  ℕ, zero, suc, ◌+◌, arith, Bool, true, false, ◌&&◌, leb, Bool-cases, inl, inr, Option, none, some,
  List, [], ◌∷◌, ◌++◌, ◌≡◌, refl, sym, ◌∙◌, ap, ◌==◌, if◌then◌else◌,
}
use self_healing_kafka_syste.Base.Text.{Text, text_eq}
use self_healing_kafka_syste.Base.Dict.{text_key}
use self_healing_kafka_syste.Effect.Exn.{Result, ok, raised, text}
use self_healing_kafka_syste.Analytics.Source.{IncidentFactSource, refuse}
use self_healing_kafka_syste.Analytics.Plan.{QueryPlan, Piece, sql, placeholder, ExecutedTsql}
use self_healing_kafka_syste.Analytics.Guard.{is_read_only_incident_query}
use self_healing_kafka_syste.Analytics.Filter.{Filter, filter_of}
use self_healing_kafka_syste.Analytics.Query.{
  where_of, statement_start, statement_rest, statement_of, render, guarded, compile_ordered,
  compile_checked, refusal, compile_incident_query, grouped_selects, rank_selects, tie_order,
  projection, result_shape, rank_filter, is_ranking, rank_limit, max_rows,
}
use self_healing_kafka_syste.Analytics.Alike.{
  hide_time, hide_limit, hide_row_limit, masked, render-append, where_text, render-where_of,
  AreAlike, filter_of-AreAlike,
}

-- The text of a compiled statement.
abbrev pub statement_text : Result ExecutedTsql → Result Text
statement_text (raised x) = raised x
statement_text (ok q) = ok (render q.statement)

in_the_middle :
    (a b c : Text) (ps qs rest more : List Piece)
    → render ps ≡ render qs
    → render rest ≡ render more
    → render (sql a ∷ sql b ∷ sql c ∷ (ps ++ rest)) ≡ render (sql a ∷ sql b ∷ sql c ∷ (qs ++ more))
unfolding render
in_the_middle a b c ps qs rest more e f =
    ap (λ s. a ++ (b ++ (c ++ s)))
      (render-append ps rest ∙ (rw (e, f) (sym (render-append qs more))))

suc-positive : (n : ℕ) → (suc n == 0) ≡ false
suc-positive n = ground arith

-- The limit of a ranking is a placeholder.
render-rank_filter :
    (plan : QueryPlan) (n : ℕ)
    → render (rank_filter (record plan { limit = suc n }))
      ≡ render (rank_filter (record plan { limit = 1 }))
unfolding render rank_filter
render-rank_filter plan n =
    rw (suc-positive n) (by_ranking (is_ranking (record plan { limit = 1 })))
  where
    by_ranking :
        (b : Bool)
        → render (
            if b
            then sql (
                if text_eq plan.tie_policy (text "exact_limit")
                then text "WHERE [row_number] <= "
                else text "WHERE [rank] <= ")
              ∷ placeholder (rank_limit (record plan { limit = suc n }))
              ∷ []
            else [])
          ≡ render (
              if b
              then sql (
                  if text_eq plan.tie_policy (text "exact_limit")
                  then text "WHERE [row_number] <= "
                  else text "WHERE [rank] <= ")
                ∷ placeholder (rank_limit (record plan { limit = 1 }))
                ∷ []
              else [])
    by_ranking true = refl
    by_ranking false = refl

render-statement_rest :
    (plan : QueryPlan) (row_limit other_limit : ℕ) (order : Text) (n : ℕ)
    → render (statement_rest (record plan { limit = n }) row_limit order)
      ≡ render (statement_rest (record plan { limit = hide_limit n }) other_limit order)
unfolding statement_rest render grouped_selects rank_selects tie_order projection result_shape
render-statement_rest plan row_limit other_limit order zero = refl
render-statement_rest plan row_limit other_limit order (suc n) =
    rw
      (
        render-append (rank_filter (record plan { limit = suc n })),
        render-append (rank_filter (record plan { limit = 1 })),
        render-rank_filter plan n,
      )
      (rw (suc-positive n))

abbrev text_if : Bool → Text → Result Text
text_if true s = ok s
text_if false s = raised (refuse (text "compiled SQL did not pass the read-only guard"))

guarded-text_if :
    (q : ExecutedTsql)
    → statement_text (guarded q)
      ≡ text_if
          (is_read_only_incident_query (render q.statement) q.fact_source)
          (render q.statement)
guarded-text_if q = by_guard (is_read_only_incident_query (render q.statement) q.fact_source)
  where
    by_guard :
        (b : Bool)
        → statement_text (
            if b
            then ok q
            else raised (refuse (text "compiled SQL did not pass the read-only guard")))
          ≡ text_if b (render q.statement)
    by_guard true = refl
    by_guard false = refl

guarded-text :
    (q r : ExecutedTsql)
    → render q.statement ≡ render r.statement
    → q.fact_source ≡ r.fact_source
    → statement_text (guarded q) ≡ statement_text (guarded r)
guarded-text q r e f = guarded-text_if q ∙ (rw (e, f) (sym (guarded-text_if r)))

refusal-masked :
    (plan : QueryPlan) (row_limit : ℕ)
    → refusal (masked plan) (hide_row_limit row_limit) ≡ refusal plan row_limit
unfolding refusal
refusal-masked plan row_limit =
    elim (Bool-cases (leb 1 row_limit && leb row_limit (max_rows + 1))) [
      | inl e ↦ rw (e)
      | inr e ↦ rw (e) (rw (e))
    ]

module _ (plan : QueryPlan) (row_limit : ℕ) (source : IncidentFactSource) where
  render-statement_of :
      (f g : Filter) (order : Text)
      → AreAlike f g
      → render (statement_of plan f row_limit source order)
        ≡ render (statement_of (masked plan) g (hide_row_limit row_limit) source order)
  unfolding statement_of statement_rest render grouped_selects rank_selects tie_order projection
      result_shape rank_filter
  render-statement_of f g order h =
      in_the_middle statement_start source.qualified_name (text "\n    WHERE ")
        (where_of f.predicates) (where_of g.predicates) (statement_rest plan row_limit order)
        (statement_rest (masked plan) (hide_row_limit row_limit) order)
        (render-where_of f.predicates ∙ (ap where_text h ∙ sym (render-where_of g.predicates)))
        (render-statement_rest plan row_limit (hide_row_limit row_limit) order plan.limit)

  compile_ordered-text :
      (f g : Filter) (o : Option Text)
      → AreAlike f g
      → statement_text (compile_ordered plan f row_limit source o)
        ≡ statement_text (compile_ordered (masked plan) g (hide_row_limit row_limit) source o)
  compile_ordered-text f g none h = refl
  compile_ordered-text f g (some order) h = guarded-text _ _ (render-statement_of f g order h) refl

  -- The compiled statement is the same, and so is a refusal, when every value that is bound as a parameter is
  -- masked: each text, list of texts and time that is there by a star, a rank limit above zero by one, and a
  -- row limit within the bound by one. None of them becomes part of the text that is sent to the database.
  pub statement_text-masked :
      (from_at to_at : Option Text)
      → statement_text (compile_incident_query plan from_at to_at row_limit source)
        ≡ statement_text (
            compile_incident_query
              (masked plan)
              (hide_time from_at)
              (hide_time to_at)
              (hide_row_limit row_limit)
              source)
  unfolding compile_incident_query
  statement_text-masked from_at to_at =
      by_refusal (refusal plan row_limit)
      ∙ ap
          (λ o. statement_text (
            compile_checked (masked plan)
              (filter_of (masked plan) (hide_time from_at) (hide_time to_at))
              (hide_row_limit row_limit) source o))
          (sym (refusal-masked plan row_limit))
    where
      by_refusal :
          (o : Option Text)
          → statement_text (compile_checked plan (filter_of plan from_at to_at) row_limit source o)
            ≡ statement_text (
                compile_checked
                  (masked plan)
                  (filter_of (masked plan) (hide_time from_at) (hide_time to_at))
                  (hide_row_limit row_limit)
                  source
                  o)
      by_refusal (some message) = refl
      by_refusal none = compile_ordered-text _ _ _ (filter_of-AreAlike plan from_at to_at)
