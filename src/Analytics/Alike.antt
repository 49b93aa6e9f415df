-- ===== src/Analytics/Alike.antt =====
-- The filter of a plan of semantic/tsql.py, and the one of the same plan with its values masked.
use self_healing_kafka_syste.Base.{
  ℕ, zero, suc, ◌+◌, Bool, true, false, ◌&&◌, leb, Option, none, some, List, [], ◌∷◌, ◌++◌, ◌≡◌,
  refl, sym, ◌∙◌, ap, if◌then◌else◌, String, map,
}
use mathlib.Core.List.{append_assoc}
use self_healing_kafka_syste.Base.Text.{Text}
use self_healing_kafka_syste.Base.Dict.{text_key}
use self_healing_kafka_syste.Effect.Exn.{text}
use self_healing_kafka_syste.Analytics.Plan.{QueryPlan, Piece, sql, placeholder}
use self_healing_kafka_syste.Analytics.Filter.{
  Filter, no_filter, bind_time, bind_first, bind_connector, bind_error, require_code, filter_of,
}
use self_healing_kafka_syste.Analytics.Query.{join_pieces, join_texts, where_of, render, max_rows}

-- Every value that is there becomes a star; one that is missing or empty stays so.
abbrev pub hide : Option Text → Option Text
hide none = none
hide (some []) = some []
hide (some (c ∷ s)) = some (42 ∷ [])

abbrev pub hide_time : Option Text → Option Text
hide_time none = none
hide_time (some t) = some (42 ∷ [])

abbrev pub hide_values : List Text → List Text
hide_values [] = []
hide_values (v ∷ vs) = (42 ∷ []) ∷ []

-- A limit of zero means that nothing is ranked, so it stays.
abbrev pub hide_limit : ℕ → ℕ
hide_limit zero = 0
hide_limit (suc n) = 1

-- Every row limit within the bound becomes one; the others are refused, and stay.
abbrev pub hide_row_limit : ℕ → ℕ
hide_row_limit n = if leb 1 n && leb n (max_rows + 1) then 1 else n

abbrev pub masked : QueryPlan → QueryPlan
masked plan = record plan {
  event_types = hide_values plan.event_types;
  outcomes = hide_values plan.outcomes;
  connector_name = hide plan.connector_name;
  error_code = hide plan.error_code;
  limit = hide_limit plan.limit;
}

pub render-append : (ps qs : List Piece) → render (ps ++ qs) ≡ render ps ++ render qs
unfolding render
render-append [] qs = refl
render-append (sql t ∷ ps) qs =
    ap (λ s. t ++ s) (render-append ps qs) ∙ sym (append_assoc t (render ps) (render qs))
render-append (placeholder p ∷ ps) qs = ap (λ s. 63 ∷ s) (render-append ps qs)

render-join_pieces :
    (separator : Text) (ps : List (List Piece))
    → render (join_pieces separator ps) ≡ join_texts separator (map render ps)
unfolding join_pieces join_texts render
render-join_pieces separator [] = refl
render-join_pieces separator (p ∷ []) = refl
render-join_pieces separator (p ∷ q ∷ ps) =
    render-append p (sql separator ∷ join_pieces separator (q ∷ ps))
    ∙ ap (λ s. render p ++ (separator ++ s)) (render-join_pieces separator (q ∷ ps))

abbrev pub where_text : List Text → Text
where_text [] = render (sql (text "1 = 1") ∷ [])
where_text (t ∷ ts) = join_texts (text " AND ") (t ∷ ts)

pub render-where_of : (ps : List (List Piece)) → render (where_of ps) ≡ where_text (map render ps)
render-where_of [] = refl
render-where_of (p ∷ ps) = render-join_pieces (text " AND ") (p ∷ ps)

-- Two filters with the same text.
abbrev pub AreAlike : Filter → Filter → Type 0
AreAlike f g = map render f.predicates ≡ map render g.predicates

map-added :
    (ps : List (List Piece)) (p : List Piece)
    → map render (ps ++ (p ∷ [])) ≡ map render ps ++ (render p ∷ [])
map-added [] p = refl
map-added (q ∷ ps) p = ap (λ r. render q ∷ r) (map-added ps p)

added-AreAlike :
    (f g : Filter) (p q : List Piece)
    → AreAlike f g
    → render p ≡ render q
    → map render (f.predicates ++ (p ∷ [])) ≡ map render (g.predicates ++ (q ∷ []))
added-AreAlike f g p q h e = map-added f.predicates p ∙ (rw (h, e) (sym (map-added g.predicates q)))

bind_time-AreAlike :
    (b n : String) (o : Option Text) (f g : Filter)
    → AreAlike f g
    → AreAlike (bind_time b n o f) (bind_time b n (hide_time o) g)
unfolding render
bind_time-AreAlike b n none f g h = h
bind_time-AreAlike b n (some t) f g h = added-AreAlike f g _ _ h refl

bind_first-AreAlike :
    (b n t : String) (vs : List Text) (f g : Filter)
    → AreAlike f g
    → AreAlike (bind_first b n t vs f) (bind_first b n t (hide_values vs) g)
unfolding render
bind_first-AreAlike b n t [] f g h = h
bind_first-AreAlike b n t (v ∷ vs) f g h = added-AreAlike f g _ _ h refl

bind_connector-AreAlike :
    (o : Option Text) (f g : Filter)
    → AreAlike f g
    → AreAlike (bind_connector o f) (bind_connector (hide o) g)
unfolding render
bind_connector-AreAlike none f g h = h
bind_connector-AreAlike (some []) f g h = h
bind_connector-AreAlike (some (c ∷ s)) f g h = added-AreAlike f g _ _ h refl

bind_error-AreAlike :
    (o : Option Text) (f g : Filter)
    → AreAlike f g
    → AreAlike (bind_error o f) (bind_error (hide o) g)
unfolding render
bind_error-AreAlike none f g h = h
bind_error-AreAlike (some []) f g h = h
bind_error-AreAlike (some (c ∷ s)) f g h = added-AreAlike f g _ _ h refl

require_code-AreAlike :
    (b : Bool) (f g : Filter) → AreAlike f g → AreAlike (require_code b f) (require_code b g)
require_code-AreAlike false f g h = h
require_code-AreAlike true f g h = added-AreAlike f g _ _ h refl

pub filter_of-AreAlike :
    (plan : QueryPlan) (from_at to_at : Option Text)
    → AreAlike
        (filter_of plan from_at to_at)
        (filter_of (masked plan) (hide_time from_at) (hide_time to_at))
unfolding filter_of
filter_of-AreAlike plan from_at to_at = require_code-AreAlike _ _ _ (
    bind_error-AreAlike plan.error_code _ _ (
      bind_connector-AreAlike plan.connector_name _ _ (
        bind_first-AreAlike _ _ _ plan.outcomes _ _ (
          bind_first-AreAlike _ _ _ plan.event_types _ _ (
            bind_time-AreAlike _ _ to_at _ _
              (bind_time-AreAlike _ _ from_at no_filter no_filter refl))))))
