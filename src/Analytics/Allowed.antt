-- ===== src/Analytics/Allowed.antt =====
-- The sources of facts that the last check lets through are those that a configuration selects.
use self_healing_kafka_syste.Base.{
  ℕ, Bool, true, false, ◌&&◌, ◌||◌, not, [], ◌∷◌, ◌++◌, ◌≡◌, refl, sym, ◌∙◌, ap, subst, ◌↔◌, ◌==◌,
  if◌then◌else◌, all, arith,
}
use self_healing_kafka_syste.Base.Text.{
  Text, text_eq, text_eq_iff, text_eq_refl, strip, lower, skip_spaces, drop_spaces, is_space,
  keep_head,
}
use self_healing_kafka_syste.Effect.Exn.{Exn, Result, ok, raised, text}
use self_healing_kafka_syste.Analytics.Source.{
  IncidentFactSource, normalize_fact_source_mode, is_letter, is_word, is_schema_name, view_suffix,
  legacy_source, dbt_source, source_of_schema, source_of_mode, incident_fact_source, word_prefix,
  after_word, is_view, source_eq, is_valid_incident_fact_source,
}

both : (a b : Bool) → (a && b) ≡ true → (a ≡ true) × (b ≡ true)
both true b h = (refl, h)
both false b h = cc

word-not_space : (c : ℕ) → is_word c ≡ true → is_space c ≡ false
unfolding is_space
word-not_space c h = ground (arith, h)

letter-word : (c : ℕ) → is_letter c ≡ true → is_word c ≡ true
letter-word c h = ground (arith, h)

drop_spaces-words : (s : Text) → all is_word s ≡ true → drop_spaces s ≡ s
unfolding drop_spaces
drop_spaces-words [] h = refl
drop_spaces-words (c ∷ s) h =
    let (w, ws) = both (is_word c) (all is_word s) h in
    ap (keep_head c) (drop_spaces-words s ws) ∙ kept s
  where
    kept : (t : Text) → keep_head c t ≡ c ∷ t
    kept [] = rw (word-not_space c (both (is_word c) (all is_word s) h).0)
    kept (d ∷ t) = refl

-- A schema name has no white space around it.
strip-schema : (s : Text) → is_schema_name s ≡ true → strip s ≡ s
unfolding strip skip_spaces is_schema_name
strip-schema [] h = cc
strip-schema (c ∷ s) h =
    let (l, ws) = both (is_letter c) (all is_word s) (both (is_letter c && all is_word s) _ h).0 in
    let w = letter-word c l in
    ap skip_spaces (drop_spaces-words (c ∷ s) (rw (w) ws)) ∙ rw (word-not_space c w)

schema-words : (s : Text) → is_schema_name s ≡ true → all is_word s ≡ true
unfolding is_schema_name
schema-words [] h = refl
schema-words (c ∷ s) h =
    let (l, ws) = both (is_letter c) (all is_word s) (both (is_letter c && all is_word s) _ h).0 in
    rw (letter-word c l) ws

word_prefix-append :
    (s : Text)
    → all is_word s ≡ true
    → (word_prefix (s ++ view_suffix) ≡ s) × (after_word (s ++ view_suffix) ≡ view_suffix)
unfolding text
word_prefix-append [] h = (refl, refl)
word_prefix-append (c ∷ s) h =
    let (w, ws) = both (is_word c) (all is_word s) h in
    let (p, a) = word_prefix-append s ws in rw (w) (ap (λ t. c ∷ t) p, a)

word_prefix-after_word : (s : Text) → word_prefix s ++ after_word s ≡ s
word_prefix-after_word [] = refl
word_prefix-after_word (c ∷ s) = by_word (word_prefix-after_word s) (is_word c)
  where
    by_word :
        word_prefix s ++ after_word s ≡ s
        → (b : Bool)
        → (if b then c ∷ word_prefix s else []) ++ (if b then after_word s else c ∷ s) ≡ c ∷ s
    by_word ih true = ap (λ t. c ∷ t) ih
    by_word ih false = refl

legacy_selected : incident_fact_source (text "legacy") [] ≡ ok legacy_source
unfolding incident_fact_source text_eq lower strip text is_space
legacy_selected = refl

dbt_selected :
    (s : Text) → is_schema_name s ≡ true → incident_fact_source (text "dbt") s ≡ ok (dbt_source s)
unfolding incident_fact_source text text_eq lower strip is_space
dbt_selected s h = rw (strip-schema s h, h)

dbt-valid :
    (s : Text) → is_schema_name s ≡ true → is_valid_incident_fact_source (dbt_source s) ≡ true
unfolding is_valid_incident_fact_source is_view text_eq text
dbt-valid s h =
    let (p, a) = word_prefix-append s (schema-words s h) in rw (p, a, h, text_eq_refl view_suffix)

legacy-valid : is_valid_incident_fact_source legacy_source ≡ true
unfolding is_valid_incident_fact_source text_eq text
legacy-valid = refl

-- The parts of a valid name of a view.
view_parts :
    (q : Text)
    → is_view q ≡ true
    → (s : Text) × (is_schema_name s ≡ true) × (q ≡ 91 ∷ (s ++ view_suffix))
unfolding is_view
view_parts [] h = cc
view_parts (c ∷ q) h =
    let (front, suffix) = both (c == 91 && is_schema_name (word_prefix q)) _ h in
    let (bracket, name) = both (c == 91) (is_schema_name (word_prefix q)) front in
    (
      word_prefix q,
      name,
      ap (λ d. d ∷ q) (ground (arith, bracket))
          ∙ ap (λ t. 91 ∷ t)
              (sym (word_prefix-after_word q)
                ∙ ap (λ t. word_prefix q ++ t) ((text_eq_iff (after_word q) view_suffix).0 suffix)),
    )

-- The configuration that selects a source.
abbrev pub IsSelected : IncidentFactSource → Type 0
IsSelected v = (mode : Text) × (dbt_schema : Text) × (incident_fact_source mode dbt_schema ≡ ok v)

source_ext :
    (k q e k' q' e' : Text)
    → k ≡ k'
    → q ≡ q'
    → e ≡ e'
    → ◌≡◌ {A = IncidentFactSource}
        (record { key = k; qualified_name = q; evidence_source = e })
        (record { key = k'; qualified_name = q'; evidence_source = e' })
source_ext k q e k' q' e' a b c = cc

valid-IsSelected : (v : IncidentFactSource) → is_valid_incident_fact_source v ≡ true → IsSelected v
unfolding is_valid_incident_fact_source
valid-IsSelected v h = by_legacy (text_eq v.key (text "legacy")) refl h
  where
    by_dbt :
        (a b : Bool)
        → text_eq v.key (text "dbt") ≡ a
        → text_eq v.evidence_source (text "vSemanticConnectorIncidentFacts") ≡ b
        → (if not a || not b then false else is_view v.qualified_name) ≡ true
        → IsSelected v
    by_dbt false b d e k = cc
    by_dbt true false d e k = cc
    by_dbt true true d e k =
        let (s, name, q) = view_parts v.qualified_name k in
        (
          text "dbt",
          s,
          dbt_selected s name
              ∙ ap ok (
                  source_ext _ _ _ _ _ _ (sym ((text_eq_iff v.key (text "dbt")).0 d)) (sym q) (
                    sym (
                      (text_eq_iff v.evidence_source (text "vSemanticConnectorIncidentFacts")).0
                        e))),
        )

    by_legacy :
        (b : Bool)
        → text_eq v.key (text "legacy") ≡ b
        → (if b
            then source_eq v legacy_source
            else if not (text_eq v.key (text "dbt"))
                || not (text_eq v.evidence_source (text "vSemanticConnectorIncidentFacts"))
            then false
            else is_view v.qualified_name)
          ≡ true
        → IsSelected v
    by_legacy true e k =
        let (kq, ev) =
          both
            (text_eq v.key legacy_source.key
              && text_eq v.qualified_name legacy_source.qualified_name)
            _ k in
        let (ke, qn) = both (text_eq v.key legacy_source.key) _ kq in
        (
          text "legacy",
          [],
          legacy_selected
              ∙ ap ok (
                  source_ext _ _ _ _ _ _ (sym ((text_eq_iff v.key legacy_source.key).0 ke))
                    (sym ((text_eq_iff v.qualified_name legacy_source.qualified_name).0 qn))
                    (sym ((text_eq_iff v.evidence_source legacy_source.evidence_source).0 ev))),
        )
    by_legacy false e k = by_dbt _ _ refl refl k

ok_inj : {A : Type 0} {a b : A} → ok a ≡ ok b → a ≡ b
ok_inj e = cc

schema-valid :
    (s : Text) (v : IncidentFactSource)
    → source_of_schema s ≡ ok v
    → is_valid_incident_fact_source v ≡ true
schema-valid s v e = by_name _ (is_schema_name s) refl e
  where
    by_name :
        (x : Exn) (b : Bool)
        → is_schema_name s ≡ b
        → (if b then ok (dbt_source s) else raised x) ≡ ok v
        → is_valid_incident_fact_source v ≡ true
    by_name x true n k =
        subst (λ u. is_valid_incident_fact_source u ≡ true) (ok_inj k) (dbt-valid s n)
    by_name x false n k = cc

mode-valid :
    (dbt_schema : Text) (m : Result Text) (v : IncidentFactSource)
    → source_of_mode dbt_schema m ≡ ok v
    → is_valid_incident_fact_source v ≡ true
mode-valid dbt_schema (raised x) v e = cc
mode-valid dbt_schema (ok mode) v e =
    by_mode (text_eq mode (text "legacy") || text_eq mode (text "shadow")) e
  where
    by_mode :
        (b : Bool)
        → (if b then ok legacy_source else source_of_schema (strip dbt_schema)) ≡ ok v
        → is_valid_incident_fact_source v ≡ true
    by_mode true k = subst (λ u. is_valid_incident_fact_source u ≡ true) (ok_inj k) legacy-valid
    by_mode false k = schema-valid (strip dbt_schema) v k

-- The last check lets a source through exactly when some mode and schema select it.
pub is_valid_incident_fact_source_iff :
    (v : IncidentFactSource) → (is_valid_incident_fact_source v ≡ true) ↔ IsSelected v
unfolding normalize_fact_source_mode incident_fact_source
is_valid_incident_fact_source_iff v = (valid-IsSelected v, selected)
  where
    selected : IsSelected v → is_valid_incident_fact_source v ≡ true
    selected (mode, dbt_schema, e) = mode-valid dbt_schema (normalize_fact_source_mode mode) v e
